-- ===== src/DiskManager/Write.antt =====
-- src/fs/mod.rs: about `write_file_data`: the journal, then the data region, then the checkpoint.
use vexfs.Base.{
  ℕ, zero, suc, ◌+◌, ◌*◌, ◌%◌, ◌^◌, ◌≤◌, ◌<◌, ◌≡◌, inl, inr, refl, ap, ◌∙◌, List, [], ◌∷◌, ◌++◌,
  false, some, length, get_elem?, length-append, Bool-cases, IsU64, arith,
}
use vexfs.Disk.Result.{DiskResult, ok}
use vexfs.File.{File, overwrite, write_bytes}
use vexfs.File.Ranges.{bytes_at-overwrite_apart}
use vexfs.Journal.{
  Journal, JournalFile, max_journal_entries, slot_offset, begin_tx, log_data_write_all, commit,
  entry_of, chunks_needed, needs_checkpoint, write_entry,
}
use vexfs.Journal.Records.{JournalEntry, entry_commit}
use vexfs.Journal.Slots.{IsLogged, written, write_bytes_ok}
use vexfs.Journal.Format.{clear-IsLogged}
use vexfs.Journal.Split.{
  Appends-write_entry, data_entries, length-data_entries, EntryFits-entry_of,
  log_data_write_all_lem,
}
use vexfs.DiskManager.{Image, data_offset, checkpoint, write_file_data}

abbrev pub journal_file : Image → JournalFile
journal_file s = record { journal = s.manager.journal; file = s.file }

-- The journal with its next transaction id handed out.
abbrev pub begun : Journal → Journal
begun j = record j { header = record j.header { next_tx_id = (j.header.next_tx_id + 1) % 2 ^ 32 } }

get_elem?-lt :
    (es : List JournalEntry) (i : ℕ) (e : JournalEntry) → get_elem? es i ≡ some e → i < length es
get_elem?-lt [] i e h = absurd (cc)
get_elem?-lt (x ∷ es) zero e h = omega arith
get_elem?-lt (x ∷ es) (suc i) e h = omega (arith, get_elem?-lt es i e h)

needs_checkpoint_empty : (j : Journal) → j.next_slot ≡ 0 → needs_checkpoint j ≡ false
unfolding needs_checkpoint
needs_checkpoint_empty j h = rw h

pub overwrite_cong :
    (f g : ℕ → ℕ) (offset : ℕ) (bytes : List ℕ) (i : ℕ)
    → f i ≡ g i
    → overwrite f offset bytes i ≡ overwrite g offset bytes i
overwrite_cong f g offset bytes i h = rw h

module _ (crc : List ℕ → ℕ) where
  pub IsLogged-begun :
      (j : Journal) (f : File) (es : List JournalEntry)
      → IsLogged crc (record { journal = j; file = f }) es
      → IsLogged crc (record { journal = begun j; file = f }) es
  IsLogged-begun j f es g = record {
    next = g.next;
    within = g.within;
    used = g.used;
    unused = g.unused;
    disk_header = g.disk_header;
    header = g.header;
    fits = record {
      magic = g.fits.magic;
      version = g.fits.version;
      next_tx_id = omega arith;
      entry_count = g.fits.entry_count;
    };
    magic = g.magic;
    room = g.room;
  }

  -- A write behind the journal region.
  pub IsLogged-written :
      (j : Journal) (f : File) (es : List JournalEntry) (offset : ℕ) (bytes : List ℕ)
      → data_offset ≤ offset
      → IsLogged crc (record { journal = j; file = f }) es
      → IsLogged crc (record { journal = j; file = written offset bytes f }) es
  IsLogged-written j f es offset bytes behind g =
      let apart = bytes_at-overwrite_apart f.at offset bytes in
      record {
        next = g.next;
        within = g.within;
        used = λ i e at.
            rw (apart (slot_offset i) 512 (inl (omega (arith, get_elem?-lt es i e at, g.within))))
              (g.used i e at);
        unused = λ i lo hi. rw (apart (slot_offset i) 512 (inl (omega arith))) (g.unused i lo hi);
        disk_header = g.disk_header;
        header = rw (apart 397312 64 (inl (omega arith))) g.header;
        fits = g.fits;
        magic = g.magic;
        room = omega (arith, g.room);
      }

  -- The image after the three parts of the write that come before the checkpoint.
  abbrev pub stored : Image → JournalFile → File → Image
  stored s j f = record { manager = record s.manager { journal = j.journal }; file = f }

  pub write_file_data-checkpoint :
      (offset b : ℕ) (bs : List ℕ) (s : Image) (j1 j2 : JournalFile) (f : File) (n : ℕ)
      → log_data_write_all crc s.manager.journal.header.next_tx_id offset
          (b ∷ bs)
          (record { journal = begun s.manager.journal; file = s.file })
        ≡ (ok n, j1)
      → commit crc s.manager.journal.header.next_tx_id j1 ≡ (ok tt, j2)
      → write_bytes offset (b ∷ bs) j2.file ≡ (ok tt, f)
      → write_file_data crc offset (b ∷ bs) s ≡ checkpoint crc (stored s j2 f)
  unfolding write_file_data begin_tx
  write_file_data-checkpoint offset b bs s j1 j2 f n logged committed direct =
      rw (logged, write_file_data, committed, direct)

  -- What a write to the data region leaves when it succeeds: the bytes at their offset, the data
  -- region else as before, and a journal that is logged.
  pub record IsStored (run : DiskResult (Unit {0}) × Image) (offset : ℕ) (bytes : List ℕ)
      (s : Image) : Type 0 where
    pub result : run.0 ≡ ok tt
    pub at : (i : ℕ) → data_offset ≤ i → run.1.file.at i ≡ overwrite s.file.at offset bytes i
    pub entries : List JournalEntry
    pub logged : IsLogged crc (journal_file run.1) entries
    pub room : needs_checkpoint run.1.manager.journal ≡ false

  module _ (word : (bytes : List ℕ) → crc bytes < 2 ^ 32) where
    IsStored-checkpoint :
        (s : Image) (es : List JournalEntry) (offset : ℕ) (bytes : List ℕ) (s0 : Image)
        → IsLogged crc (journal_file s) es
        → max_journal_entries < s.file.budget
        → ((i : ℕ) → data_offset ≤ i → s.file.at i ≡ overwrite s0.file.at offset bytes i)
        → IsStored (checkpoint crc s) offset bytes s0
    unfolding checkpoint
    IsStored-checkpoint s es offset bytes s0 g budget same =
        elim (Bool-cases (needs_checkpoint s.manager.journal)) [
          | inl full ↦
              let (j, (done, (logged, (kept, behind)))) =
                clear-IsLogged crc word (journal_file s) es g budget in
              rw (full, done)
                (record {
                  result = refl;
                  at = λ i h. behind i h ∙ same i h;
                  entries = [];
                  logged = logged;
                  room = needs_checkpoint_empty j.journal logged.next;
                })
          | inr free ↦
              rw free (record { result = refl; at = same; entries = es; logged = g; room = free })
        ]

    -- A write of some bytes behind the journal, with free slots for its chunks and the commit
    -- entry, and with enough writes of the file left for them, for the data and for a checkpoint:
    -- it succeeds, the bytes stand at their offset, the data region is else as before, and the
    -- journal is logged and below the checkpoint.
    pub write_file_data-IsStored :
        (offset b : ℕ) (bs : List ℕ) (s : Image) (es : List JournalEntry)
        → IsLogged crc (journal_file s) es
        → data_offset ≤ offset
        → IsU64 (offset + length (b ∷ bs))
        → length es + chunks_needed (b ∷ bs) < max_journal_entries
        → 2 * chunks_needed (b ∷ bs) + 516 ≤ s.file.budget
        → IsStored (write_file_data crc offset (b ∷ bs) s) offset (b ∷ bs) s
    unfolding commit
    write_file_data-IsStored offset b bs s es g behind word64 room budget =
        let tx = s.manager.journal.header.next_tx_id in
        let j0 : JournalFile = record { journal = begun s.manager.journal; file = s.file } in
        let g0 = IsLogged-begun s.manager.journal s.file es g in
        let ds = data_entries (length (b ∷ bs)) tx offset (b ∷ bs) in
        let count = length-data_entries (length (b ∷ bs)) tx offset (b ∷ bs) (omega arith) in
        elim (log_data_write_all_lem crc word tx offset (b ∷ bs) j0 es g0 g.fits.next_tx_id word64
          (omega arith)) [
            | inl (a, _) ↦
                let j1 = (log_data_write_all crc tx offset (b ∷ bs) j0).1 in
                let c = entry_of entry_commit tx 0 [] in
                let entry =
                  Appends-write_entry crc word c j1 (es ++ ds) a.logged
                    (omega (arith, length-append es ds, count))
                    (EntryFits-entry_of entry_commit tx 0 [] g.fits.next_tx_id (omega arith)
                      (omega arith))
                    (omega arith) (omega (arith, a.spent, count)) in
                let j2 = (write_entry crc c j1).1 in
                let first : log_data_write_all crc tx offset (b ∷ bs) j0
                    ≡ (ok (chunks_needed (b ∷ bs)), j1) =
                  ap (λ r. (r, j1)) a.result in
                let second : commit crc tx j1 ≡ (ok tt, j2) = ap (λ r. (r, j2)) entry.result in
                let third =
                  write_bytes_ok offset (b ∷ bs) j2.file (omega arith)
                    (omega (arith, a.spent, entry.spent, count)) in
                let f = written offset (b ∷ bs) j2.file in
                rw
                  (write_file_data-checkpoint offset b bs s j1 j2 f (chunks_needed (b ∷ bs)) first
                    second third)
                  (IsStored-checkpoint (stored s j2 f) ((es ++ ds) ++ (c ∷ [])) offset (b ∷ bs) s
                    (IsLogged-written j2.journal j2.file ((es ++ ds) ++ (c ∷ [])) offset (b ∷ bs)
                      behind entry.logged)
                    (omega (arith, a.spent, entry.spent, count))
                    (λ i h.
                      overwrite_cong j2.file.at s.file.at offset (b ∷ bs) i
                        (entry.same i h ∙ a.same i h)))
            | inr (_, full) ↦ absurd (omega arith)
          ]
