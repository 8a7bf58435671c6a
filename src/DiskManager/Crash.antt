-- ===== src/DiskManager/Crash.antt =====
-- src/fs/mod.rs: `write_file_data` with writes that fail from some point on, and what it leaves.
use vexfs.Base.{
  ℕ, ◌+◌, ◌^◌, ◌≤◌, ◌<◌, ◌≡◌, ◌⊎◌, refl, ◌∙◌, List, [], ◌∷◌, ◌++◌, false, ◌==◌, Bool-cases, inl,
  inr, length, take, length-take, length-append, IsU64, arith,
}
use vexfs.Disk.Result.{DiskResult, ok, err, panic, io}
use vexfs.File.{Exec, after, ◌>>=◌, overwrite, write_bytes}
use vexfs.Journal.{
  Journal, JournalFile, entry_of, log_data_write_all, commit, begin_tx, needs_checkpoint,
  chunks_needed,
}
use vexfs.Journal.Records.{JournalEntry, entry_commit}
use vexfs.Journal.Slots.{IsLogged, write_bytes_ok}
use vexfs.Journal.Crash.{write_bytes_cut}
use vexfs.Journal.Split.{data_entries, length-data_entries, EntryFits-entry_of}
use vexfs.Journal.Prefix.{Lands, Lands-after, Lands-write_entry, Lands-log_data_write_all}
use vexfs.Journal.Region.{IsOutside, at-log_data_write_all, at-commit, after_keeps}
use vexfs.DiskManager.{Image, data_offset, on_file, checkpoint, write_file_data}
use vexfs.DiskManager.Write.{
  journal_file, begun, stored, IsLogged-begun, IsLogged-written, overwrite_cong,
}

-- The entries of a write and of its commit.
abbrev pub transaction : ℕ → ℕ → List ℕ → List JournalEntry
transaction tx offset bytes =
    data_entries (length bytes) tx offset bytes ++ (entry_of entry_commit tx 0 [] ∷ [])

needs_checkpoint_low : (j : Journal) → j.next_slot < 496 → needs_checkpoint j ≡ false
unfolding needs_checkpoint
needs_checkpoint_low j h = ground arith

module _ (crc : List ℕ → ℕ) where
  -- What a write of the bytes leaves on an image whose journal has the entries `es`: the first
  -- `count` of its own entries behind them, and outside the journal the bytes as before, or with
  -- the write, then behind all its entries.
  pub record IsLeft (run : DiskResult (Unit {0}) × Image) (s : Image) (es : List JournalEntry)
      (tx offset : ℕ) (bytes : List ℕ) : Type 0 where
    pub journal : Journal
    pub count : ℕ
    pub bound : count ≤ length (transaction tx offset bytes)
    pub logged :
        IsLogged crc
          (record { journal = journal; file = run.1.file })
          (es ++ take count (transaction tx offset bytes))
    pub at :
        ((i : ℕ) → IsOutside i → run.1.file.at i ≡ s.file.at i)
        ⊎ ((count ≡ length (transaction tx offset bytes))
            × ((i : ℕ) → IsOutside i → run.1.file.at i ≡ overwrite s.file.at offset bytes i))
    pub done : run.0 ≡ ok tt → count ≡ length (transaction tx offset bytes)

  -- The write behind the journal's part, and the checkpoint.
  abbrev behind : ℕ → List ℕ → Unit {0} → Exec Image (Unit {0})
  behind offset bytes _ = on_file (write_bytes offset bytes) >>= λ _. checkpoint crc

  stages :
      (offset b : ℕ) (bs : List ℕ) (s : Image) (r : DiskResult ℕ) (j1 : JournalFile)
      → log_data_write_all crc s.manager.journal.header.next_tx_id offset
          (b ∷ bs)
          (record { journal = begun s.manager.journal; file = s.file })
        ≡ (r, j1)
      → let (r', j) = after r (λ _. commit crc s.manager.journal.header.next_tx_id) j1 in
        write_file_data crc offset (b ∷ bs) s
        ≡ after r' (behind offset (b ∷ bs)) (stored crc s j j.file)
  unfolding write_file_data begin_tx
  stages offset b bs s (ok n) j1 logged = rw (logged, write_file_data)
  stages offset b bs s (err x) j1 logged = rw (logged, write_file_data)
  stages offset b bs s panic j1 logged = rw (logged, write_file_data)

  module _ (offset : ℕ) (bytes : List ℕ) (s : Image) (es : List JournalEntry) (tx : ℕ) where
    stopped :
        (r : DiskResult (Unit {0})) (j : JournalFile) (manager : _) (x : DiskResult (Unit {0}))
        → Lands crc (r, j) es (transaction tx offset bytes)
        → ((i : ℕ) → IsOutside i → j.file.at i ≡ s.file.at i)
        → (x ≡ ok tt → r ≡ ok tt)
        → IsLeft (x, record { manager = manager; file = j.file }) s es tx offset bytes
    stopped r j manager x l same fine = record {
      journal = j.journal;
      count = l.count;
      bound = l.bound;
      logged = l.logged;
      at = inl same;
      done = λ e. l.all tt (fine e);
    }

    -- Below the checkpoint.
    IsLeft-behind :
        (r : DiskResult (Unit {0})) (j : JournalFile)
        → 0 < length bytes
        → data_offset ≤ offset
        → length es + length (transaction tx offset bytes) < 496
        → Lands crc (r, j) es (transaction tx offset bytes)
        → ((i : ℕ) → IsOutside i → j.file.at i ≡ s.file.at i)
        → IsLeft (after r (behind offset bytes) (stored crc s j j.file)) s es tx offset bytes
    unfolding checkpoint
    IsLeft-behind (err e) j some_bytes place room l same =
        stopped (err e) j _ (err e) l same (λ e. e)
    IsLeft-behind panic j some_bytes place room l same = stopped panic j _ panic l same (λ e. e)
    IsLeft-behind (ok u) j some_bytes place room l same = elim (Bool-cases (j.file.budget == 0)) [
      | inl cut ↦
          rw (write_bytes_cut offset bytes j.file some_bytes (ground arith))
            (stopped (ok u) j _ (err io) l same (λ e. absurd (cc)))
      | inr more ↦
          let full = l.all u refl in
          let next = l.logged.next in
          let low : needs_checkpoint j.journal ≡ false = needs_checkpoint_low j.journal (
            omega (
              arith,
              next,
              length-append es (take l.count (transaction tx offset bytes)),
              length-take l.count (transaction tx offset bytes),
            )) in
          let run = write_bytes_ok offset bytes j.file some_bytes (ground arith) in
          rw (run, low, checkpoint)
            (record {
              journal = j.journal;
              count = l.count;
              bound = l.bound;
              logged =
                  IsLogged-written crc j.journal j.file
                    (es ++ take l.count (transaction tx offset bytes)) offset bytes place l.logged;
              at =
                  inr
                    (full, λ i out. overwrite_cong j.file.at s.file.at offset bytes i (same i out));
              done = λ e. full;
            })
    ]

  module _ (word : (bytes : List ℕ) → crc bytes < 2 ^ 32) where
    pub write_file_data-IsLeft :
        (offset b : ℕ) (bs : List ℕ) (s : Image) (es : List JournalEntry)
        → IsLogged crc (journal_file s) es
        → data_offset ≤ offset
        → IsU64 (offset + length (b ∷ bs))
        → length es + chunks_needed (b ∷ bs) + 1 < 496
        → IsLeft
            (write_file_data crc offset (b ∷ bs) s)
            s
            es
            s.manager.journal.header.next_tx_id
            offset
            (b ∷ bs)
    unfolding commit
    write_file_data-IsLeft offset b bs s es g place word64 room =
        let tx = s.manager.journal.header.next_tx_id in
        let bytes = b ∷ bs in
        let j0 : JournalFile = record { journal = begun s.manager.journal; file = s.file } in
        let g0 = IsLogged-begun crc s.manager.journal s.file es g in
        let t = g.fits.next_tx_id in
        let ds = data_entries (length bytes) tx offset bytes in
        let c = entry_of entry_commit tx 0 [] in
        let r = (log_data_write_all crc tx offset bytes j0).0 in
        let j1 = (log_data_write_all crc tx offset bytes j0).1 in
        let first = Lands-log_data_write_all crc word tx offset bytes j0 es g0 t word64 in
        let run = after r (λ _. commit crc tx) j1 in
        let lands : Lands crc run es (transaction tx offset bytes) =
          Lands-after crc r j1 (commit crc tx) es ds (c ∷ []) first (λ here.
            Lands-write_entry crc word c j1 (es ++ ds) here
              (EntryFits-entry_of entry_commit tx 0 [] t (omega arith) (omega arith))
              (omega arith)) in
        rw (stages offset b bs s r j1 refl) (
          IsLeft-behind offset bytes s es tx run.0 run.1 (omega arith) place
            (omega (
              arith,
              length-append ds (c ∷ []),
              length-data_entries (length bytes) tx offset bytes (omega arith),
            ))
            lands
            (λ i out.
              after_keeps (λ (j : JournalFile). j.file.at i ≡ s.file.at i) r j1 (λ _. commit crc tx)
                (at-log_data_write_all crc i out tx offset bytes j0)
                (λ _.
                  at-commit crc i out tx j1 ∙ at-log_data_write_all crc i out tx offset bytes j0)))
