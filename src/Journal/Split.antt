-- ===== src/Journal/Split.antt =====
-- src/fs/journal.rs: about `log_data_write_all`, with writes that do not fail.
use native.Mathlib.Nat.{add-zero}
use mathlib.Core.List.{append-nil, append_assoc}
use vexfs.Base.{
  add_u64, ◌⊎◌, inl, inr, ltb, ltb→lt, ltb-false→le, Bool-cases, ◌-◌, ◌==◌, false, ℕ, zero, suc,
  ◌+◌, ◌*◌, ◌^◌, ◌≤◌, ◌<◌, ◌≡◌, ◌≢◌, refl, ap, ◌∙◌, List, [], ◌∷◌, ◌++◌, true, leb, length, take,
  drop, replicate, length-append, length-take, length-drop, length-replicate, le→leb, IsU32, IsU64,
  arith,
}
use vexfs.Disk.Result.{err, io, DiskResult, ok}
use vexfs.Journal.{
  log_data_write_all, JournalFile, max_journal_entries, slot_offset, write_entry, entry_of,
  chunks_needed, log_data_write_chunk, write_chunks,
}
use vexfs.Journal.Records.{
  JournalEntry, EntryFits, journal_payload_size, entry_write_data, entry_free,
}
use vexfs.Journal.Slots.{IsLogged}
use vexfs.Journal.Append.{write_entry-IsLogged, at-appended}

-- The entries that a write of the bytes at the offset is split into.
unfoldable pub data_entries : ℕ → ℕ → ℕ → List ℕ → List JournalEntry
data_entries fuel tx offset [] = []
data_entries zero tx offset (b ∷ bs) = []
data_entries (suc fuel) tx offset (b ∷ bs) =
    let chunk = take journal_payload_size (b ∷ bs) in
    entry_of entry_write_data tx offset chunk
    ∷ data_entries fuel tx (offset + length chunk) (drop journal_payload_size (b ∷ bs))

pub length-data_entries :
    (fuel tx offset : ℕ) (bytes : List ℕ)
    → length bytes ≤ fuel
    → length (data_entries fuel tx offset bytes) ≡ chunks_needed bytes
unfolding data_entries
length-data_entries fuel tx offset [] h = refl
length-data_entries zero tx offset (b ∷ bs) h = absurd (omega arith)
length-data_entries (suc fuel) tx offset (b ∷ bs) h =
    let more = drop journal_payload_size (b ∷ bs) in
    let left = length-drop journal_payload_size (b ∷ bs) in
    let ih =
      length-data_entries fuel tx (offset + length (take journal_payload_size (b ∷ bs))) more
        (omega (arith, left)) in
    omega (arith, ih, left)

pub EntryFits-entry_of :
    (type tx offset : ℕ) (chunk : List ℕ)
    → IsU32 tx
    → IsU64 offset
    → length chunk ≤ journal_payload_size
    → EntryFits (entry_of type tx offset chunk)
EntryFits-entry_of type tx offset chunk t o h = record {
  tx_id = t;
  payload_len = omega arith;
  disk_offset = o;
  payload = omega (
    arith,
    length-append chunk (replicate (journal_payload_size - length chunk) 0),
    length-replicate {A = ℕ} (journal_payload_size - length chunk) 0,
  );
}

module _ (crc : List ℕ → ℕ) where
  -- What a method that appends the entries `ds` leaves, with its result.
  pub record Appends {A : Type 0} (run : DiskResult A × JournalFile) (a : A) (s : JournalFile)
      (es ds : List JournalEntry) : Type 0 where
    pub result : run.0 ≡ ok a
    pub logged : IsLogged crc run.1 (es ++ ds)
    pub same : (i : ℕ) → slot_offset max_journal_entries ≤ i → run.1.file.at i ≡ s.file.at i
    pub spent : run.1.file.budget + 2 * length ds ≡ s.file.budget
    pub tx : run.1.journal.header.next_tx_id ≡ s.journal.header.next_tx_id

  module _ (word : (bytes : List ℕ) → crc bytes < 2 ^ 32) where
    pub Appends-write_entry :
        (e : JournalEntry) (s : JournalFile) (es : List JournalEntry)
        → IsLogged crc s es
        → length es < max_journal_entries
        → EntryFits e
        → e.entry_type ≢ entry_free
        → 2 ≤ s.file.budget
        → Appends (write_entry crc e s) tt s es (e ∷ [])
    Appends-write_entry e s es g free f busy budget =
        let (eq, logged) = write_entry-IsLogged crc word e s es g free f busy budget in
        rw eq (record {
          result = refl;
          logged = logged;
          same = λ i h. at-appended crc e s f.payload i (omega (arith, g.next)) h;
          spent = omega arith;
          tx = refl;
        })

    Appends-before :
        {A : Type 0} (run : DiskResult A × JournalFile) (a : A) (s s1 : JournalFile)
        (es ds : List JournalEntry) (e : JournalEntry)
        → Appends (ok tt, s1) tt s es (e ∷ [])
        → Appends run a s1 (es ++ (e ∷ [])) ds
        → Appends run a s es (e ∷ ds)
    Appends-before run a s s1 es ds e p q = record {
      result = q.result;
      logged =
          (let same : (es ++ (e ∷ [])) ++ ds ≡ es ++ (e ∷ ds) = append_assoc es (e ∷ []) ds in
            rw same at q.logged);
      same = λ i h. q.same i h ∙ p.same i h;
      spent = omega (arith, p.spent, q.spent);
      tx = q.tx ∙ p.tx;
    }

    Appends-nothing :
        (count : ℕ) (s : JournalFile) (es : List JournalEntry)
        → IsLogged crc s es
        → Appends (ok count, s) count s es []
    Appends-nothing count s es g = record {
      result = refl;
      logged = rw (append-nil es) g;
      same = λ i h. refl;
      spent = omega arith;
      tx = refl;
    }

    write_chunks_nil :
        (fuel tx offset count : ℕ) (s : JournalFile)
        → write_chunks crc fuel tx offset count [] s ≡ (ok count, s)
    unfolding write_chunks
    write_chunks_nil fuel tx offset count s = refl

    write_chunks_step :
        (fuel tx offset count b : ℕ) (bs : List ℕ) (s s1 : JournalFile)
        → write_entry crc
            (entry_of entry_write_data tx offset (take journal_payload_size (b ∷ bs)))
            s
          ≡ (ok tt, s1)
        → IsU64 (offset + length (take journal_payload_size (b ∷ bs)))
        → write_chunks crc (suc fuel) tx offset count (b ∷ bs) s
          ≡ write_chunks crc fuel tx
              (offset + length (take journal_payload_size (b ∷ bs)))
              (count + 1)
              (drop journal_payload_size (b ∷ bs))
              s1
    unfolding write_chunks log_data_write_chunk
    write_chunks_step fuel tx offset count b bs s s1 done word64 =
        let chunk = take journal_payload_size (b ∷ bs) in
        let next : add_u64 offset (length chunk) ≡ offset + length chunk = omega arith in
        let fits : leb (length (take journal_payload_size (b ∷ bs))) journal_payload_size ≡ true =
          le→leb _ _ (omega (arith, length-take journal_payload_size (b ∷ bs))) in
        rw (fits, write_chunks, done)
          (ap (λ o. write_chunks crc fuel tx o (count + 1) (drop journal_payload_size (b ∷ bs)) s1)
            next)

    pub Appends-write_chunks :
        (fuel tx offset count : ℕ) (bytes : List ℕ) (s : JournalFile) (es : List JournalEntry)
        → IsLogged crc s es
        → length bytes ≤ fuel
        → IsU32 tx
        → IsU64 (offset + length bytes)
        → length es + length (data_entries fuel tx offset bytes) ≤ max_journal_entries
        → 2 * length (data_entries fuel tx offset bytes) ≤ s.file.budget
        → Appends
            (write_chunks crc fuel tx offset count bytes s)
            (count + length (data_entries fuel tx offset bytes))
            s
            es
            (data_entries fuel tx offset bytes)
    unfolding data_entries
    Appends-write_chunks fuel tx offset count [] s es g enough t o room budget =
        rw (write_chunks_nil fuel tx offset count s, add-zero count) (Appends-nothing count s es g)
    Appends-write_chunks zero tx offset count (b ∷ bs) s es g enough t o room budget =
        absurd (omega arith)
    Appends-write_chunks (suc fuel) tx offset count (b ∷ bs) s es g enough t o room budget =
        let chunk = take journal_payload_size (b ∷ bs) in
        let more = drop journal_payload_size (b ∷ bs) in
        let e = entry_of entry_write_data tx offset chunk in
        let first =
          Appends-write_entry e s es g (omega arith)
            (EntryFits-entry_of entry_write_data tx offset chunk t (omega arith)
              (omega (arith, length-take journal_payload_size (b ∷ bs))))
            (omega arith) (omega arith) in
        let ok_first : write_entry crc e s ≡ (ok tt, (write_entry crc e s).1) =
          ap (λ r. (r, (write_entry crc e s).1)) first.result in
        let total : count + suc (length (data_entries fuel tx (offset + length chunk) more))
            ≡ count + 1 + length (data_entries fuel tx (offset + length chunk) more) =
          omega arith in
        let s1 = (write_entry crc e s).1 in
        let left = length-drop journal_payload_size (b ∷ bs) in
        let taken = length-take journal_payload_size (b ∷ bs) in
        let rest =
          Appends-write_chunks fuel tx (offset + length chunk) (count + 1) more s1 (es ++ (e ∷ []))
            first.logged (omega (arith, left)) t (omega (arith, left, taken))
            (omega (arith, length-append es (e ∷ []))) (omega (arith, first.spent)) in
        rw (write_chunks_step fuel tx offset count b bs s s1 ok_first (omega (arith, taken)), total)
          (Appends-before _ _ s s1 es _ e (rw ok_first at first) rest)

    -- A large write, with a write of the file left for each entry and each header: it appends one
    -- entry for each chunk of 490 bytes and returns their number, or, when the entries and a commit
    -- entry do not fit behind the old ones, it is refused with nothing changed.
    pub log_data_write_all_lem :
        (tx offset : ℕ) (bytes : List ℕ) (s : JournalFile) (es : List JournalEntry)
        → IsLogged crc s es
        → IsU32 tx
        → IsU64 (offset + length bytes)
        → 2 * chunks_needed bytes ≤ s.file.budget
        → (Appends
              (log_data_write_all crc tx offset bytes s)
              (chunks_needed bytes)
              s
              es
              (data_entries (length bytes) tx offset bytes)
            × ((bytes ≡ []) ⊎ (length es + chunks_needed bytes < max_journal_entries)))
          ⊎ ((log_data_write_all crc tx offset bytes s ≡ (err io, s))
              × (max_journal_entries ≤ length es + chunks_needed bytes))
    unfolding log_data_write_all data_entries
    log_data_write_all_lem tx offset [] s es g t o budget = inl (Appends-nothing 0 s es g, inl refl)
    log_data_write_all_lem tx offset (b ∷ bs) s es g t o budget =
        let more : (length (b ∷ bs) == 0) ≡ false = ground arith in
        let count = length-data_entries (length (b ∷ bs)) tx offset (b ∷ bs) (omega arith) in
        elim (Bool-cases
          (ltb (max_journal_entries - s.journal.next_slot) (chunks_needed (b ∷ bs) + 1))) [
            | inl refused ↦
                rw (more, refused)
                  (inr (
                    refl,
                    omega (
                      arith,
                      g.next,
                      ltb→lt (max_journal_entries - s.journal.next_slot)
                          (chunks_needed (b ∷ bs) + 1) refused,
                    ),
                  ))
            | inr fits ↦
                let room : length es + chunks_needed (b ∷ bs) < max_journal_entries = omega (
                  arith,
                  g.next,
                  ltb-false→le (max_journal_entries - s.journal.next_slot)
                      (chunks_needed (b ∷ bs) + 1) fits,
                ) in
                let total : 0 + length (data_entries (length (b ∷ bs)) tx offset (b ∷ bs))
                    ≡ chunks_needed (b ∷ bs) =
                  omega (arith, count) in
                let run =
                  Appends-write_chunks (length (b ∷ bs)) tx offset 0 (b ∷ bs) s es g (omega arith) t
                    o (omega (arith, count)) (omega (arith, count)) in
                rw (more, fits) (inl ((rw total at run), inr room))
          ]
