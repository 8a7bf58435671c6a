-- ===== src/Journal/Prefix.antt =====
-- src/fs/journal.rs: the entries on disk after a method that stops at one of its writes.
use mathlib.Core.List.{append-nil, append_assoc}
use vexfs.Base.{
  add_u64, ◌==◌, false, leb-false→lt, ltb-false→le, Bool-cases, IsU32, IsU64, List, [], ap, arith,
  drop, inl, inr, leb, length, length-append, length-drop, length-take, le→leb, ltb, refl, suc,
  take, take_of_length-le, true, zero, ℕ, ◌++◌, ◌+◌, ◌-◌, ◌<◌, ◌^◌, ◌∷◌, ◌≡◌, ◌≢◌, ◌≤◌, ◌⊎◌,
}
use vexfs.Disk.Result.{DiskResult, ok, err, panic, io}
use vexfs.File.{Exec, after}
use vexfs.Journal.{
  JournalFile, chunks_needed, entry_of, log_data_write_all, log_data_write_chunk,
  max_journal_entries, write_chunks, write_entry,
}
use vexfs.Journal.Records.{
  JournalEntry, EntryFits, journal_payload_size, entry_free, entry_write_data,
}
use vexfs.Journal.Slots.{IsLogged, appended}
use vexfs.Journal.Append.{write_entry-IsLogged}
use vexfs.Journal.Crash.{write_entry-no_write, cut_short, write_entry-cut_short, IsLogged-cut_short}
use vexfs.Journal.Split.{data_entries, length-data_entries, EntryFits-entry_of}

take-append_beyond :
    (xs ys : List JournalEntry) (n : ℕ) → take (length xs + n) (xs ++ ys) ≡ xs ++ take n ys
take-append_beyond [] ys n = ap (λ k. take k ys) (omega arith)
take-append_beyond (x ∷ xs) ys n =
    let step : suc (length xs) + n ≡ suc (length xs + n) = omega arith in
    rw (step, take-append_beyond xs ys n)

pub take-append_within :
    (xs ys : List JournalEntry) (n : ℕ) → n ≤ length xs → take n (xs ++ ys) ≡ take n xs
take-append_within [] ys zero h = refl
take-append_within [] ys (suc n) h = absurd (omega arith)
take-append_within (x ∷ xs) ys zero h = refl
take-append_within (x ∷ xs) ys (suc n) h = ap (◌∷◌ x) (take-append_within xs ys n (omega arith))

budget_cases : (b : ℕ) → (b ≡ 0) ⊎ ((b ≡ 1) ⊎ (2 ≤ b))
budget_cases zero = inl refl
budget_cases (suc zero) = inr (inl refl)
budget_cases (suc (suc b)) = inr (inr (omega arith))

module _ (crc : List ℕ → ℕ) where
  -- `count` of the entries `ds` stand behind `es`, all of them when the result is no error.
  pub record Lands {A : Type 0} (run : DiskResult A × JournalFile) (es ds : List JournalEntry)
      : Type 0 where
    pub count : ℕ
    pub bound : count ≤ length ds
    pub logged : IsLogged crc run.1 (es ++ take count ds)
    pub all : (a : A) → run.0 ≡ ok a → count ≡ length ds

  Lands-all :
      {A : Type 0} (r : DiskResult A) (s : JournalFile) (es ds : List JournalEntry)
      → IsLogged crc s (es ++ ds)
      → Lands (r, s) es ds
  Lands-all r s es ds g = record {
    count = length ds;
    bound = omega arith;
    logged = rw (take_of_length-le (length ds) ds (omega arith)) g;
    all = λ a eq. refl;
  }

  Lands-none :
      {A : Type 0} (s : JournalFile) (es ds : List JournalEntry)
      → IsLogged crc s es
      → Lands {A = A} (err io, s) es ds
  Lands-none s es ds g = record {
    count = 0;
    bound = omega arith;
    logged = rw (append-nil es) g;
    all = λ a eq. absurd (cc);
  }

  -- The entries of a method, then those of the rest behind `?`.
  pub Lands-after :
      {A B : Type 0} (r : DiskResult A) (s1 : JournalFile) (m : Exec JournalFile B)
      (es ds es2 : List JournalEntry)
      → Lands (r, s1) es ds
      → (IsLogged crc s1 (es ++ ds) → Lands (m s1) (es ++ ds) es2)
      → Lands (after r (λ _. m) s1) es (ds ++ es2)
  Lands-after (ok a) s1 m es ds es2 p rest =
      let full = p.all a refl in
      let here : IsLogged crc s1 (es ++ ds) =
        (let whole : take p.count ds ≡ ds = take_of_length-le p.count ds (omega arith) in
          rw whole at p.logged) in
      let q = rest here in
      record {
        count = length ds + q.count;
        bound = omega (arith, length-append ds es2, q.bound);
        logged =
            rw (take-append_beyond ds es2 q.count, ← append_assoc es ds (take q.count es2))
              q.logged;
        all = λ b eq. omega (arith, length-append ds es2, q.all b eq);
      }
  Lands-after (err x) s1 m es ds es2 p rest = record {
    count = p.count;
    bound = omega (arith, length-append ds es2, p.bound);
    logged = rw (take-append_within ds es2 p.count p.bound) p.logged;
    all = λ a eq. absurd (cc);
  }
  Lands-after panic s1 m es ds es2 p rest = record {
    count = p.count;
    bound = omega (arith, length-append ds es2, p.bound);
    logged = rw (take-append_within ds es2 p.count p.bound) p.logged;
    all = λ a eq. absurd (cc);
  }

  write_entry_full :
      (e : JournalEntry) (s : JournalFile)
      → leb max_journal_entries s.journal.next_slot ≡ true
      → write_entry crc e s ≡ (err io, s)
  unfolding write_entry
  write_entry_full e s full = rw full

  module _ (word : (bytes : List ℕ) → crc bytes < 2 ^ 32) where
    Lands-write_entry_free :
        (e : JournalEntry) (s : JournalFile) (es : List JournalEntry)
        → IsLogged crc s es
        → length es < max_journal_entries
        → EntryFits e
        → e.entry_type ≢ entry_free
        → Lands (write_entry crc e s) es (e ∷ [])
    Lands-write_entry_free e s es g free f busy = elim (budget_cases s.file.budget) [
      | inl none_left ↦
          rw (write_entry-no_write crc e s (omega (arith, g.next)) f.payload none_left)
            (Lands-none s es (e ∷ []) g)
      | inr (inl one) ↦ rw (write_entry-cut_short crc e s (omega (arith, g.next)) f.payload one) (
          Lands-all (err io) (cut_short crc e s) es (e ∷ [])
            (IsLogged-cut_short crc word e s es g free f busy))
      | inr (inr enough) ↦
          let (eq, logged) = write_entry-IsLogged crc word e s es g free f busy enough in
          rw eq (Lands-all (ok tt) (appended crc e s) es (e ∷ []) logged)
    ]

    pub Lands-write_entry :
        (e : JournalEntry) (s : JournalFile) (es : List JournalEntry)
        → IsLogged crc s es
        → EntryFits e
        → e.entry_type ≢ entry_free
        → Lands (write_entry crc e s) es (e ∷ [])
    Lands-write_entry e s es g f busy =
        elim (Bool-cases (leb max_journal_entries s.journal.next_slot)) [
          | inl full ↦ rw (write_entry_full e s full) (Lands-none s es (e ∷ []) g)
          | inr free ↦
              Lands-write_entry_free e s es g
                (omega (arith, g.next, leb-false→lt max_journal_entries s.journal.next_slot free)) f
                busy
        ]

    Lands-write_chunks :
        (fuel tx offset count : ℕ) (bytes : List ℕ) (s : JournalFile) (es : List JournalEntry)
        → IsLogged crc s es
        → length bytes ≤ fuel
        → IsU32 tx
        → IsU64 (offset + length bytes)
        → length es + length (data_entries fuel tx offset bytes) ≤ max_journal_entries
        → Lands
            (write_chunks crc fuel tx offset count bytes s)
            es
            (data_entries fuel tx offset bytes)
    unfolding write_chunks log_data_write_chunk data_entries
    Lands-write_chunks fuel tx offset count [] s es g enough t o room =
        Lands-all (ok count) s es [] (rw (append-nil es) g)
    Lands-write_chunks zero tx offset count (b ∷ bs) s es g enough t o room = absurd (omega arith)
    Lands-write_chunks (suc fuel) tx offset count (b ∷ bs) s es g enough t o room =
        let chunk = take journal_payload_size (b ∷ bs) in
        let more = drop journal_payload_size (b ∷ bs) in
        let e = entry_of entry_write_data tx offset chunk in
        let left = length-drop journal_payload_size (b ∷ bs) in
        let taken = length-take journal_payload_size (b ∷ bs) in
        let fits : leb (length chunk) journal_payload_size ≡ true =
          le→leb _ _ (omega (arith, taken)) in
        let first =
          Lands-write_entry_free e s es g (omega arith)
            (EntryFits-entry_of entry_write_data tx offset chunk t (omega arith)
              (omega (arith, taken)))
            (omega arith) in
        let next : add_u64 offset (length chunk) ≡ offset + length chunk = omega (arith, taken) in
        rw fits (
          Lands-after (write_entry crc e s).0 (write_entry crc e s).1
            (write_chunks crc fuel tx (add_u64 offset (length chunk)) (count + 1) more) es (e ∷ [])
            (data_entries fuel tx (offset + length chunk) more) first
            (λ here. rw next (
              Lands-write_chunks fuel tx (offset + length chunk) (count + 1) more
                (write_entry crc e s).1 (es ++ (e ∷ [])) here (omega (arith, left)) t
                (omega (arith, left, taken)) (omega (arith, length-append es (e ∷ []))))))

    -- A write that needs more slots than are free, one for the commit entry included, is refused.
    pub Lands-log_data_write_all :
        (tx offset : ℕ) (bytes : List ℕ) (s : JournalFile) (es : List JournalEntry)
        → IsLogged crc s es
        → IsU32 tx
        → IsU64 (offset + length bytes)
        → Lands
            (log_data_write_all crc tx offset bytes s)
            es
            (data_entries (length bytes) tx offset bytes)
    unfolding log_data_write_all data_entries
    Lands-log_data_write_all tx offset [] s es g t o =
        Lands-all (ok 0) s es [] (rw (append-nil es) g)
    Lands-log_data_write_all tx offset (b ∷ bs) s es g t o =
        let more : (length (b ∷ bs) == 0) ≡ false = ground arith in
        elim (Bool-cases
          (ltb (max_journal_entries - s.journal.next_slot) (chunks_needed (b ∷ bs) + 1))) [
            | inl refused ↦
                rw (more, refused)
                  (Lands-none s es (data_entries (length (b ∷ bs)) tx offset (b ∷ bs)) g)
            | inr fits ↦
                rw (more, fits)
                  (Lands-write_chunks (length (b ∷ bs)) tx offset 0 (b ∷ bs) s es g (omega arith) t
                    o
                    (omega (
                      arith,
                      length-data_entries (length (b ∷ bs)) tx offset (b ∷ bs) (omega arith),
                      g.next,
                      ltb-false→le (max_journal_entries - s.journal.next_slot)
                          (chunks_needed (b ∷ bs) + 1) fits,
                    )))
          ]
