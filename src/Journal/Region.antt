-- ===== src/Journal/Region.antt =====
-- src/fs/journal.rs: the bytes of the file outside the journal region, under the journal's methods.
use vexfs.Base.{
  ℕ, zero, suc, ◌+◌, ◌-◌, ◌*◌, ◌≤◌, ◌<◌, ◌≡◌, ◌⊎◌, inl, inr, refl, ◌∙◌, List, [], ◌∷◌, true, leb,
  Bool-cases, length, take, drop, replicate, length-append, length-replicate, length-take, add_u64,
  le→leb, leb-false→lt, arith,
}
use vexfs.Disk.Result.{DiskResult, ok, err, panic}
use vexfs.File.{File, Exec, after, write_bytes}
use vexfs.Journal.{
  JournalFile, journal_offset, max_journal_entries, slot_offset, entry_of, write_entry,
  write_header, log_data_write_chunk, write_chunks, log_data_write_all, commit, clear, format,
  zero_slots,
}
use vexfs.Journal.Records.{
  JournalEntry, new_header, header_to_bytes, entry_to_bytes, journal_payload_size, entry_write_data,
  entry_commit,
}
use vexfs.Journal.Slots.{length-entry_to_bytes, length-header_to_bytes}

-- A byte in front of the journal region or behind it.
abbrev pub IsOutside : ℕ → Type 0
IsOutside i = (i < journal_offset) ⊎ (slot_offset max_journal_entries ≤ i)

pub at-write_bytes :
    (offset : ℕ) (bytes : List ℕ) (f : File) (i : ℕ)
    → (i < offset) ⊎ (offset + length bytes ≤ i)
    → (write_bytes offset bytes f).1.at i ≡ f.at i
unfolding write_bytes
at-write_bytes offset bytes f i h = ground arith

-- What holds behind a part of a method, and behind the rest, holds behind `?` between them.
pub after_keeps :
    {S A B : Type 0} (P : S → Type 0) (r : DiskResult A) (s : S) (m : A → Exec S B)
    → P s
    → ((a : A) → P (m a s).1)
    → P (after r m s).1
after_keeps P (ok a) s m h k = k a
after_keeps P (err e) s m h k = h
after_keeps P panic s m h k = h

length-payload :
    (bytes : List ℕ)
    → length bytes ≤ journal_payload_size
    → length (entry_of 0 0 0 bytes).payload ≡ journal_payload_size
length-payload bytes h = omega (
  arith,
  length-append bytes (replicate (journal_payload_size - length bytes) 0),
  length-replicate {A = ℕ} (journal_payload_size - length bytes) 0,
)

module _ (crc : List ℕ → ℕ) (i : ℕ) (outside : IsOutside i) where
  at-write_header : (s : JournalFile) → (write_header crc s).1.file.at i ≡ s.file.at i
  unfolding write_header
  at-write_header s =
      at-write_bytes journal_offset (header_to_bytes crc s.journal.header) s.file i
        (omega (arith, length-header_to_bytes crc s.journal.header))

  pub at-write_entry :
      (e : JournalEntry) (s : JournalFile)
      → length e.payload ≡ journal_payload_size
      → (write_entry crc e s).1.file.at i ≡ s.file.at i
  unfolding write_entry
  at-write_entry e s payload = elim (Bool-cases (leb max_journal_entries s.journal.next_slot)) [
    | inl full ↦ rw full
    | inr free ↦
        let at_ = at-write_bytes (slot_offset s.journal.next_slot) (entry_to_bytes crc e) s.file i (
          omega (
            arith,
            length-entry_to_bytes crc e payload,
            leb-false→lt max_journal_entries s.journal.next_slot free,
          )) in
        rw (free, write_entry)
          (after_keeps (λ (t : JournalFile). t.file.at i ≡ s.file.at i)
            (write_bytes (slot_offset s.journal.next_slot) (entry_to_bytes crc e) s.file).0
            (record s {
              file =
                  (write_bytes (slot_offset s.journal.next_slot) (entry_to_bytes crc e) s.file).1;
            })
            _ at_ (λ _. at-write_header _ ∙ at_))
  ]

  at-zero_slots :
      (count offset : ℕ) (f : File)
      → (i < offset) ⊎ (offset + count * 512 ≤ i)
      → (zero_slots count offset f).1.at i ≡ f.at i
  unfolding zero_slots
  at-zero_slots zero offset f h = refl
  at-zero_slots (suc count) offset f h =
      after_keeps (λ (g : File). g.at i ≡ f.at i) (write_bytes offset (replicate 512 0) f).0
        (write_bytes offset (replicate 512 0) f).1 (λ _. zero_slots count (offset + 512))
        (at-write_bytes offset (replicate 512 0) f i (omega arith))
        (λ _.
          at-zero_slots count (offset + 512) (write_bytes offset (replicate 512 0) f).1
            (omega arith)
          ∙ at-write_bytes offset (replicate 512 0) f i (omega arith))

  -- Whether or not its writes succeed.
  pub at-clear : (s : JournalFile) → (clear crc s).1.file.at i ≡ s.file.at i
  unfolding clear
  at-clear s =
      let empty : JournalFile = record s {
        journal = record { header = record s.journal.header { entry_count = 0 }; next_slot = 0 };
      } in
      after_keeps (λ (t : JournalFile). t.file.at i ≡ s.file.at i) (write_header crc empty).0
        (write_header crc empty).1 _ (at-write_header empty)
        (λ _.
          at-zero_slots max_journal_entries (slot_offset 0) (write_header crc empty).1.file
            (omega arith)
          ∙ at-write_header empty)

  pub at-format : (f : File) → (format crc f).1.at i ≡ f.at i
  unfolding format
  at-format f =
      let header = header_to_bytes crc new_header in
      let first =
        at-write_bytes journal_offset header f i
          (omega (arith, length-header_to_bytes crc new_header)) in
      let f1 = (write_bytes journal_offset header f).1 in
      let zeroed = at-zero_slots max_journal_entries (slot_offset 0) f1 (omega arith) ∙ first in
      let P : File → Type 0 = λ g. g.at i ≡ f.at i in
      after_keeps P (write_bytes journal_offset header f).0 f1 _ first (λ _.
        after_keeps P (zero_slots max_journal_entries (slot_offset 0) f1).0
          (zero_slots max_journal_entries (slot_offset 0) f1).1 _ zeroed (λ _. zeroed))

  at-write_chunks :
      (fuel tx offset count : ℕ) (bytes : List ℕ) (s : JournalFile)
      → (write_chunks crc fuel tx offset count bytes s).1.file.at i ≡ s.file.at i
  unfolding write_chunks log_data_write_chunk
  at-write_chunks fuel tx offset count [] s = refl
  at-write_chunks zero tx offset count (b ∷ bs) s = refl
  at-write_chunks (suc fuel) tx offset count (b ∷ bs) s =
      let chunk = take journal_payload_size (b ∷ bs) in
      let e = entry_of entry_write_data tx offset chunk in
      let short : length chunk ≤ journal_payload_size =
        omega (arith, length-take journal_payload_size (b ∷ bs)) in
      let fits : leb (length chunk) journal_payload_size ≡ true = le→leb _ _ short in
      let logged = at-write_entry e s (length-payload chunk short) in
      rw fits (
        after_keeps (λ (t : JournalFile). t.file.at i ≡ s.file.at i) (write_entry crc e s).0
          (write_entry crc e s).1
          (λ _.
            write_chunks crc fuel tx (add_u64 offset (length chunk)) (count + 1)
              (drop journal_payload_size (b ∷ bs)))
          logged
          (λ _.
            at-write_chunks fuel tx (add_u64 offset (length chunk)) (count + 1)
              (drop journal_payload_size (b ∷ bs)) (write_entry crc e s).1
            ∙ logged))

  pub at-log_data_write_all :
      (tx offset : ℕ) (bytes : List ℕ) (s : JournalFile)
      → (log_data_write_all crc tx offset bytes s).1.file.at i ≡ s.file.at i
  unfolding log_data_write_all
  at-log_data_write_all tx offset bytes s =
      ground (arith, at-write_chunks (length bytes) tx offset 0 bytes s)

  pub at-commit : (tx : ℕ) (s : JournalFile) → (commit crc tx s).1.file.at i ≡ s.file.at i
  unfolding commit
  at-commit tx s = at-write_entry (entry_of entry_commit tx 0 []) s refl
