-- ===== src/Journal/Crash.antt =====
-- src/fs/journal.rs: `write_entry` and `log_data_write_all` with writes that fail.
use vexfs.Base.{
  ℕ, ◌^◌, ◌<◌, ◌≡◌, ◌≢◌, inl, inr, List, [], ◌∷◌, ◌++◌, false, leb, length, length-append, arith,
}
use vexfs.Disk.Result.{err, io}
use vexfs.File.{File, write_bytes}
use vexfs.File.Ranges.{bytes_at-overwrite_apart, bytes_at-overwrite}
use vexfs.Journal.{
  JournalFile, journal_offset, max_journal_entries, slot_offset, write_entry, write_header,
}
use vexfs.Journal.Records.{
  JournalEntry, EntryFits, header_to_bytes, entry_to_bytes, journal_payload_size, entry_free,
}
use vexfs.Journal.Slots.{
  written, write_bytes_ok, IsLogged, used_entry-entry_to_bytes, counted, length-entry_to_bytes,
  length-header_to_bytes,
}
use vexfs.Journal.Append.{HeaderFits-counted, get_elem?-append}

pub write_bytes_cut :
    (offset : ℕ) (bytes : List ℕ) (f : File)
    → 0 < length bytes
    → f.budget ≡ 0
    → write_bytes offset bytes f ≡ (err io, f)
unfolding write_bytes
write_bytes_cut offset bytes f some_bytes cut = ground arith

module _ (crc : List ℕ → ℕ) where
  -- The entry is on disk, the header is the old one.
  abbrev pub cut_short : JournalEntry → JournalFile → JournalFile
  cut_short e s = record {
    journal = counted s.journal;
    file = written (slot_offset s.journal.next_slot) (entry_to_bytes crc e) s.file;
  }

  pub write_entry-no_write :
      (e : JournalEntry) (s : JournalFile)
      → s.journal.next_slot < max_journal_entries
      → length e.payload ≡ journal_payload_size
      → s.file.budget ≡ 0
      → write_entry crc e s ≡ (err io, s)
  unfolding write_entry
  write_entry-no_write e s free payload cut =
      let room : leb max_journal_entries s.journal.next_slot ≡ false = ground arith in
      let first =
        write_bytes_cut (slot_offset s.journal.next_slot) (entry_to_bytes crc e) s.file
          (omega (arith, length-entry_to_bytes crc e payload)) cut in
      rw (room, write_entry, first)

  pub write_entry-cut_short :
      (e : JournalEntry) (s : JournalFile)
      → s.journal.next_slot < max_journal_entries
      → length e.payload ≡ journal_payload_size
      → s.file.budget ≡ 1
      → write_entry crc e s ≡ (err io, cut_short e s)
  unfolding write_entry write_header
  write_entry-cut_short e s free payload one =
      let room : leb max_journal_entries s.journal.next_slot ≡ false = ground arith in
      let first =
        write_bytes_ok (slot_offset s.journal.next_slot) (entry_to_bytes crc e) s.file
          (omega (arith, length-entry_to_bytes crc e payload)) (omega arith) in
      let second =
        write_bytes_cut journal_offset (header_to_bytes crc (counted s.journal).header)
          (written (slot_offset s.journal.next_slot) (entry_to_bytes crc e) s.file)
          (omega (arith, length-header_to_bytes crc (counted s.journal).header)) (omega arith) in
      rw (room, write_entry, first, second)

  module _ (word : (bytes : List ℕ) → crc bytes < 2 ^ 32) where
    pub IsLogged-cut_short :
        (e : JournalEntry) (s : JournalFile) (es : List JournalEntry)
        → IsLogged crc s es
        → length es < max_journal_entries
        → EntryFits e
        → e.entry_type ≢ entry_free
        → IsLogged crc (cut_short e s) (es ++ (e ∷ []))
    IsLogged-cut_short e s es g free f busy =
        let size = length-entry_to_bytes crc e f.payload in
        let apart =
          bytes_at-overwrite_apart s.file.at (slot_offset s.journal.next_slot)
            (entry_to_bytes crc e) in
        record {
          next = omega (arith, g.next, length-append es (e ∷ []));
          within = omega (arith, length-append es (e ∷ []));
          used = λ i x at. elim (get_elem?-append es e x i at) [
            | inl (here, same) ↦
                let at_next : i ≡ s.journal.next_slot = omega (arith, g.next) in
                rw
                  (
                    at_next,
                    same,
                    bytes_at-overwrite s.file.at (slot_offset s.journal.next_slot)
                        (entry_to_bytes crc e) 512 size,
                  )
                  (used_entry-entry_to_bytes crc word e f busy)
            | inr (old, other) ↦
                rw (apart (slot_offset i) 512 (omega (arith, g.next, size))) (g.used i x old)
          ];
          unused = λ i lo hi.
              rw
                (apart (slot_offset i) 512 (omega (arith, g.next, size, length-append es (e ∷ []))))
                (g.unused i (omega (arith, length-append es (e ∷ []))) hi);
          disk_header = g.disk_header;
          header = rw (apart journal_offset 64 (inl (omega arith))) g.header;
          fits = HeaderFits-counted s.journal g.fits;
          magic = g.magic;
          room = omega (arith, g.room);
        }
