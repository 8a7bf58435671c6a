-- ===== src/Journal/Slots.antt =====
-- src/fs/journal.rs: the slots on disk as a list of entries.
use vexfs.Base.{
  ℕ, ◌+◌, ◌-◌, ◌%◌, ◌^◌, ◌≤◌, ◌<◌, ◌≡◌, ◌≢◌, refl, List, none, some, false, leb, length, get_elem?,
  max, arith,
}
use vexfs.Disk.Result.{ok}
use vexfs.File.{File, overwrite, bytes_at, write_bytes}
use vexfs.Journal.{
  Journal, JournalFile, journal_offset, max_journal_entries, slot_offset, used_entry, valid_header,
  write_entry, write_header,
}
use vexfs.Journal.Records.{
  JournalHeader, JournalEntry, HeaderFits, EntryFits, header_to_bytes, entry_to_bytes,
  header_is_valid, is_free, journal_magic, journal_payload_size, header_round_trip,
  entry_round_trip, entry_free, header_fields, entry_covered,
}

-- The file after a write that succeeds.
abbrev pub written : ℕ → List ℕ → File → File
written offset bytes f = record f {
  size = max f.size (offset + length bytes);
  at = overwrite f.at offset bytes;
  budget = f.budget - 1;
}

pub write_bytes_ok :
    (offset : ℕ) (bytes : List ℕ) (f : File)
    → 0 < length bytes
    → 0 < f.budget
    → write_bytes offset bytes f ≡ (ok tt, written offset bytes f)
unfolding write_bytes
write_bytes_ok offset bytes f some_bytes allowed = ground arith

abbrev pub slot : File → ℕ → List ℕ
slot f i = bytes_at f.at (slot_offset i) 512

abbrev pub header_bytes : File → List ℕ
header_bytes f = bytes_at f.at journal_offset 64

-- The journal region holds the entries `es`, in order, from slot 0, and free slots behind them.
module _ (crc : List ℕ → ℕ) where
  pub record IsLogged (s : JournalFile) (es : List JournalEntry) : Type 0 where
    pub next : s.journal.next_slot ≡ length es
    pub within : length es ≤ max_journal_entries
    pub used :
        (i : ℕ) (e : JournalEntry)
        → get_elem? es i ≡ some e
        → used_entry crc (slot s.file i) ≡ some e
    pub unused :
        (i : ℕ) → length es ≤ i → i < max_journal_entries → used_entry crc (slot s.file i) ≡ none
    pub disk_header : JournalHeader
    pub header : valid_header crc (header_bytes s.file) ≡ some disk_header
    pub fits : HeaderFits s.journal.header
    pub magic : s.journal.header.magic ≡ journal_magic
    pub room : slot_offset max_journal_entries ≤ s.file.size

  module _ (word : (bytes : List ℕ) → crc bytes < 2 ^ 32) where
    pub used_entry-entry_to_bytes :
        (e : JournalEntry)
        → EntryFits e
        → e.entry_type ≢ entry_free
        → used_entry crc (entry_to_bytes crc e) ≡ some e
    unfolding used_entry is_free
    used_entry-entry_to_bytes e f busy =
        rw (entry_round_trip crc e f (word (entry_covered crc e)), used_entry) (ground arith)

    pub valid_header-header_to_bytes :
        (h : JournalHeader)
        → HeaderFits h
        → h.magic ≡ journal_magic
        → valid_header crc (header_to_bytes crc h) ≡ some h
    unfolding valid_header header_is_valid
    valid_header-header_to_bytes h f m =
        rw (header_round_trip crc h f (word (header_fields h)), valid_header) (ground arith)

pub length-entry_to_bytes :
    (crc : List ℕ → ℕ) (e : JournalEntry)
    → length e.payload ≡ journal_payload_size
    → length (entry_to_bytes crc e) ≡ 512
unfolding entry_to_bytes
length-entry_to_bytes crc e h = omega arith

pub length-header_to_bytes :
    (crc : List ℕ → ℕ) (h : JournalHeader) → length (header_to_bytes crc h) ≡ 64
unfolding header_to_bytes
length-header_to_bytes crc h = refl

-- The header and the journal after an entry is appended.
abbrev pub counted : Journal → Journal
counted j = record {
  header = record j.header { entry_count = (j.next_slot + 1) % 2 ^ 32 };
  next_slot = j.next_slot + 1;
}

module _ (crc : List ℕ → ℕ) where
  abbrev pub appended : JournalEntry → JournalFile → JournalFile
  appended e s = record {
    journal = counted s.journal;
    file =
        written journal_offset (header_to_bytes crc (counted s.journal).header)
          (written (slot_offset s.journal.next_slot) (entry_to_bytes crc e) s.file);
  }

  pub write_entry-appended :
      (e : JournalEntry) (s : JournalFile)
      → s.journal.next_slot < max_journal_entries
      → length e.payload ≡ journal_payload_size
      → 2 ≤ s.file.budget
      → write_entry crc e s ≡ (ok tt, appended e s)
  unfolding write_entry write_header
  write_entry-appended e s free payload budget =
      let room : leb max_journal_entries s.journal.next_slot ≡ false = ground arith in
      let first =
        write_bytes_ok (slot_offset s.journal.next_slot) (entry_to_bytes crc e) s.file
          (omega (arith, length-entry_to_bytes crc e payload)) (omega arith) in
      let file' = written (slot_offset s.journal.next_slot) (entry_to_bytes crc e) s.file in
      let second =
        write_bytes_ok journal_offset (header_to_bytes crc (counted s.journal).header) file'
          (omega (arith, length-header_to_bytes crc (counted s.journal).header)) (omega arith) in
      rw (room, write_entry, first, second)
