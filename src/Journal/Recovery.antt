-- ===== src/Journal/Recovery.antt =====
-- src/fs/journal.rs: about `open`, which scans the entries and selects the committed ones.
use vexfs.Base.{
  ℕ, zero, suc, ◌+◌, ◌≤◌, ◌<◌, ◌≡◌, refl, ◌∙◌, List, [], ◌∷◌, none, some, true, leb, ◌==◌,
  if◌then◌else◌, length, get_elem?, arith,
}
use native.Mathlib.Nat.{zero-add}
use vexfs.Disk.Result.{ok}
use vexfs.File.{File, read_bytes}
use vexfs.Journal.{
  JournalFile, journal_offset, max_journal_entries, slot_offset, used_entry, valid_header, scan,
  to_replay, open_journal,
}
use vexfs.Journal.Records.{JournalHeader, JournalEntry}
use vexfs.Journal.Slots.{slot, header_bytes, IsLogged}

read_slot :
    (f : File) (i : ℕ)
    → i < max_journal_entries
    → slot_offset max_journal_entries ≤ f.size
    → read_bytes (slot_offset i) 512 f ≡ ok (slot f i)
unfolding read_bytes
read_slot f i lt room =
    let inside : leb (slot_offset i + 512) f.size ≡ true = ground arith in rw inside

module _ (crc : List ℕ → ℕ) (f : File) (room : slot_offset max_journal_entries ≤ f.size) where
  scan_used :
      (count i next : ℕ) (e : JournalEntry) (es : List JournalEntry) (end : ℕ)
      → i < max_journal_entries
      → used_entry crc (slot f i) ≡ some e
      → scan crc count (i + 1) (i + 1) f ≡ ok (es, end)
      → scan crc (suc count) i next f ≡ ok (e ∷ es, end)
  unfolding scan
  scan_used count i next e es end lt here rest = rw (read_slot f i lt room, scan, here, rest)

  scan_unused :
      (count i next : ℕ)
      → i < max_journal_entries
      → used_entry crc (slot f i) ≡ none
      → scan crc (suc count) i next f ≡ ok ([], (if next == 0 then i else next))
  unfolding scan
  scan_unused count i next lt here = rw (read_slot f i lt room, scan, here)

  -- From slot `i` on, the scan finds the entries `es` that stand there.
  scan-entries :
      (es : List JournalEntry) (count i next : ℕ)
      → i + count ≡ max_journal_entries
      → length es ≤ count
      → (next ≡ i)
      → ((j : ℕ) (e : JournalEntry)
          → get_elem? es j ≡ some e
          → used_entry crc (slot f (i + j)) ≡ some e)
      → ((j : ℕ) → length es ≤ j → j < count → used_entry crc (slot f (i + j)) ≡ none)
      → scan crc count i next f ≡ ok (es, i + length es)
  unfolding scan
  scan-entries [] zero i next total fits same used unused =
      let end : next ≡ i + 0 = omega arith in rw end
  scan-entries [] (suc count) i next total fits same used unused =
      let end : (if next == 0 then i else next) ≡ i + 0 = ground arith in
      let here : used_entry crc (slot f i) ≡ none =
        (let start : i ≡ i + 0 = omega arith in rw start (unused 0 (omega arith) (omega arith))) in
      scan_unused count i next (omega arith) here ∙ rw end
  scan-entries (e ∷ es) zero i next total fits same used unused = absurd (omega arith)
  scan-entries (e ∷ es) (suc count) i next total fits same used unused =
      let here : used_entry crc (slot f i) ≡ some e =
        (let start : i ≡ i + 0 = omega arith in rw start (used 0 e refl)) in
      let end : i + 1 + length es ≡ i + suc (length es) = omega arith in
      let rest =
        scan-entries es count (i + 1) (i + 1) (omega arith) (omega arith) refl
          (λ j x at.
            let shift : i + 1 + j ≡ i + suc j = omega arith in rw shift (used (suc j) x at))
          (λ j lo hi.
            let shift : i + 1 + j ≡ i + suc j = omega arith in
            rw shift (unused (suc j) (omega arith) (omega arith))) in
      scan_used count i next e es (i + suc (length es)) (omega arith) here (rw end at rest)

module _ (crc : List ℕ → ℕ) where
  open_found :
      (f : File) (h : JournalHeader) (es : List JournalEntry) (next : ℕ)
      → read_bytes journal_offset 64 f ≡ ok (header_bytes f)
      → valid_header crc (header_bytes f) ≡ some h
      → scan crc max_journal_entries 0 0 f ≡ ok (es, next)
      → open_journal crc f ≡ ok (record { header = h; next_slot = next }, to_replay es)
  unfolding open_journal
  open_found f h es next readable valid found = rw (readable, open_journal, valid, found)

  read_header :
      (f : File)
      → slot_offset max_journal_entries ≤ f.size
      → read_bytes journal_offset 64 f ≡ ok (header_bytes f)
  unfolding read_bytes
  read_header f room =
      let inside : leb (journal_offset + 64) f.size ≡ true = ground arith in rw inside

  -- Opening a file whose journal holds the entries `es` finds the header on disk, the next slot
  -- behind them, and hands out the inode and data writes of the transactions with a commit entry,
  -- in order.
  pub open_journal-IsLogged :
      (s : JournalFile) (es : List JournalEntry) (g : IsLogged crc s es)
      → open_journal crc s.file
        ≡ ok (record { header = g.disk_header; next_slot = length es }, to_replay es)
  open_journal-IsLogged s es g =
      let found =
        scan-entries crc s.file g.room es max_journal_entries 0 0 refl g.within refl
          (λ j e at. rw zero-add (g.used j e at)) (λ j lo hi. rw zero-add (g.unused j lo hi)) in
      open_found s.file g.disk_header es (length es) (read_header s.file g.room) g.header
        (rw zero-add at found)
