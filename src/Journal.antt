-- ===== src/Journal.antt =====
-- src/fs/journal.rs: the write-ahead journal. Its records are in Journal/Records.
pub mod Records
pub mod Slots
pub mod Append
pub mod Recovery
pub mod Format
pub mod Split
pub mod Crash
pub mod Prefix
pub mod Replay
pub mod Atomic
pub mod Region
mod Runs
use vexfs.Base.{
  add_u64, ℕ, zero, suc, ◌+◌, ◌-◌, ◌*◌, ◌/◌, ◌%◌, ◌^◌, List, [], ◌∷◌, ◌++◌, Option, none, some,
  Bool, true, false, not, ◌&&◌, ◌||◌, ltb, leb, ◌==◌, if◌then◌else◌, length, take, drop, replicate,
  min,
}
use vexfs.Base.Map.{member}
use vexfs.Disk.Result.{DiskResult, ok, err, panic, io}
use vexfs.File.{File, Exec, after, ◌>>=◌, ◌>>◌, pure, write_bytes, read_bytes}
use Records.{
  JournalHeader, JournalEntry, new_header, header_to_bytes, header_from_bytes, header_is_valid,
  entry_to_bytes, entry_from_bytes, is_free, journal_header_size, journal_entry_size,
  journal_payload_size, entry_write_inode, entry_write_data, entry_commit, state_written,
}

abbrev pub journal_offset : ℕ
journal_offset = 4096 + 1024 * 256 + 256 * 512

abbrev pub max_journal_entries : ℕ
max_journal_entries = 512

pub record Journal : Type 0 where
  pub header : JournalHeader
  pub next_slot : ℕ

-- A method borrows the journal and the file.
pub record JournalFile : Type 0 where
  pub journal : Journal
  pub file : File

-- The byte offset of a slot.
abbrev pub slot_offset : ℕ → ℕ
slot_offset i = journal_offset + journal_header_size + i * journal_entry_size

abbrev pub on_file : {A : Type 0} → Exec File A → Exec JournalFile A
on_file m s = let (r, f) = m s.file in (r, record s { file = f })

-- `count` zeroed entries, one `write_all` behind the other.
unfoldable pub zero_slots : ℕ → ℕ → Exec File (Unit {0})
zero_slots zero offset f = (ok tt, f)
zero_slots (suc count) offset f =
    (do
      write_bytes offset (replicate journal_entry_size 0)
      zero_slots count (offset + journal_entry_size))
      f

-- The transactions with a commit entry.
unfoldable pub committed_txs : List JournalEntry → List ℕ
committed_txs [] = []
committed_txs (e ∷ es) =
    if e.entry_type == entry_commit && e.state == state_written
    then e.tx_id ∷ committed_txs es
    else committed_txs es

unfoldable pub replays : List ℕ → JournalEntry → Bool
replays txs e =
    member e.tx_id txs
    && (e.state == state_written
        && (e.entry_type == entry_write_inode || e.entry_type == entry_write_data))

unfoldable pub select : List ℕ → List JournalEntry → List JournalEntry
select txs [] = []
select txs (e ∷ es) = if replays txs e then e ∷ select txs es else select txs es

unfoldable pub to_replay : List JournalEntry → List JournalEntry
to_replay es = select (committed_txs es) es

-- An entry in state written, its payload padded with zeroes.
abbrev pub entry_of : ℕ → ℕ → ℕ → List ℕ → JournalEntry
entry_of entry_type tx_id disk_offset bytes = record {
  entry_type = entry_type;
  state = state_written;
  tx_id = tx_id;
  payload_len = length bytes;
  disk_offset = disk_offset;
  payload = bytes ++ replicate (journal_payload_size - length bytes) 0;
}

-- `data.len().div_ceil(JOURNAL_PAYLOAD_SIZE)`.
abbrev pub chunks_needed : List ℕ → ℕ
chunks_needed bytes = (length bytes + 489) / journal_payload_size

module _ (crc : List ℕ → ℕ) where
  unfoldable pub format : File → DiskResult Journal × File
  format = do
    write_bytes journal_offset (header_to_bytes crc new_header)
    zero_slots max_journal_entries (slot_offset 0)
    pure (record { header = new_header; next_slot = 0 })

  -- The entry that a slot's bytes hold, unless they are corrupt or free.
  unfoldable pub used_entry : List ℕ → Option JournalEntry
  used_entry bytes = elim (entry_from_bytes crc bytes) [
    | ok e ↦ if is_free e then none else some e
    | err _ ↦ none
    | panic ↦ none
  ]

  -- The loop of `open` over the slots `i`, `i + 1`, …: the entries, and `next_slot`.
  unfoldable pub scan : ℕ → ℕ → ℕ → File → DiskResult (List JournalEntry × ℕ)
  scan zero i next_slot f = ok ([], next_slot)
  scan (suc count) i next_slot f = elim (read_bytes (slot_offset i) journal_entry_size f) [
    | ok bytes ↦ elim (used_entry bytes) [
      | some e ↦ elim (scan count (i + 1) (i + 1) f) [
        | ok (es, next) ↦ ok (e ∷ es, next)
        | err x ↦ err x
        | panic ↦ panic
      ]
      | none ↦ ok ([], (if next_slot == 0 then i else next_slot))
    ]
    | err x ↦ err x
    | panic ↦ panic
  ]

  -- `Ok(h) if h.is_valid()`.
  unfoldable pub valid_header : List ℕ → Option JournalHeader
  valid_header bytes = elim (header_from_bytes crc bytes) [
    | ok h ↦ if header_is_valid h then some h else none
    | err _ ↦ none
    | panic ↦ none
  ]

  unfoldable pub open_journal : File → DiskResult (Journal × List JournalEntry)
  open_journal f = elim (read_bytes journal_offset journal_header_size f) [
    | ok bytes ↦ elim (valid_header bytes) [
      | none ↦ ok (record { header = new_header; next_slot = 0 }, [])
      | some h ↦ elim (scan max_journal_entries 0 0 f) [
        | ok (es, next) ↦ ok (record { header = h; next_slot = next }, to_replay es)
        | err x ↦ err x
        | panic ↦ panic
      ]
    ]
    | err x ↦ err x
    | panic ↦ panic
  ]

  unfoldable pub begin_tx : Exec JournalFile ℕ
  begin_tx s =
      let id = s.journal.header.next_tx_id in
      (
        ok id,
        record s {
          journal = record s.journal {
            header = record s.journal.header { next_tx_id = (id + 1) % 2 ^ 32 };
          };
        },
      )

  unfoldable pub write_header : Exec JournalFile (Unit {0})
  write_header s = on_file (write_bytes journal_offset (header_to_bytes crc s.journal.header)) s

  -- The slot is taken, and the header counts it.
  abbrev pub take_slot : Exec JournalFile (Unit {0})
  take_slot s =
      let next = s.journal.next_slot + 1 in
      (
        ok tt,
        record s {
          journal = record {
            header = record s.journal.header { entry_count = next % 2 ^ 32 };
            next_slot = next;
          };
        },
      )

  unfoldable pub write_entry : JournalEntry → Exec JournalFile (Unit {0})
  write_entry e s =
      if leb max_journal_entries s.journal.next_slot
      then (err io, s)
      else (do
        on_file (write_bytes (slot_offset s.journal.next_slot) (entry_to_bytes crc e))
        take_slot
        write_header)
          s

  -- `log_inode_write_at`; `log_inode_write` is the same with a slot index for the offset. Both
  -- assert that the bytes fit.
  unfoldable pub log_inode_write_at : ℕ → ℕ → List ℕ → Exec JournalFile (Unit {0})
  log_inode_write_at tx_id disk_offset bytes s =
      if leb (length bytes) journal_payload_size
      then write_entry (entry_of entry_write_inode tx_id disk_offset bytes) s
      else (panic, s)

  -- A longer chunk is out of the payload's range.
  unfoldable pub log_data_write_chunk : ℕ → ℕ → List ℕ → Exec JournalFile (Unit {0})
  log_data_write_chunk tx_id disk_offset chunk s =
      if leb (length chunk) journal_payload_size
      then write_entry (entry_of entry_write_data tx_id disk_offset chunk) s
      else (panic, s)

  -- The loop over `data.chunks(JOURNAL_PAYLOAD_SIZE)`; each round takes a byte at least.
  unfoldable pub write_chunks : ℕ → ℕ → ℕ → ℕ → List ℕ → Exec JournalFile ℕ
  write_chunks fuel tx_id offset written [] s = (ok written, s)
  write_chunks zero tx_id offset written (b ∷ bs) s = (panic, s)
  write_chunks (suc fuel) tx_id offset written (b ∷ bs) s =
      let chunk = take journal_payload_size (b ∷ bs) in
      (do
        log_data_write_chunk tx_id offset chunk
        write_chunks fuel tx_id (add_u64 offset (length chunk)) (written + 1)
            (drop journal_payload_size (b ∷ bs)))
        s

  unfoldable pub log_data_write_all : ℕ → ℕ → List ℕ → Exec JournalFile ℕ
  log_data_write_all tx_id disk_offset bytes s =
      if length bytes == 0
      then (ok 0, s)
      else if ltb (max_journal_entries - s.journal.next_slot) (chunks_needed bytes + 1)
      then (err io, s)
      else write_chunks (length bytes) tx_id disk_offset 0 bytes s

  -- A release build cuts the data to one payload.
  unfoldable pub log_data_write : ℕ → ℕ → List ℕ → Exec JournalFile (Unit {0})
  log_data_write tx_id disk_offset bytes =
      log_data_write_chunk tx_id disk_offset (take journal_payload_size bytes)

  unfoldable pub commit : ℕ → Exec JournalFile (Unit {0})
  commit tx_id = write_entry (entry_of entry_commit tx_id 0 [])

  abbrev pub reset : Exec JournalFile (Unit {0})
  reset s = (
    ok tt,
    record s {
      journal = record { header = record s.journal.header { entry_count = 0 }; next_slot = 0 };
    },
  )

  unfoldable pub clear : Exec JournalFile (Unit {0})
  clear = do reset; write_header; on_file (zero_slots max_journal_entries (slot_offset 0))

unfoldable pub needs_checkpoint : Journal → Bool
needs_checkpoint j = leb (max_journal_entries - 16) j.next_slot
