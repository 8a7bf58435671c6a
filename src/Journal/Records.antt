-- ===== src/Journal/Records.antt =====
-- src/fs/journal.rs: the header and the entries on disk.
use vexfs.Base.{
  ℕ, ◌-◌, ◌+◌, ◌*◌, ◌/◌, ◌%◌, ◌^◌, ◌<◌, ◌≡◌, List, ◌∷◌, ◌++◌, Bool, ◌==◌, if◌then◌else◌, take,
  replicate, get_or, length, take_of_length-le, min, IsU32, IsU64, arith,
}
use vexfs.Base.Bytes.{
  u32_to_le, u64_to_le, le_to_u32, le_to_u64, slice, le_to_u32-u32_to_le, le_to_u64-u64_to_le,
}
use vexfs.Disk.Result.{DiskResult, ok, verify_crc32, ◌>>◌}

abbrev pub journal_header_size : ℕ
journal_header_size = 64

abbrev pub journal_entry_size : ℕ
journal_entry_size = 512

abbrev pub journal_payload_size : ℕ
journal_payload_size = 490

abbrev pub journal_magic : ℕ
journal_magic = 0x4A524E4C00000001

abbrev pub entry_free : ℕ
entry_free = 0

abbrev pub entry_write_inode : ℕ
entry_write_inode = 1

abbrev pub entry_write_data : ℕ
entry_write_data = 2

abbrev pub entry_commit : ℕ
entry_commit = 4

abbrev pub state_written : ℕ
state_written = 1

pub record JournalHeader : Type 0 where
  pub magic : ℕ
  pub version : ℕ
  pub next_tx_id : ℕ
  pub entry_count : ℕ

abbrev pub new_header : JournalHeader
new_header = record { magic = journal_magic; version = 1; next_tx_id = 1; entry_count = 0 }

unfoldable pub header_is_valid : JournalHeader → Bool
header_is_valid h = h.magic == journal_magic

-- The bytes 0..20, which the checksum covers.
unfoldable pub header_fields : JournalHeader → List ℕ
unfolding u32_to_le u64_to_le
header_fields h =
    u64_to_le h.magic
    ++ (u32_to_le h.version ++ (u32_to_le h.next_tx_id ++ u32_to_le h.entry_count))

pub record JournalEntry : Type 0 where
  pub entry_type : ℕ
  pub state : ℕ
  pub tx_id : ℕ
  pub payload_len : ℕ
  pub disk_offset : ℕ
  pub payload : List ℕ

unfoldable pub is_free : JournalEntry → Bool
is_free e = e.entry_type == entry_free

-- The bytes 0..18: the offset as its low word, then its high word.
unfoldable pub entry_head : JournalEntry → List ℕ
unfolding u32_to_le
entry_head e =
    e.entry_type
    ∷ e.state
    ∷ (u32_to_le e.tx_id
        ++ (u32_to_le e.payload_len
            ++ (u32_to_le (e.disk_offset % 2 ^ 32) ++ u32_to_le (e.disk_offset / 2 ^ 32))))

-- Every field fits its width on disk.
pub record HeaderFits (h : JournalHeader) : Type 0 where
  pub magic : IsU64 h.magic
  pub version : IsU32 h.version
  pub next_tx_id : IsU32 h.next_tx_id
  pub entry_count : IsU32 h.entry_count

pub record EntryFits (e : JournalEntry) : Type 0 where
  pub tx_id : IsU32 e.tx_id
  pub payload_len : IsU32 e.payload_len
  pub disk_offset : IsU64 e.disk_offset
  pub payload : length e.payload ≡ journal_payload_size

module _ (crc : List ℕ → ℕ) where
  unfoldable pub header_to_bytes : JournalHeader → List ℕ
  unfolding header_fields
  header_to_bytes h = header_fields h ++ (u32_to_le (crc (header_fields h)) ++ replicate 40 0)

  unfoldable pub header_from_bytes : List ℕ → DiskResult JournalHeader
  unfolding verify_crc32
  header_from_bytes b =
      let stored = le_to_u32 (slice 20 24 b) in
      do
        verify_crc32 crc (take 20 b) stored
        ok (record {
          magic = le_to_u64 (slice 0 8 b);
          version = le_to_u32 (slice 8 12 b);
          next_tx_id = le_to_u32 (slice 12 16 b);
          entry_count = le_to_u32 (slice 16 20 b);
        })

  -- What the checksum of an entry covers.
  abbrev pub entry_covered : JournalEntry → List ℕ
  entry_covered e = entry_head e ++ take (min e.payload_len journal_payload_size) e.payload

  unfoldable pub entry_to_bytes : JournalEntry → List ℕ
  unfolding entry_head
  entry_to_bytes e = entry_head e ++ (u32_to_le (crc (entry_covered e)) ++ e.payload)

  -- The fields are read first; only an entry that is not free has its checksum verified.
  unfoldable pub entry_fields : List ℕ → JournalEntry
  entry_fields b = record {
    entry_type = get_or b 0 0;
    state = get_or b 1 0;
    tx_id = le_to_u32 (slice 2 6 b);
    payload_len = le_to_u32 (slice 6 10 b);
    disk_offset = le_to_u32 (slice 14 18 b) * 2 ^ 32 + le_to_u32 (slice 10 14 b);
    payload = slice 22 512 b;
  }

  -- The checksum test, for the fields `e` of the bytes `b`.
  unfoldable pub check_entry : List ℕ → JournalEntry → DiskResult JournalEntry
  unfolding verify_crc32
  check_entry b e =
      let plen = min e.payload_len journal_payload_size in
      if e.entry_type == entry_free then ok e else do
        verify_crc32 crc (take 18 b ++ slice 22 (22 + plen) b) (le_to_u32 (slice 18 22 b))
        ok e

  unfoldable pub entry_from_bytes : List ℕ → DiskResult JournalEntry
  entry_from_bytes b = check_entry b (entry_fields b)

  -- A header that is written and read back is the same header.
  pub header_round_trip :
      (h : JournalHeader)
      → HeaderFits h
      → crc (header_fields h) < 2 ^ 32
      → header_from_bytes (header_to_bytes h) ≡ ok h
  unfolding header_to_bytes header_from_bytes
  header_round_trip h f bound = ground (
    arith,
    le_to_u32-u32_to_le (crc (header_fields h)) bound,
    le_to_u64-u64_to_le h.magic f.magic,
    le_to_u32-u32_to_le h.version f.version,
    le_to_u32-u32_to_le h.next_tx_id f.next_tx_id,
    le_to_u32-u32_to_le h.entry_count f.entry_count,
  )

  entry_fields-entry_to_bytes :
      (e : JournalEntry) → EntryFits e → entry_fields (entry_to_bytes e) ≡ e
  unfolding entry_fields entry_to_bytes
  entry_fields-entry_to_bytes e f = rw (take_of_length-le 490 e.payload (omega arith)) (
      ground (
        arith,
        le_to_u32-u32_to_le e.tx_id f.tx_id,
        le_to_u32-u32_to_le e.payload_len f.payload_len,
        le_to_u32-u32_to_le (e.disk_offset % 2 ^ 32) (omega arith),
        le_to_u32-u32_to_le (e.disk_offset / 2 ^ 32) (omega arith),
      ))

  entry_covered-entry_to_bytes :
      (e : JournalEntry) (n : ℕ)
      → take 18 (entry_to_bytes e) ++ slice 22 (22 + n) (entry_to_bytes e)
        ≡ entry_head e ++ take n e.payload
  unfolding entry_to_bytes
  entry_covered-entry_to_bytes e n = let same : 22 + n - 22 ≡ n = omega arith in rw same

  stored-entry_to_bytes :
      (e : JournalEntry)
      → crc (entry_covered e) < 2 ^ 32
      → le_to_u32 (slice 18 22 (entry_to_bytes e)) ≡ crc (entry_covered e)
  unfolding entry_to_bytes
  stored-entry_to_bytes e bound = le_to_u32-u32_to_le (crc (entry_covered e)) bound

  check_entry_ok :
      (b : List ℕ) (e : JournalEntry) (covered : List ℕ)
      → take 18 b ++ slice 22 (22 + min e.payload_len journal_payload_size) b ≡ covered
      → le_to_u32 (slice 18 22 b) ≡ crc covered
      → check_entry b e ≡ ok e
  unfolding check_entry
  check_entry_ok b e covered cov sum = rw (cov, sum) (ground arith)

  entry_from_bytes_checked :
      (b : List ℕ) (e : JournalEntry) (covered : List ℕ)
      → entry_fields b ≡ e
      → take 18 b ++ slice 22 (22 + min e.payload_len journal_payload_size) b ≡ covered
      → le_to_u32 (slice 18 22 b) ≡ crc covered
      → entry_from_bytes b ≡ ok e
  unfolding entry_from_bytes
  entry_from_bytes_checked b e covered same cov sum = rw same (check_entry_ok b e covered cov sum)

  -- An entry that is written and read back is the same entry, offsets above 4 GB included.
  pub entry_round_trip :
      (e : JournalEntry)
      → EntryFits e
      → crc (entry_covered e) < 2 ^ 32
      → entry_from_bytes (entry_to_bytes e) ≡ ok e
  entry_round_trip e f bound =
      entry_from_bytes_checked (entry_to_bytes e) e (entry_covered e)
        (entry_fields-entry_to_bytes e f) (entry_covered-entry_to_bytes e _)
        (stored-entry_to_bytes e bound)
