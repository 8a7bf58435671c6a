-- ===== src/DiskManager/Durable.antt =====
-- src/fs/mod.rs: `write_file_data` that is cut off at some point, then `open`.
use vexfs.Base.{
  ℕ, ◌+◌, ◌^◌, ◌≤◌, ◌<◌, ◌≡◌, ◌⊎◌, refl, ap, ◌∙◌, List, [], ◌∷◌, ◌++◌, inl, inr, All, length, take,
  length-append, IsU64, arith,
}
use vexfs.Disk.Result.{DiskResult, ok}
use vexfs.Disk.Superblock.{SuperblockRaw}
use vexfs.File.{File, overwrite}
use vexfs.File.Ranges.{overwrite_outside}
use vexfs.Journal.{Journal, entry_of, to_replay, open_journal, chunks_needed}
use vexfs.Journal.Records.{JournalEntry, entry_commit, journal_payload_size}
use vexfs.Journal.Slots.{IsLogged}
use vexfs.Journal.Recovery.{open_journal-IsLogged}
use vexfs.Journal.Replay.{Fresh}
use vexfs.Journal.Atomic.{to_replay-prefix, AllUpdates-data_entries}
use vexfs.Journal.Split.{data_entries, length-data_entries}
use vexfs.Journal.Region.{IsOutside}
use vexfs.DiskManager.{Image, data_offset, read_superblock, open_disk, write_file_data}
use vexfs.DiskManager.Write.{journal_file}
use vexfs.DiskManager.Applied.{
  applied, IsReplayable, applied_cong, applied-append, applied-data_entries,
  IsReplayable-data_entries, All-to_replay,
}
use vexfs.DiskManager.Crash.{IsLeft, write_file_data-IsLeft}
use vexfs.DiskManager.Reopen.{
  restarted, IsSettled, All-append, overwrite_twice, at-open_disk, IsLogged-restarted,
  read_superblock_cong,
}

module _ (crc : List ℕ → ℕ) where
  -- What is in the data region when an image that a write was running on is opened again.
  pub record IsDurable (run : DiskResult (Unit {0}) × Image) (budget offset : ℕ) (bytes : List ℕ)
      (s : Image) : Type 0 where
    pub all_or_none :
        ((i : ℕ)
          → data_offset ≤ i
          → (open_disk crc (restarted budget run.1.file)).1.at i
            ≡ overwrite s.file.at offset bytes i)
        ⊎ ((i : ℕ)
            → data_offset ≤ i
            → (open_disk crc (restarted budget run.1.file)).1.at i ≡ s.file.at i)
    pub durable :
        run.0 ≡ ok tt
        → (i : ℕ) → data_offset ≤ i
        → (open_disk crc (restarted budget run.1.file)).1.at i ≡ overwrite s.file.at offset bytes i

  module _ (tx offset : ℕ) (bytes : List ℕ) (s : Image) (es : List JournalEntry) (f : File)
      (sb : SuperblockRaw) (j : Journal) (super : read_superblock crc f ≡ ok sb)
      (fits : All (λ e. e.payload_len ≤ journal_payload_size) es)
      (settled : IsSettled es s.file.at) where
    -- All entries of the write are there.
    reopened_whole :
        open_journal crc f ≡ ok (j, to_replay es ++ data_entries (length bytes) tx offset bytes)
        → length es + chunks_needed bytes ≤ f.budget
        → ((i : ℕ)
            → data_offset ≤ i
            → (i < offset) ⊎ (offset + length bytes ≤ i)
            → f.at i ≡ s.file.at i)
        → (i : ℕ) → data_offset ≤ i
        → (open_disk crc f).1.at i ≡ overwrite s.file.at offset bytes i
    reopened_whole found budget same i out =
        let ds = data_entries (length bytes) tx offset bytes in
        let old = to_replay es in
        let (replayable, short) = All-to_replay es fits in
        at-open_disk crc f sb j (old ++ ds) i super found
          (All-append IsReplayable old ds replayable
            (IsReplayable-data_entries (length bytes) tx offset bytes))
          (omega (
            arith,
            short,
            length-append old ds,
            length-data_entries (length bytes) tx offset bytes (omega arith),
          ))
          out
        ∙ ap (λ (at : ℕ → ℕ). at i) (applied-append old ds f.at)
        ∙ applied-data_entries (length bytes) tx offset bytes (applied old f.at) i (omega arith)
        ∙ overwrite_twice (applied old f.at) s.file.at offset bytes i
            (λ beside. applied_cong old f.at s.file.at i (same i out beside) ∙ settled i out)

    -- Only the older entries are replayed.
    reopened_part :
        open_journal crc f ≡ ok (j, to_replay es)
        → length es ≤ f.budget
        → ((i : ℕ) → data_offset ≤ i → f.at i ≡ s.file.at i)
        → (i : ℕ) → data_offset ≤ i
        → (open_disk crc f).1.at i ≡ s.file.at i
    reopened_part found budget same i out =
        let (replayable, short) = All-to_replay es fits in
        at-open_disk crc f sb j (to_replay es) i super found replayable (omega (arith, short)) out
        ∙ applied_cong (to_replay es) f.at s.file.at i (same i out)
        ∙ settled i out

  -- Beside the range of the write the data region is as before.
  IsLeft-beside :
      (run : DiskResult (Unit {0}) × Image) (s : Image) (es : List JournalEntry) (tx offset : ℕ)
      (bytes : List ℕ)
      → IsLeft crc run s es tx offset bytes
      → (i : ℕ) → IsOutside i
      → (i < offset) ⊎ (offset + length bytes ≤ i)
      → run.1.file.at i ≡ s.file.at i
  IsLeft-beside run s es tx offset bytes l i out beside = elim l.at [
    | inl same ↦ same i out
    | inr (full, new) ↦ new i out ∙ overwrite_outside s.file.at offset bytes i beside
  ]

  IsDurable-IsLeft :
      (run : DiskResult (Unit {0}) × Image) (budget tx offset : ℕ) (bytes : List ℕ) (s : Image)
      (es : List JournalEntry) (sb : SuperblockRaw)
      → IsLeft crc run s es tx offset bytes
      → Fresh tx es
      → All (λ e. e.payload_len ≤ journal_payload_size) es
      → IsSettled es s.file.at
      → data_offset ≤ offset
      → data_offset ≤ s.file.size
      → read_superblock crc s.file ≡ ok sb
      → length es + chunks_needed bytes ≤ budget
      → IsDurable run budget offset bytes s
  IsDurable-IsLeft run budget tx offset bytes s es sb l fresh fits settled place size super enough =
      let f = restarted budget run.1.file in
      let ds = data_entries (length bytes) tx offset bytes in
      let c = entry_of entry_commit tx 0 [] in
      let all = length-append ds (c ∷ []) in
      let beside = IsLeft-beside run s es tx offset bytes l in
      let super' : read_superblock crc f ≡ ok sb =
        read_superblock_cong crc f s.file (omega (arith, l.logged.room)) (omega arith)
          (λ i h. beside i (inl (omega arith)) (inl (omega arith)))
        ∙ super in
      let g =
        IsLogged-restarted crc l.journal run.1.file (es ++ take l.count (ds ++ (c ∷ []))) budget
          l.logged in
      let found =
        open_journal-IsLogged crc (record { journal = l.journal; file = f })
          (es ++ take l.count (ds ++ (c ∷ []))) g in
      elim (to_replay-prefix tx l.count es ds c fresh
        (AllUpdates-data_entries (length bytes) tx offset bytes)
        (record { tx_id = refl; state = refl; entry_type = refl }) (omega (arith, l.bound, all))) [
          | inl (same, whole) ↦
              let new =
                reopened_whole tx offset bytes s es f sb _ super' fits settled (rw same at found)
                  enough (λ i out. beside i (inr out)) in
              record { all_or_none = inl new; durable = λ e. new }
          | inr (same, part) ↦
              let old : (i : ℕ) → IsOutside i → run.1.file.at i ≡ s.file.at i = elim l.at [
                | inl kept ↦ kept
                | inr (full, _) ↦ absurd (omega (arith, all))
              ] in
              record {
                all_or_none = inr (
                    reopened_part tx offset bytes s es f sb _ super' fits settled (rw same at found)
                      (omega arith) (λ i out. old i (inr out)));
                durable = λ e. absurd (omega (arith, l.done e, all));
              }
        ]

  -- A write of some bytes behind the journal, on an image whose journal has no entry of the next
  -- transaction, whose data region replaying the journal does not change, and whose superblock is
  -- readable, with free slots for the write below the checkpoint, and with its writes to the file
  -- failing from any point on: when the image is opened again, with a write for each journal entry,
  -- the data region has all the bytes of the write at their offset or is as before; it has them if
  -- the write returned without an error.
  pub write_file_data-IsDurable :
      (word : (bytes : List ℕ) → crc bytes < 2 ^ 32) (offset b : ℕ) (bs : List ℕ) (s : Image)
      (es : List JournalEntry) (sb : SuperblockRaw) (budget : ℕ)
      → IsLogged crc (journal_file s) es
      → Fresh s.manager.journal.header.next_tx_id es
      → All (λ e. e.payload_len ≤ journal_payload_size) es
      → IsSettled es s.file.at
      → read_superblock crc s.file ≡ ok sb
      → data_offset ≤ offset
      → IsU64 (offset + length (b ∷ bs))
      → length es + chunks_needed (b ∷ bs) + 1 < 496
      → length es + chunks_needed (b ∷ bs) ≤ budget
      → IsDurable (write_file_data crc offset (b ∷ bs) s) budget offset (b ∷ bs) s
  write_file_data-IsDurable word offset b bs s es sb budget g fresh fits settled super place word64
        room enough =
      IsDurable-IsLeft (write_file_data crc offset (b ∷ bs) s) budget
        s.manager.journal.header.next_tx_id offset (b ∷ bs) s es sb
        (write_file_data-IsLeft crc word offset b bs s es g place word64 room) fresh fits settled
        place g.room super enough
