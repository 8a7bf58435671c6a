-- ===== src/Journal/Runs.antt =====
-- Runs of the journal, and the theorems at them.
use vexfs.Base.{
  refl, ◌++◌, inl, ◌⊎◌, ◌<◌, ◌≤◌, ◌*◌, ℕ, ◌+◌, ◌%◌, ◌^◌, ◌≡◌, List, [], ◌∷◌, replicate, arith,
}
use vexfs.Disk.Result.{err, io, ok}
use vexfs.File.{File, ◌>>=◌}
use vexfs.Journal.{
  JournalFile, format, open_journal, entry_of, write_entry, log_data_write_all, commit, to_replay,
}
use vexfs.Journal.Replay.{Fresh, AllUpdates, to_replay-committed, to_replay-uncommitted}
use vexfs.Journal.Records.{
  entry_commit, entry_write_data, JournalEntry, EntryFits, new_header, entry_write_inode,
}
use vexfs.Journal.Slots.{IsLogged, appended}
use vexfs.Journal.Append.{write_entry-IsLogged}
use vexfs.Journal.Recovery.{open_journal-IsLogged}
use vexfs.Journal.Format.{format-IsLogged}
use vexfs.Journal.Split.{Appends, log_data_write_all_lem, data_entries, EntryFits-entry_of}
use vexfs.Journal.Atomic.{IsAtomic, log_data_write_all-IsAtomic}

-- A checksum to run with.
unfoldable checksum : List ℕ → ℕ
checksum [] = 7
checksum (b ∷ bs) = (checksum bs * 31 + b) % 2 ^ 32

checksum_word : (bytes : List ℕ) → checksum bytes < 2 ^ 32
unfolding checksum
checksum_word [] = omega arith
checksum_word (b ∷ bs) = omega arith

-- An empty file on which `budget` writes succeed.
abbrev blank : ℕ → File
blank budget = record { size = 0; at = λ i. 0; budget = budget }

-- The image that `format` leaves, an empty journal on it, and 1487 more writes.
abbrev image : JournalFile
image = record {
  journal = record { header = new_header; next_slot = 0 };
  file = (format checksum (blank 2000)).1;
}

image_budget : image.file.budget ≡ 1487
image_budget =
    let (f, (eq, (g, spent))) = format-IsLogged checksum checksum_word (blank 2000) (omega arith) in
    rw eq (omega (arith, spent))

image-IsLogged : IsLogged checksum image []
image-IsLogged =
    let (f, (eq, (g, spent))) = format-IsLogged checksum checksum_word (blank 2000) (omega arith) in
    rw eq g

-- An inode write of three bytes beyond 4 GB.
abbrev inode_write : JournalEntry
inode_write = entry_of entry_write_inode 5 (2 ^ 33 + 8) (1 ∷ 2 ∷ 3 ∷ [])

inode_write-EntryFits : EntryFits inode_write
inode_write-EntryFits =
    EntryFits-entry_of entry_write_inode 5 (2 ^ 33 + 8) (1 ∷ 2 ∷ 3 ∷ []) (omega arith) (omega arith)
      (omega arith)

write_entry-IsLogged_example :
    (write_entry checksum inode_write image ≡ (ok tt, appended checksum inode_write image))
    × IsLogged checksum (appended checksum inode_write image) (inode_write ∷ [])
write_entry-IsLogged_example =
    write_entry-IsLogged checksum checksum_word inode_write image [] image-IsLogged (omega arith)
      inode_write-EntryFits (omega arith) (omega (arith, image_budget))

open_journal-IsLogged_example :
    open_journal checksum image.file
    ≡ ok (record { header = image-IsLogged.disk_header; next_slot = 0 }, to_replay [])
open_journal-IsLogged_example = open_journal-IsLogged checksum image [] image-IsLogged

-- 1000 bytes at offset 700000 under transaction 1: three entries and the commit entry.
log_data_write_all-IsAtomic_example :
    let bytes : List ℕ = replicate 1000 9 in
    IsAtomic checksum
      ((log_data_write_all checksum 1 700000 bytes >>= λ _. commit checksum 1) image)
      []
      (data_entries 1000 1 700000 bytes)
log_data_write_all-IsAtomic_example =
    log_data_write_all-IsAtomic checksum checksum_word 1 700000 (replicate 1000 9) image []
      image-IsLogged tt (omega arith) (omega arith)

log_data_write_all_lem_example :
    let bytes : List ℕ = replicate 1000 9 in
    let entries = data_entries 1000 1 700000 bytes in
    (Appends checksum (log_data_write_all checksum 1 700000 bytes image) 3 image [] entries
      × ((bytes ≡ []) ⊎ (3 < 512)))
    ⊎ ((log_data_write_all checksum 1 700000 bytes image ≡ (err io, image)) × (512 ≤ 3))
log_data_write_all_lem_example =
    log_data_write_all_lem checksum checksum_word 1 700000 (replicate 1000 9) image []
      image-IsLogged (omega arith) (omega arith) (omega (arith, image_budget))

-- An entry of a committed transaction 3.
abbrev older : List JournalEntry
older = entry_of entry_write_data 3 800000 (4 ∷ []) ∷ entry_of entry_commit 3 0 [] ∷ []

older-Fresh : Fresh 5 older
older-Fresh = (omega arith, (omega arith, tt))

inode_write-AllUpdates : AllUpdates 5 (inode_write ∷ [])
inode_write-AllUpdates = ((refl, (refl, inl refl)), tt)

to_replay-committed_example :
    to_replay (older ++ (inode_write ∷ entry_of entry_commit 5 0 [] ∷ []))
    ≡ to_replay older ++ (inode_write ∷ [])
to_replay-committed_example =
    to_replay-committed 5 older (inode_write ∷ []) (entry_of entry_commit 5 0 []) older-Fresh
      inode_write-AllUpdates (record { tx_id = refl; state = refl; entry_type = refl })

to_replay-uncommitted_example : to_replay (older ++ (inode_write ∷ [])) ≡ to_replay older
to_replay-uncommitted_example =
    to_replay-uncommitted 5 older (inode_write ∷ []) older-Fresh inode_write-AllUpdates
