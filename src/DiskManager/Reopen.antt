-- ===== src/DiskManager/Reopen.antt =====
-- src/fs/mod.rs: `open` on the image that a write which was cut off has left.
use vexfs.Base.{
  ℕ, ◌+◌, ◌≤◌, ◌<◌, ◌≡◌, ◌⊎◌, sym, ap, ◌∙◌, List, [], ◌∷◌, ◌++◌, true, leb, le→leb, inl, inr, All,
  length, arith,
}
use vexfs.Disk.Result.{DiskResult, ok}
use vexfs.Disk.Superblock.{SuperblockRaw}
use vexfs.File.{File, overwrite, read_bytes}
use vexfs.File.Ranges.{bytes_at_cong, overwrite_inside}
use vexfs.Journal.{Journal, to_replay, open_journal, clear}
use vexfs.Journal.Records.{JournalEntry}
use vexfs.Journal.Slots.{IsLogged}
use vexfs.Journal.Region.{at-clear, after_keeps}
use vexfs.InodeTable.{open_table}
use vexfs.FreeList.Persist.{load}
use vexfs.DiskManager.{
  data_offset, inode_table_offset, replay_entries, replay, read_superblock, list_or_new, open_disk,
}
use vexfs.DiskManager.Write.{overwrite_cong}
use vexfs.DiskManager.Applied.{applied, IsReplayable, replay_entries-applied}

-- The image file when the power is back, with writes to spare.
abbrev pub restarted : ℕ → File → File
restarted budget f = record f { budget = budget }

-- Replaying the journal changes no byte of the data region: what it holds is there.
abbrev pub IsSettled : List JournalEntry → (ℕ → ℕ) → Type 0
IsSettled es at = (i : ℕ) → data_offset ≤ i → applied (to_replay es) at i ≡ at i

pub All-append :
    (P : JournalEntry → Type 0) (xs ys : List JournalEntry) → All P xs → All P ys → All P (xs ++ ys)
All-append P [] ys h k = k
All-append P (x ∷ xs) ys h k = (h.0, All-append P xs ys h.1 k)

pub overwrite_twice :
    (f g : ℕ → ℕ) (offset : ℕ) (bytes : List ℕ) (i : ℕ)
    → (((i < offset) ⊎ (offset + length bytes ≤ i)) → f i ≡ g i)
    → overwrite f offset bytes i ≡ overwrite g offset bytes i
overwrite_twice f g offset bytes i h =
    let side : ((i < offset) ⊎ (offset + length bytes ≤ i))
        ⊎ ((offset ≤ i) × (i < offset + length bytes)) =
      omega arith in
    elim side [
      | inl out ↦ overwrite_cong f g offset bytes i (h out)
      | inr inside ↦
          overwrite_inside f offset bytes i inside.0 inside.1
          ∙ sym (overwrite_inside g offset bytes i inside.0 inside.1)
    ]

module _ (crc : List ℕ → ℕ) where
  at-replay :
      (j : Journal) (es : List JournalEntry) (f g : File) (i : ℕ)
      → replay_entries es f ≡ (ok tt, g)
      → data_offset ≤ i
      → (replay crc j es f).1.at i ≡ g.at i
  unfolding replay replay_entries
  at-replay j [] f g i run out = ap (λ (r : DiskResult (Unit {0}) × File). r.1.at i) run
  at-replay j (e ∷ es) f g i run out =
      let cleared = at-clear crc i (inr out) (record { journal = j; file = g }) in
      rw (run, replay)
        (after_keeps (λ (t : File). t.at i ≡ g.at i)
          (clear crc (record { journal = j; file = g })).0
          (clear crc (record { journal = j; file = g })).1.file _ cleared (λ _. cleared))

  -- The data region that `open` leaves, by the journal that it finds.
  pub at-open_disk :
      (f : File) (sb : SuperblockRaw) (j : Journal) (es : List JournalEntry) (i : ℕ)
      → read_superblock crc f ≡ ok sb
      → open_journal crc f ≡ ok (j, es)
      → All IsReplayable es
      → length es ≤ f.budget
      → data_offset ≤ i
      → (open_disk crc f).1.at i ≡ applied es f.at i
  unfolding open_disk
  at-open_disk f sb j es i super found h budget out =
      let (g, run, all) = replay_entries-applied es f h budget in
      let at_ = at-replay j es f g i run out ∙ all i in
      let P : File → Type 0 = λ t. t.at i ≡ applied es f.at i in
      let f1 = (replay crc j es f).1 in
      rw (super, found, open_disk)
        (after_keeps P (replay crc j es f).0 f1 _ at_ (λ journal.
          after_keeps P (list_or_new (load crc f1)) f1 _ at_ (λ free_list.
            after_keeps P (open_table inode_table_offset sb.next_data_offset f1) f1 _ at_
              (λ table. at_))))

  pub IsLogged-restarted :
      (j : Journal) (f : File) (es : List JournalEntry) (budget : ℕ)
      → IsLogged crc (record { journal = j; file = f }) es
      → IsLogged crc (record { journal = j; file = restarted budget f }) es
  IsLogged-restarted j f es budget g = record {
    next = g.next;
    within = g.within;
    used = g.used;
    unused = g.unused;
    disk_header = g.disk_header;
    header = g.header;
    fits = g.fits;
    magic = g.magic;
    room = g.room;
  }

  pub read_superblock_cong :
      (f g : File)
      → 64 ≤ f.size
      → 64 ≤ g.size
      → ((i : ℕ) → i < 64 → f.at i ≡ g.at i)
      → read_superblock crc f ≡ read_superblock crc g
  unfolding read_superblock read_bytes
  read_superblock_cong f g hf hg same =
      let lf : leb (0 + 64) f.size ≡ true = le→leb (0 + 64) f.size (omega arith) in
      let lg : leb (0 + 64) g.size ≡ true = le→leb (0 + 64) g.size (omega arith) in
      let bytes = bytes_at_cong f.at g.at 0 64 (λ i lo hi. same i (omega arith)) in
      rw (lf, lg, bytes, read_superblock)
