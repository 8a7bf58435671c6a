-- ===== src/DiskManager/Applied.antt =====
-- src/fs/mod.rs: the bytes that replaying journal entries leaves, as a function of those before.
use vexfs.Base.{
  ℕ, zero, suc, ◌+◌, ◌≤◌, ◌<◌, ◌≡◌, refl, sym, ap, ◌∙◌, List, [], ◌∷◌, ◌++◌, true, false, ◌||◌,
  ◌==◌, Bool-cases, inl, inr, le→leb, length, take, drop, All, arith, length-take,
}
use vexfs.Disk.Result.{DiskResult, ok}
use vexfs.File.{File, overwrite, write_bytes}
use vexfs.Journal.{to_replay, select, replays}
use vexfs.Journal.Records.{JournalEntry, journal_payload_size, entry_write_inode, entry_write_data}
use vexfs.Journal.Slots.{written}
use vexfs.Journal.Split.{data_entries}
use vexfs.DiskManager.{replay_entry, replay_entries}
use vexfs.DiskManager.Write.{overwrite_cong}
use vexfs.DiskManager.Replay.{replay_entries-data_entries}

unfoldable pub applied : List JournalEntry → (ℕ → ℕ) → ℕ → ℕ
applied [] at = at
applied (e ∷ es) at = applied es (overwrite at e.disk_offset (take e.payload_len e.payload))

-- An inode or data write whose payload fits its field.
abbrev pub IsReplayable : JournalEntry → Type 0
IsReplayable e =
    ((e.entry_type == entry_write_inode || e.entry_type == entry_write_data) ≡ true)
    × (e.payload_len ≤ journal_payload_size)

-- Each byte of the result depends on that byte alone.
pub applied_cong :
    (es : List JournalEntry) (f g : ℕ → ℕ) (i : ℕ) → f i ≡ g i → applied es f i ≡ applied es g i
unfolding applied
applied_cong [] f g i h = h
applied_cong (e ∷ es) f g i h =
    let bytes = take e.payload_len e.payload in
    applied_cong es (overwrite f e.disk_offset bytes) (overwrite g e.disk_offset bytes) i
      (overwrite_cong f g e.disk_offset bytes i h)

pub applied-append :
    (xs ys : List JournalEntry) (at : ℕ → ℕ) → applied (xs ++ ys) at ≡ applied ys (applied xs at)
unfolding applied
applied-append [] ys at = refl
applied-append (x ∷ xs) ys at =
    applied-append xs ys (overwrite at x.disk_offset (take x.payload_len x.payload))

write_run :
    (offset : ℕ) (bytes : List ℕ) (f : File)
    → 0 < f.budget
    → (g : File) × (write_bytes offset bytes f ≡ (ok tt, g))
      × ((i : ℕ) → g.at i ≡ overwrite f.at offset bytes i)
      × (f.budget ≤ suc g.budget)
unfolding write_bytes
write_run offset bytes f h = elim (Bool-cases (length bytes == 0)) [
  | inl nothing ↦ (f, rw nothing, λ i. ground (arith, nothing), omega arith)
  | inr some_bytes ↦
      let allowed : (f.budget == 0) ≡ false = ground arith in
      (written offset bytes f, rw (some_bytes, allowed), λ i. refl, omega arith)
]

-- With a write of the file for each entry, replaying succeeds.
pub replay_entries-applied :
    (es : List JournalEntry) (f : File)
    → All IsReplayable es
    → length es ≤ f.budget
    → (g : File) × (replay_entries es f ≡ (ok tt, g)) × ((i : ℕ) → g.at i ≡ applied es f.at i)
unfolding replay_entries replay_entry applied
replay_entries-applied [] f h budget = (f, refl, λ i. refl)
replay_entries-applied (e ∷ es) f (h, hs) budget =
    let bytes = take e.payload_len e.payload in
    let (f1, first, same, spent) = write_run e.disk_offset bytes f (omega arith) in
    let (g, rest, after) = replay_entries-applied es f1 hs (omega arith) in
    let fits = le→leb e.payload_len journal_payload_size h.1 in
    (
      g,
      rw (h.0, fits, first) rest,
      λ i. after i ∙ applied_cong es f1.at (overwrite f.at e.disk_offset bytes) i (same i),
    )

-- The entries of a large write are its bytes at its offset.
pub IsReplayable-data_entries :
    (fuel tx offset : ℕ) (bytes : List ℕ) → All IsReplayable (data_entries fuel tx offset bytes)
unfolding data_entries
IsReplayable-data_entries fuel tx offset [] = tt
IsReplayable-data_entries zero tx offset (b ∷ bs) = tt
IsReplayable-data_entries (suc fuel) tx offset (b ∷ bs) =
    let chunk = take journal_payload_size (b ∷ bs) in
    (
      (refl, omega (arith, length-take journal_payload_size (b ∷ bs))),
      IsReplayable-data_entries fuel tx (offset + length chunk)
          (drop journal_payload_size (b ∷ bs)),
    )

pub applied-data_entries :
    (fuel tx offset : ℕ) (bytes : List ℕ) (at : ℕ → ℕ) (i : ℕ)
    → length bytes ≤ fuel
    → applied (data_entries fuel tx offset bytes) at i ≡ overwrite at offset bytes i
applied-data_entries fuel tx offset bytes at i enough =
    let ds = data_entries fuel tx offset bytes in
    let f : File = record { size = 0; at = at; budget = length ds } in
    let (g, run, all) =
      replay_entries-applied ds f (IsReplayable-data_entries fuel tx offset bytes) (omega arith) in
    let direct = replay_entries-data_entries fuel tx offset bytes f enough (omega arith) in
    sym (all i) ∙ (ap (λ (r : DiskResult (Unit {0}) × File). r.1.at i) (sym run) ∙ direct.at i)

-- What `open` hands out can be replayed, if the payloads fit.
All-select :
    (txs : List ℕ) (es : List JournalEntry)
    → All (λ e. e.payload_len ≤ journal_payload_size) es
    → All IsReplayable (select txs es) × (length (select txs es) ≤ length es)
unfolding select replays
All-select txs [] h = (tt, omega arith)
All-select txs (e ∷ es) h = ground (arith, All-select txs es h.1)

pub All-to_replay :
    (es : List JournalEntry)
    → All (λ e. e.payload_len ≤ journal_payload_size) es
    → All IsReplayable (to_replay es) × (length (to_replay es) ≤ length es)
unfolding to_replay
All-to_replay es h = All-select _ es h
