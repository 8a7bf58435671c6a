-- ===== src/DiskManager/Replay.antt =====
-- src/fs/mod.rs: `replay_entries` on the entries of a large write.
use vexfs.Journal.Split.{data_entries}
use vexfs.Base.{
  ℕ, zero, suc, ◌+◌, ◌-◌, ◌≤◌, ◌<◌, ◌≡◌, ◌⊎◌, inl, inr, refl, ap, sym, ◌∙◌, List, [], ◌∷◌, ◌++◌,
  true, leb, le→leb, length, take, replicate, get_or, length-append, take-append, arith, drop,
  length-drop, length-take, take-append-drop,
}
use vexfs.Disk.Result.{ok, DiskResult}
use vexfs.File.{File, overwrite}
use vexfs.File.Ranges.{overwrite_inside, overwrite_outside}
use vexfs.Journal.{entry_of}
use vexfs.Journal.Records.{journal_payload_size, entry_write_data, JournalEntry}
use vexfs.Journal.Slots.{written, write_bytes_ok}
use vexfs.DiskManager.{replay_entry, replay_entries}

get_or-append_left :
    (xs ys : List ℕ) (k : ℕ) → k < length xs → get_or (xs ++ ys) k 0 ≡ get_or xs k 0
get_or-append_left [] ys k h = absurd (omega arith)
get_or-append_left (x ∷ xs) ys zero h = refl
get_or-append_left (x ∷ xs) ys (suc k) h = get_or-append_left xs ys k (omega arith)

get_or-append_right : (xs ys : List ℕ) (k : ℕ) → get_or (xs ++ ys) (length xs + k) 0 ≡ get_or ys k 0
get_or-append_right [] ys k = ap (λ n. get_or ys n 0) (omega arith)
get_or-append_right (x ∷ xs) ys k =
    let step : suc (length xs) + k ≡ suc (length xs + k) = omega arith in
    rw step (get_or-append_right xs ys k)

-- Two writes, the second where the first ends, are one.
overwrite-append :
    (at : ℕ → ℕ) (offset : ℕ) (xs ys : List ℕ) (i : ℕ)
    → overwrite (overwrite at offset xs) (offset + length xs) ys i
      ≡ overwrite at offset (xs ++ ys) i
overwrite-append at offset xs ys i =
    let total = length-append xs ys in
    let side : ((i < offset) ⊎ (offset + length xs + length ys ≤ i))
        ⊎ (((offset ≤ i) × (i < offset + length xs))
            ⊎ ((offset + length xs ≤ i) × (i < offset + length xs + length ys))) =
      omega arith in
    elim side [
      | inl outside ↦
          overwrite_outside (overwrite at offset xs) (offset + length xs) ys i (omega arith)
          ∙ (overwrite_outside at offset xs i (omega arith)
              ∙ sym (overwrite_outside at offset (xs ++ ys) i (omega arith)))
      | inr (inl first) ↦
          overwrite_outside (overwrite at offset xs) (offset + length xs) ys i (omega arith)
          ∙ (overwrite_inside at offset xs i (omega arith) (omega arith)
              ∙ (sym (get_or-append_left xs ys (i - offset) (omega arith))
                  ∙ sym (overwrite_inside at offset (xs ++ ys) i (omega arith) (omega arith))))
      | inr (inr second) ↦
          let shift : i - offset ≡ length xs + (i - (offset + length xs)) = omega arith in
          overwrite_inside (overwrite at offset xs) (offset + length xs) ys i (omega arith)
            (omega arith)
          ∙ (sym (get_or-append_right xs ys (i - (offset + length xs)))
              ∙ (ap (λ n. get_or (xs ++ ys) n 0) (sym shift)
                  ∙ sym (overwrite_inside at offset (xs ++ ys) i (omega arith) (omega arith))))
    ]

replay_entry-data :
    (tx offset : ℕ) (chunk : List ℕ) (f : File)
    → 0 < length chunk
    → length chunk ≤ journal_payload_size
    → 0 < f.budget
    → replay_entry (entry_of entry_write_data tx offset chunk) f ≡ (ok tt, written offset chunk f)
unfolding replay_entry
replay_entry-data tx offset chunk f some_bytes fits budget =
    let inside : leb (length chunk) journal_payload_size ≡ true =
      le→leb (length chunk) journal_payload_size fits in
    let payload : take (length chunk) (chunk ++ replicate (journal_payload_size - length chunk) 0)
        ≡ chunk =
      take-append chunk (replicate (journal_payload_size - length chunk) 0) (length chunk) refl in
    rw (inside, payload) (write_bytes_ok offset chunk f some_bytes budget)

replay_entries_step :
    (e : JournalEntry) (es : List JournalEntry) (f f1 : File)
    → replay_entry e f ≡ (ok tt, f1)
    → replay_entries (e ∷ es) f ≡ replay_entries es f1
unfolding replay_entries
replay_entries_step e es f f1 done = rw (done, replay_entries)

replay_entries_nil : (f : File) → replay_entries [] f ≡ (ok tt, f)
unfolding replay_entries
replay_entries_nil f = refl

-- The run succeeds, and the file then has the bytes at the offset and is else as before.
pub record Replays (run : DiskResult (Unit {0}) × File) (offset : ℕ) (bytes : List ℕ) (f : File)
    : Type 0 where
  pub result : run.0 ≡ ok tt
  pub at : (i : ℕ) → run.1.at i ≡ overwrite f.at offset bytes i

-- With a write of the file for each entry, replaying the entries of a large write succeeds, and
-- the file then has the bytes at the offset and is else as before.
pub replay_entries-data_entries :
    (fuel tx offset : ℕ) (bytes : List ℕ) (f : File)
    → length bytes ≤ fuel
    → length (data_entries fuel tx offset bytes) ≤ f.budget
    → Replays (replay_entries (data_entries fuel tx offset bytes) f) offset bytes f
unfolding data_entries
replay_entries-data_entries fuel tx offset [] f enough budget =
    rw (replay_entries_nil f)
      (record { result = refl; at = λ i. sym (overwrite_outside f.at offset [] i (omega arith)) })
replay_entries-data_entries zero tx offset (b ∷ bs) f enough budget = absurd (omega arith)
replay_entries-data_entries (suc fuel) tx offset (b ∷ bs) f enough budget =
    let chunk = take journal_payload_size (b ∷ bs) in
    let more = drop journal_payload_size (b ∷ bs) in
    let left = length-drop journal_payload_size (b ∷ bs) in
    let taken = length-take journal_payload_size (b ∷ bs) in
    let f1 = written offset chunk f in
    let first =
      replay_entry-data tx offset chunk f (omega (arith, taken)) (omega (arith, taken))
        (omega arith) in
    let rest =
      replay_entries-data_entries fuel tx (offset + length chunk) more f1 (omega (arith, left))
        (omega arith) in
    let whole : chunk ++ more ≡ b ∷ bs = take-append-drop journal_payload_size (b ∷ bs) in
    rw
      (replay_entries_step (entry_of entry_write_data tx offset chunk)
        (data_entries fuel tx (offset + length chunk) more) f f1 first)
      (record {
        result = rest.result;
        at = λ i.
            rest.at i
            ∙ (overwrite-append f.at offset chunk more i
                ∙ ap (λ l. overwrite f.at offset l i) whole);
      })
