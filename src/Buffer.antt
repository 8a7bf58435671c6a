-- ===== src/Buffer.antt =====
-- src/fs/buffer.rs: the write buffer, which holds the latest data of a file until it is due.
mod Due
mod Runs
use vexfs.Base.{
  ℕ, ◌-◌, List, [], ◌∷◌, Option, none, some, Bool, true, false, leb, ◌==◌, if◌then◌else◌, length,
  map,
}
use vexfs.Base.Map.{lookup}
use vexfs.Base.Map

pub record Pending : Type 0 where
  pub bytes : List ℕ
  pub disk_index : ℕ
  pub name : List ℕ
  pub dirty_since : ℕ

pub record WriteBuffer : Type 0 where
  pub pending : List (ℕ × Pending)
  pub max_pending : ℕ
  pub flush_interval_secs : ℕ

abbrev pub new : ℕ → ℕ → WriteBuffer
new max_pending flush_interval_secs = record {
  pending = [];
  max_pending = max_pending;
  flush_interval_secs = flush_interval_secs;
}

-- `write` at the time `now`.
unfoldable pub write : ℕ → ℕ → List ℕ → List ℕ → ℕ → WriteBuffer → WriteBuffer
write now ino name bytes disk_index b = record b {
  pending =
      Map.insert ino
        (record { bytes = bytes; disk_index = disk_index; name = name; dirty_since = now })
        b.pending;
}

unfoldable pub get : ℕ → WriteBuffer → Option (List ℕ)
get ino b = elim (lookup ino b.pending) [ none ↦ none | some p ↦ some p.bytes ]

-- `now.saturating_sub(dirty_since) >= flush_interval_secs`.
abbrev pub is_old : ℕ → ℕ → Pending → Bool
is_old now interval p = leb interval (now - p.dirty_since)

unfoldable pub old_keys : ℕ → ℕ → List (ℕ × Pending) → List ℕ
old_keys now interval [] = []
old_keys now interval ((ino, p) ∷ ps) =
    let rest = old_keys now interval ps in if is_old now interval p then ino ∷ rest else rest

-- The inodes to flush at the time `now`, all of them when the buffer is full.
unfoldable pub due_for_flush : ℕ → WriteBuffer → List ℕ
unfolding old_keys
due_for_flush now b =
    if leb b.max_pending (length b.pending)
    then map (λ e. e.0) b.pending
    else old_keys now b.flush_interval_secs b.pending

unfoldable pub take : ℕ → WriteBuffer → Option Pending × WriteBuffer
take ino b = (lookup ino b.pending, record b { pending = Map.remove ino b.pending })

unfoldable pub take_all : WriteBuffer → List (ℕ × Pending) × WriteBuffer
take_all b = (b.pending, record b { pending = [] })

unfoldable pub len : WriteBuffer → ℕ
len b = length b.pending

unfoldable pub is_empty : WriteBuffer → Bool
is_empty b = length b.pending == 0
