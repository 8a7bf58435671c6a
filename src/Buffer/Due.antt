-- ===== src/Buffer/Due.antt =====
-- src/fs/buffer.rs: about `due_for_flush`.
use vexfs.Base.{
  ℕ, ◌+◌, ◌==◌, ◌≡◌, refl, List, [], ◌∷◌, Option, none, some, Bool, true, false, ◌||◌, leb, length,
  map, arith,
}
use vexfs.Base.Map.{lookup, member, Distinct}
use vexfs.Buffer.{WriteBuffer, Pending, old_keys, due_for_flush}

-- Whether an entry is due at the time `now`, if the buffer is full or not.
abbrev pub is_due : ℕ → Bool → ℕ → Option Pending → Bool
is_due now full interval none = false
is_due now full interval (some p) = full || interval == 0 || leb (p.dirty_since + interval) now

member-keys :
    (ino : ℕ) (ps : List (ℕ × Pending)) (now interval : ℕ)
    → member ino (map (λ e. e.0) ps) ≡ is_due now true interval (lookup ino ps)
unfolding member lookup
member-keys ino [] now interval = refl
member-keys ino ((j, p) ∷ ps) now interval = ground (arith, member-keys ino ps now interval)

member-old_keys :
    (ino : ℕ) (ps : List (ℕ × Pending)) (now interval : ℕ)
    → Distinct ps
    → member ino (old_keys now interval ps) ≡ is_due now false interval (lookup ino ps)
unfolding member lookup old_keys
member-old_keys ino [] now interval d = refl
member-old_keys ino ((j, p) ∷ ps) now interval d =
    ground (arith, member-old_keys ino ps now interval d.1)

-- In a buffer with distinct keys, a key is due exactly if it is pending, and the buffer is full, the
-- interval is zero, or at least the interval has passed since the entry was written.
pub member-due_for_flush :
    (now ino : ℕ) (b : WriteBuffer)
    → Distinct b.pending
    → member ino (due_for_flush now b)
      ≡ is_due now
          (leb b.max_pending (length b.pending))
          b.flush_interval_secs
          (lookup ino b.pending)
unfolding due_for_flush
member-due_for_flush now ino b d = ground (
  arith,
  member-keys ino b.pending now b.flush_interval_secs,
  member-old_keys ino b.pending now b.flush_interval_secs d,
)
