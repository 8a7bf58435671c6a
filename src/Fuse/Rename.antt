-- ===== src/Fuse/Rename.antt =====
-- src/fuse/mod.rs: about what `rename` does to the index.
use vexfs.Base.{
  ℕ, ◌≡◌, ◌∙◌, refl, List, Option, none, some, true, false, not, ◌&&◌, ◌||◌, ◌==◌, map, arith,
}
use vexfs.Base.Map.{member}
use vexfs.Btree.{new_key}
use vexfs.Btree.Order.{Key}
use vexfs.Btree.Tree.{Value}
use vexfs.Btree.Directory.{IsIndex}
use vexfs.Fuse.{VexFs, World, Reply, replied, pure, update_file, root_ino}
use vexfs.Fuse.Names.{insert_entry, remove_entry}
use vexfs.Fuse.Edits.{moved, rewrite_inode, rename_removed, rename_entry, rename}
use vexfs.Fuse.Steps.{Leaves, Leaves-bind}
use vexfs.Fuse.Frame.{IsStable, update_file_lem}
use vexfs.Fuse.Links.{with_entry}
use vexfs.Fuse.Linked.{index_map, Reindexed, insert_entry-Reindexed, remove_entry-Reindexed}
use vexfs.Fuse.Moves.{Preserves-rewrite_inode}

-- A well-formed index with the entries of the map.
abbrev pub Indexes : (Key → Option Value) → VexFs → Type 0
Indexes m s = IsIndex s.index × ((k : Key) → index_map s k ≡ m k)

Indexes-IsStable : (m : Key → Option Value) → IsStable (Indexes m)
Indexes-IsStable m = record {
  disk = λ s image p. p;
  buffer = λ s b p. p;
  file = λ ino f silent s p. update_file_lem (Indexes m) ino f s p (λ file at. p);
  cached = λ ino s p. p;
}

module _ (w : World) (parent : ℕ) (name : List ℕ) (newparent : ℕ) (newname : List ℕ) (s : VexFs)
    (v : Value) where
  -- The entries after the move.
  abbrev pub after_move : Key → Option Value
  after_move =
      with_entry (new_key newparent newname) (some v)
        (with_entry (new_key parent name) none (index_map s))

  abbrev pub Moved : Reply (Unit {0}) → VexFs → Type 0
  Moved r t = (r ≡ replied tt) × Indexes after_move t

  rename_removed-Moved :
      (found : Option Value) (s' : VexFs)
      → found ≡ some v
      → Reindexed (with_entry (new_key parent name) none (index_map s)) s s'
      → Leaves Moved (rename_removed w newparent newname found s')
  unfolding rename_removed
  rename_removed-Moved none s' e r = absurd cc
  rename_removed-Moved (some x) s' e r =
      let same : x ≡ v = ground (arith, e) in
      let P = Indexes after_move in
      Leaves-bind Moved
        (λ _. Reindexed (with_entry (new_key newparent newname) (some x) (index_map s')) s')
        (insert_entry newparent newname x s') _
        (insert_entry-Reindexed newparent newname s' r.index x)
        (λ _ t i.
          let here : P t = (i.index, λ k. i.map_eq k ∙ rw (r.map_eq k, same) refl) in
          let moved_here : P (update_file x.ino (moved newname newparent) t) =
            update_file_lem P x.ino (moved newname newparent) t here (λ file at. here) in
          Leaves-bind Moved (λ _. P)
            (rewrite_inode w newparent newname x.disk_index
              (update_file x.ino (moved newname newparent) t))
            (λ _. pure (replied tt))
            ((Preserves-rewrite_inode P (Indexes-IsStable after_move) w newparent newname
                x.disk_index).keeps
              _ moved_here)
            (λ _ u p. (refl, p)))

  -- On a well-formed index that has the entry, and with a new parent that is the root or has a
  -- file, a rename that does not panic succeeds; the index is well formed, the new key has the
  -- value, the old key has none unless it is the new one, and the other keys are as before.
  pub rename_lem :
      IsIndex s.index
      → index_map s (new_key parent name) ≡ some v
      → (newparent == root_ino || member newparent (map (λ e. e.0) s.files)) ≡ true
      → Leaves Moved (rename w parent name newparent newname s)
  unfolding rename rename_entry
  rename_lem i there known =
      let passes : (not (newparent == root_ino) && not (member newparent (map (λ e. e.0) s.files)))
          ≡ false =
        ground (arith, known) in
      rw passes (
        Leaves-bind Moved
          (λ found s'.
            (found ≡ index_map s (new_key parent name))
            × Reindexed (with_entry (new_key parent name) none (index_map s)) s s')
          (remove_entry parent name s) (rename_removed w newparent newname)
          (remove_entry-Reindexed parent name s i)
          (λ found s' e. rename_removed-Moved found s' (e.0 ∙ there) e.1))
