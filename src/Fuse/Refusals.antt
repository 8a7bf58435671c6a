-- ===== src/Fuse/Refusals.antt =====
-- src/fuse/mod.rs: about `rmdir` of a directory that has entries.
use mathlib.Core.Path.{subst}
use vexfs.Base.{
  ℕ, ◌≡◌, ◌≢◌, ◌∙◌, refl, sym, ap, List, [], ◌∷◌, Option, none, some, Bool, true, false, arith,
}
use vexfs.Btree.{new_key, list_dir}
use vexfs.Btree.Order.{Key, eq_of_key_cmp}
use vexfs.Btree.Tree.{Value}
use vexfs.Btree.Entries.{Entries, Keys, find}
use vexfs.Btree.Directory.{IsIndex, contents}
use vexfs.Btree.Listing.{children_of, IsPlain, list_dir-children_of}
use vexfs.Fuse.{VexFs, World, Reply, error, enotempty}
use vexfs.Fuse.Names.{find_entry}
use vexfs.Fuse.Edits.{is_empty_dir, rmdir_entry, rmdir}
use vexfs.Fuse.Linked.{index_map, find_entry-find}

children_of-find :
    (k : Key) (c : Value) (es : Entries) → find k es ≡ some c → children_of k.parent_ino es ≢ []
unfolding children_of find
children_of-find k c [] at = λ h. cc
children_of-find k c ((j, v) ∷ es) at =
    λ h. ground (arith, children_of-find k c es, eq_of_key_cmp j k, at, h)

not_empty : (es : Entries) → es ≢ [] → elim es as (λ _. Bool) [ [] ↦ true | e ∷ es ↦ false ] ≡ false
not_empty [] h = absurd (h refl)
not_empty (e ∷ es) h = refl

is_empty_dir-children :
    (ino : ℕ) (s : VexFs)
    → IsIndex s.index
    → Keys IsPlain (contents s.index)
    → children_of ino (contents s.index) ≢ []
    → is_empty_dir ino s ≡ false
unfolding is_empty_dir
is_empty_dir-children ino s i plain h =
    not_empty (list_dir ino s.index) (λ e. h (sym (list_dir-children_of ino s.index i plain) ∙ e))

rmdir_at-refuses :
    (w : World) (parent : ℕ) (name : List ℕ) (s : VexFs) (v : Value)
    → IsIndex s.index
    → index_map s (new_key parent name) ≡ some v
    → v.is_dir ≡ true
    → is_empty_dir v.ino s ≡ false
    → rmdir w parent name s ≡ some (error enotempty, s)
unfolding rmdir rmdir_entry
rmdir_at-refuses w parent name s v i there dir full =
    let found : find_entry parent name s ≡ some (some v, s) =
      find_entry-find parent name s i ∙ ap (λ o. some (o, s)) there in
    subst
      (λ (o : Option (Option Value × VexFs)).
        Path (Option (Reply (Unit {0}) × VexFs))
          (elim o as (λ _. Option (Reply (Unit {0}) × VexFs)) [
            | none ↦ none
            | some (x, t) ↦ rmdir_entry w parent name x t
          ])
          (some (error enotempty, s)))
      (sym found) (rw (dir, full) refl)

-- On a well-formed index whose names are none above U+10FFFF, removing a directory that is the parent
-- of some entry replies ENOTEMPTY and changes nothing.
pub rmdir_refuses :
    (w : World) (parent : ℕ) (name : List ℕ) (s : VexFs) (v child : Value) (k : Key)
    → IsIndex s.index
    → Keys IsPlain (contents s.index)
    → index_map s (new_key parent name) ≡ some v
    → v.is_dir ≡ true
    → index_map s k ≡ some child
    → k.parent_ino ≡ v.ino
    → rmdir w parent name s ≡ some (error enotempty, s)
rmdir_refuses w parent name s v child k i plain there dir at below =
    rmdir_at-refuses w parent name s v i there dir (
      is_empty_dir-children v.ino s i plain (
        subst (λ p. children_of p (contents s.index) ≢ []) below
          (children_of-find k child (contents s.index) at)))
