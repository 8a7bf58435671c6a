-- ===== src/Fuse/Links.antt =====
-- src/fuse/mod.rs: about the links from the index to the map of files, for the changes that the
-- calls make to both.
use vexfs.Base.{
  ℕ, ◌+◌, ◌<◌, ◌≡◌, ◌≢◌, refl, sym, ap, ◌∙◌, List, Option, none, some, true, ◌==◌, if◌then◌else◌,
  Bool-cases, inl, inr, arith,
}
use vexfs.Base.Map.{lookup, lookup-insert, lookup-remove_ne}
use vexfs.Base.Map
use vexfs.Btree.Order.{Key, key_eq, eq_of_key_cmp, key_cmp_refl}
use vexfs.Btree.Tree.{Value}
use vexfs.Fuse.{VexFile}

-- The file of an entry, under the parent and the name of its key.
abbrev pub Named : Key → Value → List (ℕ × VexFile) → Type 0
Named k v files =
    (f : VexFile) × (lookup v.ino files ≡ some f)
    × (f.parent_ino ≡ k.parent_ino)
    × (f.name ≡ k.name)

-- Every entry has its file, and its inode is below the next one.
abbrev pub Links : (Key → Option Value) → List (ℕ × VexFile) → ℕ → Type 0
Links m files next = (k : Key) (v : Value) → m k ≡ some v → Named k v files × (v.ino < next)

pub Links-ext :
    (m n : Key → Option Value) (files : List (ℕ × VexFile)) (next : ℕ)
    → ((k : Key) → n k ≡ m k)
    → Links m files next
    → Links n files next
Links-ext m n files next e l k v at = l k v (sym (e k) ∙ at)

-- The map with an entry put in or taken out.
abbrev pub with_entry : Key → Option Value → (Key → Option Value) → Key → Option Value
with_entry key v m k = if key_eq key k then v else m k

key_of_eq : (a b : Key) → key_eq a b ≡ true → a ≡ b
key_of_eq a b h = eq_of_key_cmp a b (ground (arith, h))

key_ext : (a b : Key) → a.parent_ino ≡ b.parent_ino → a.name ≡ b.name → key_eq a b ≡ true
key_ext a b p n =
    let e : a ≡ b =
      ap (λ parent. record { parent_ino = parent; name = a.name }) p
      ∙ ap (λ name. record { parent_ino = b.parent_ino; name = name }) n in
    rw (← e) (ground (arith, key_cmp_refl a))

-- An inode is the file of one entry.
one_key :
    (m : Key → Option Value) (files : List (ℕ × VexFile)) (next : ℕ)
    → Links m files next
    → (a b : Key) (v w : Value) → m a ≡ some v
    → m b ≡ some w
    → v.ino ≡ w.ino
    → key_eq a b ≡ true
one_key m files next l a b v w ma mb same =
    let ((f, at_f, pf, nf), _) = l a v ma in
    let ((g, at_g, pg, ng), _) = l b w mb in
    let e : f ≡ g = cc in
    key_ext a b (sym pf ∙ (ap (λ (x : VexFile). x.parent_ino) e ∙ pg))
      (sym nf ∙ (ap (λ (x : VexFile). x.name) e ∙ ng))

module _ (m : Key → Option Value) (files : List (ℕ × VexFile)) (next : ℕ)
    (l : Links m files next) where
  -- A new inode.
  pub Links-add :
      (key : Key) (v : Value) (f : VexFile)
      → v.ino ≡ next
      → f.parent_ino ≡ key.parent_ino
      → f.name ≡ key.name
      → Links (with_entry key (some v) m) (Map.insert next f files) (next + 1)
  Links-add key v f new p n k x at = elim (Bool-cases (key_eq key k)) [
    | inl same ↦
        let e : key ≡ k = key_of_eq key k same in
        let e' : v ≡ x = ground (arith, at, same) in
        (
          (
            f,
            rw (← e', new, lookup-insert next next f files) (ground arith),
            p ∙ ap (λ (y : Key). y.parent_ino) e,
            n ∙ ap (λ (y : Key). y.name) e,
          ),
          ground (arith, e', new),
        )
    | inr other ↦
        let ((g, at_g, pg, ng), below) = l k x (ground (arith, at, other)) in
        (
          (g, rw (lookup-insert next x.ino f files) (ground (arith, at_g, below)), pg, ng),
          omega arith,
        )
  ]

  pub Links-remove : (key : Key) → Links (with_entry key none m) files next
  Links-remove key k x at = elim (Bool-cases (key_eq key k)) [
    | inl same ↦ absurd (ground (arith, at, same))
    | inr other ↦ l k x (ground (arith, at, other))
  ]

  -- An entry and its file.
  pub Links-remove_file :
      (key : Key) (v : Value)
      → m key ≡ some v
      → Links (with_entry key none m) (Map.remove v.ino files) next
  Links-remove_file key v at k x at' = elim (Bool-cases (key_eq key k)) [
    | inl same ↦ absurd (ground (arith, at', same))
    | inr other ↦
        let there : m k ≡ some x = ground (arith, at', other) in
        let ((g, at_g, pg, ng), below) = l k x there in
        let apart : v.ino ≢ x.ino =
          λ same. absurd (ground (arith, other, one_key m files next l key k v x at there same)) in
        ((g, lookup-remove_ne v.ino x.ino files apart ∙ at_g, pg, ng), below)
  ]

  pub Links-update :
      (ino : ℕ) (f g : VexFile)
      → lookup ino files ≡ some f
      → g.parent_ino ≡ f.parent_ino
      → g.name ≡ f.name
      → Links m (Map.insert ino g files) next
  Links-update ino f g at p n k x at' =
      let ((h, at_h, ph, nh), below) = l k x at' in
      elim (Bool-cases (ino == x.ino)) [
        | inl same ↦
            let e : ino ≡ x.ino = ground arith in
            let e' : some f ≡ some h = sym at ∙ (ap (λ i. lookup i files) e ∙ at_h) in
            let e'' : f ≡ h = cc in
            (
              (
                g,
                rw (lookup-insert ino x.ino g files, same) refl,
                p ∙ (ap (λ (y : VexFile). y.parent_ino) e'' ∙ ph),
                n ∙ (ap (λ (y : VexFile). y.name) e'' ∙ nh),
              ),
              below,
            )
        | inr other ↦ ((h, rw (lookup-insert ino x.ino g files, other) at_h, ph, nh), below)
      ]

  pub Links-move :
      (key new : Key) (v : Value) (g : VexFile)
      → m key ≡ some v
      → g.parent_ino ≡ new.parent_ino
      → g.name ≡ new.name
      → Links (with_entry new (some v) (with_entry key none m)) (Map.insert v.ino g files) next
  Links-move key new v g at p n k x at' = elim (Bool-cases (key_eq new k)) [
    | inl same ↦
        let e : new ≡ k = key_of_eq new k same in
        let e' : v ≡ x = ground (arith, at', same) in
        (
          (
            g,
            rw (← e', lookup-insert v.ino v.ino g files) (ground arith),
            p ∙ ap (λ (y : Key). y.parent_ino) e,
            n ∙ ap (λ (y : Key). y.name) e,
          ),
          rw (← e') (l key v at).1,
        )
    | inr other ↦ elim (Bool-cases (key_eq key k)) [
      | inl gone ↦ absurd (ground (arith, at', other, gone))
      | inr kept ↦
          let there : m k ≡ some x = ground (arith, at', other, kept) in
          let ((h, at_h, ph, nh), below) = l k x there in
          let apart : v.ino ≢ x.ino =
            λ same. absurd (ground (arith, kept, one_key m files next l key k v x at there same)) in
          ((h, rw (lookup-insert v.ino x.ino g files) (ground (arith, apart, at_h)), ph, nh), below)
    ]
  ]
