-- ===== src/Fuse/Steps.antt =====
-- src/fuse/mod.rs: about the methods as steps on the state.
use mathlib.Core.Path.{subst}
use vexfs.Base.{◌≡◌, sym, Option, none, some, Bool, true, false, if◌then◌else◌}
use vexfs.Disk.Result.{DiskResult, ok, err, panic}
use vexfs.File.{Exec}
use vexfs.DiskManager.{Image}
use vexfs.Fuse.{VexFs, Fs, ◌>>=◌, pure, modify, on_disk}

-- What holds of the result and of the state that is left, if there is no panic.
abbrev pub Leaves : {A : Type 0} → (A → VexFs → Type 0) → Option (A × VexFs) → Type 0
Leaves Q none = Unit {0}
Leaves Q (some (a, s)) = Q a s

module _ {A B : Type 0} (Q : B → VexFs → Type 0) where
  pub Leaves-bind :
      (R : A → VexFs → Type 0) (o : Option (A × VexFs)) (f : A → Fs B)
      → Leaves R o
      → ((a : A) (s : VexFs) → R a s → Leaves Q (f a s))
      → Leaves Q (elim o [ none ↦ none | some (a, s) ↦ f a s ])
  Leaves-bind R none f h k = tt
  Leaves-bind R (some (a, s)) f h k = k a s h

  -- A value that is known.
  pub Leaves-some :
      (n : Option (B × VexFs)) (f : A → Option (B × VexFs)) (o : Option A) (a : A)
      → o ≡ some a
      → Leaves Q (f a)
      → Leaves Q (elim o [ none ↦ n | some x ↦ f x ])
  Leaves-some n f o a e h = subst (λ p. Leaves Q (elim p [ none ↦ n | some x ↦ f x ])) (sym e) h

  pub Leaves-option :
      (n : Option (B × VexFs)) (f : A → Option (B × VexFs))
      → (o : Option A) → Leaves Q n
      → ((a : A) → Leaves Q (f a))
      → Leaves Q (elim o [ none ↦ n | some a ↦ f a ])
  Leaves-option n f none h k = h
  Leaves-option n f (some a) h k = k a

module _ {B : Type 0} (Q : B → VexFs → Type 0) where
  pub Leaves-if :
      (x y : Option (B × VexFs))
      → (b : Bool) → Leaves Q x
      → Leaves Q y
      → Leaves Q (if b then x else y)
  Leaves-if x y true h k = h
  Leaves-if x y false h k = k

pub Leaves-imp :
    {B : Type 0} (Q R : B → VexFs → Type 0) (o : Option (B × VexFs))
    → ((b : B) (s : VexFs) → Q b s → R b s)
    → Leaves Q o
    → Leaves R o
Leaves-imp Q R none k h = tt
Leaves-imp Q R (some (b, s)) k h = k b s h

-- The method keeps what holds of the state.
pub record Preserves {A : Type 0} (P : VexFs → Type 0) (m : Fs A) : Type 0 where
  pub keeps : (s : VexFs) → P s → Leaves (λ a. P) (m s)

module _ (P : VexFs → Type 0) where
  pub Preserves-bind :
      {A B : Type 0} {m : Fs A} {f : A → Fs B}
      → Preserves P m
      → ((a : A) → Preserves P (f a))
      → Preserves P (m >>= f)
  Preserves-bind {m = m} {f = f} h k = record {
    keeps = λ s p. Leaves-bind (λ b. P) (λ a. P) (m s) f (h.keeps s p) (λ a. (k a).keeps);
  }

  pub Preserves-pure : {A : Type 0} (a : A) → Preserves P (pure a)
  Preserves-pure a = record { keeps = λ s p. p }

  pub Preserves-modify :
      (f : VexFs → VexFs) → ((s : VexFs) → P s → P (f s)) → Preserves P (modify f)
  Preserves-modify f h = record { keeps = h }

  pub Preserves-option :
      {A B : Type 0} {n : Fs B} {f : A → Fs B}
      → (o : Option A) → Preserves P n
      → ((a : A) → Preserves P (f a))
      → Preserves P (elim o [ none ↦ n | some a ↦ f a ])
  Preserves-option none h k = h
  Preserves-option (some a) h k = k a

  pub Preserves-if :
      {B : Type 0} {x y : Fs B}
      → (b : Bool) → Preserves P x
      → Preserves P y
      → Preserves P (if b then x else y)
  Preserves-if true h k = h
  Preserves-if false h k = k

  leave : {A : Type 0} → VexFs → DiskResult A × Image → Option (DiskResult A × VexFs)
  leave s (r, image) = elim r [
    | ok a ↦ some (ok a, record s { disk = image })
    | err e ↦ some (err e, record s { disk = image })
    | panic ↦ none
  ]

  leave_at :
      {A : Type 0} (s : VexFs)
      → ((image : Image) → P (record s { disk = image }))
      → (x : DiskResult A × Image) → Leaves (λ a. P) (leave s x)
  unfolding leave
  leave_at s h (ok a, image) = h image
  leave_at s h (err e, image) = h image
  leave_at s h (panic, image) = tt

  -- A method of the disk manager changes the image alone.
  pub Preserves-on_disk :
      {A : Type 0} (m : Exec Image A)
      → ((s : VexFs) (image : Image) → P s → P (record s { disk = image }))
      → Preserves P (on_disk m)
  unfolding on_disk leave
  Preserves-on_disk m h = record { keeps = λ s p. leave_at s (λ image. h s image p) (m s.disk) }
