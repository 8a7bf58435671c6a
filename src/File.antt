-- ===== src/File.antt =====
-- The image file, as `std::fs::File` serves it, and src/fs/disk.rs: `read_bytes`, `read_vec` and
-- `write_bytes`.
pub mod Ranges
use vexfs.Base.{
  ℕ, zero, suc, ◌+◌, ◌-◌, List, [], ◌∷◌, Bool, true, false, ◌&&◌, ltb, leb, ◌==◌, if◌then◌else◌,
  length, get_or, max,
}
use vexfs.Disk.Result.{DiskResult, ok, err, panic, io}

-- `at` gives the bytes below `size`. `budget` counts the writes that still succeed: the write after
-- them fails, and so does every later one. That is an I/O error, or a power cut, at any point.
pub record File : Type 0 where
  pub size : ℕ
  pub at : ℕ → ℕ
  pub budget : ℕ

-- A method over a state returns its result beside the state that it leaves, also on an error.
abbrev pub Exec : Type 0 → Type 0 → Type 0
Exec S A = S → DiskResult A × S

-- The rest of a method behind `?`.
abbrev pub after : {S A B : Type 0} → DiskResult A → (A → Exec S B) → Exec S B
after (ok a) f s = f a s
after (err e) f s = (err e, s)
after panic f s = (panic, s)

infixl 10 ◌>>=◌ ◌>>◌
abbrev pub ◌>>=◌ : {S A B : Type 0} → Exec S A → (A → Exec S B) → Exec S B
◌>>=◌ m f s = let (r, s') = m s in after r f s'

abbrev pub ◌>>◌ : {S B : Type 0} → Exec S (Unit {0}) → Exec S B → Exec S B
m >> n = m >>= λ _. n

abbrev pub pure : {S A : Type 0} → A → Exec S A
pure a s = (ok a, s)

-- The bytes of the file after `bytes` are written at `offset`.
abbrev pub overwrite : (ℕ → ℕ) → ℕ → List ℕ → ℕ → ℕ
overwrite at offset bytes i =
    if leb offset i && ltb i (offset + length bytes) then get_or bytes (i - offset) 0 else at i

-- `seek` and `write_all`. An empty buffer is not a write.
unfoldable pub write_bytes : ℕ → List ℕ → Exec File (Unit {0})
write_bytes offset bytes f =
    if length bytes == 0 then (ok tt, f) else if f.budget == 0 then (err io, f) else (
      ok tt,
      record f {
        size = max f.size (offset + length bytes);
        at = overwrite f.at offset bytes;
        budget = f.budget - 1;
      },
    )

-- The `len` bytes from `offset`.
unfoldable pub bytes_at : (ℕ → ℕ) → ℕ → ℕ → List ℕ
bytes_at at offset zero = []
bytes_at at offset (suc len) = at offset ∷ bytes_at at (offset + 1) len

-- `seek` and `read_exact`, which fails at the end of the file.
unfoldable pub read_bytes : ℕ → ℕ → File → DiskResult (List ℕ)
unfolding bytes_at
read_bytes offset len f =
    if leb (offset + len) f.size then ok (bytes_at f.at offset len) else err io

unfoldable pub read_vec : ℕ → ℕ → File → DiskResult (List ℕ)
unfolding read_bytes
read_vec offset len f = if len == 0 then ok [] else read_bytes offset len f
