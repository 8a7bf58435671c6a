-- ===== src/Disk/Result.antt =====
-- src/fs/disk.rs: `DiskError`, `DiskResult` and `verify_crc32`.
use vexfs.Base.{ℕ, List, ◌==◌, if◌then◌else◌}

-- `io` stands for every `std::io::Error`; its text is not modelled.
pub data DiskError : Type 0 where
  io : DiskError
  bad_magic : ℕ → ℕ → DiskError
  bad_checksum : ℕ → ℕ → DiskError
  size_mismatch : ℕ → ℕ → DiskError

-- `panic` is a failed `assert!` or a slice index out of range.
pub data DiskResult {ℓ} (A : Type ℓ) : Type ℓ where
  ok : A → DiskResult A
  err : DiskError → DiskResult A
  panic : DiskResult A

infixl 5 ◌>>=◌ ◌>>◌
abbrev pub ◌>>=◌ {ℓ κ} :
    {A : Type ℓ} {B : Type κ} → DiskResult A → (A → DiskResult B) → DiskResult B
ok a >>= f = f a
err e >>= f = err e
panic >>= f = panic

abbrev pub ◌>>◌ {ℓ} : {B : Type ℓ} → DiskResult (Unit {0}) → DiskResult B → DiskResult B
m >> k = m >>= λ _. k

module _ (crc32 : List ℕ → ℕ) where
  unfoldable pub verify_crc32 : List ℕ → ℕ → DiskResult (Unit {0})
  verify_crc32 bytes stored =
      let computed = crc32 bytes in
      if computed == stored then ok tt else err (bad_checksum stored computed)
