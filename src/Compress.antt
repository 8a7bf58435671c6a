-- ===== src/Compress.antt =====
-- src/fs/compress.rs: compression with a header. The crate zstd is a parameter: `encode` is
-- `encode_all` at level 3, `decode` the bytes that a decoder reads up to the end or an error.
mod Stored
mod Runs
use vexfs.Base.{
  ℕ, ◌+◌, ◌%◌, ◌^◌, List, [], ◌∷◌, ◌++◌, Option, none, some, Bool, true, false, ◌&&◌, leb, ltb,
  ◌==◌, if◌then◌else◌, length, take, drop,
}
use vexfs.Base.Bytes.{u32_to_le, le_to_u32}

abbrev pub compress_magic : ℕ
compress_magic = 0x5A535444

abbrev pub compress_header_size : ℕ
compress_header_size = 8

abbrev pub header : List ℕ → List ℕ
header bytes = u32_to_le compress_magic ++ u32_to_le (length bytes % 2 ^ 32)

unfoldable pub is_compressed : List ℕ → Bool
is_compressed bytes = leb 4 (length bytes) && le_to_u32 (take 4 bytes) == compress_magic

module _ (encode : List ℕ → Option (List ℕ)) (decode : List ℕ → List ℕ) where
  -- `encode_all(..).unwrap_or_else(..)`.
  abbrev pub encoded : List ℕ → List ℕ
  encoded bytes = elim (encode bytes) [ none ↦ bytes | some c ↦ c ]

  unfoldable pub compress : List ℕ → List ℕ
  compress bytes =
      if ltb (length bytes) 512
      then bytes
      else if leb (length bytes) (length (encoded bytes))
      then bytes
      else header bytes ++ encoded bytes

  unfoldable pub decompress : List ℕ → List ℕ
  decompress bytes =
      if ltb (length bytes) compress_header_size
      then bytes
      else if le_to_u32 (take 4 bytes) == compress_magic
      then decode (drop compress_header_size bytes)
      else bytes
