-- ===== src/Compress/Runs.antt =====
-- Runs of the compression with a codec for runs of zeros, and the theorems at them.
use vexfs.Base.{
  ℕ, ◌≡◌, refl, List, [], ◌∷◌, ◌++◌, Option, none, some, Bool, true, false, ◌==◌, if◌then◌else◌,
  length, replicate, arith,
}
use vexfs.Compress.{header, compress_magic, is_compressed, compress, decompress}
use vexfs.Compress.Stored.{Decodes, decompress-compress, decompress_misreads}
use vexfs.Base.Bytes.{u32_to_le, le_to_u32}

unfoldable all_zero : List ℕ → Bool
all_zero [] = true
all_zero (b ∷ bs) = let rest = all_zero bs in if b == 0 then rest else false

unfoldable encode : List ℕ → Option (List ℕ)
encode bytes = if all_zero bytes then some (length bytes ∷ []) else none

unfoldable decode : List ℕ → List ℕ
decode [] = []
decode (n ∷ bytes) = replicate n 0

replicate-length : (bytes : List ℕ) → all_zero bytes ≡ true → replicate (length bytes) 0 ≡ bytes
unfolding all_zero
replicate-length [] h = refl
replicate-length (b ∷ bs) h = ground (arith, replicate-length bs)

encode-Decodes : Decodes encode decode
unfolding encode decode
encode-Decodes bytes c h = ground (arith, replicate-length bytes)

compress_test : compress encode decode (replicate 600 0) ≡ header (replicate 600 0) ++ (600 ∷ [])
unfolding compress encode all_zero
compress_test = refl

decompress-compress_example :
    decompress encode decode (compress encode decode (replicate 600 0)) ≡ replicate 600 0
unfolding is_compressed le_to_u32
decompress-compress_example =
    decompress-compress encode decode encode-Decodes (replicate 600 0) refl

-- The magic number and six more bytes.
abbrev marked : List ℕ
marked = u32_to_le compress_magic ++ (1 ∷ 2 ∷ 3 ∷ 4 ∷ 5 ∷ 6 ∷ [])

decompress_misreads_example :
    decompress encode decode (compress encode decode marked) ≡ decode (5 ∷ 6 ∷ [])
unfolding is_compressed compress u32_to_le le_to_u32
decompress_misreads_example =
    decompress_misreads encode decode encode-Decodes marked refl (omega arith)
