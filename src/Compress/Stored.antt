-- ===== src/Compress/Stored.antt =====
-- src/fs/compress.rs: about `compress`, then `decompress`.
use vexfs.Base.{
  ℕ, ◌≡◌, refl, ◌∙◌, ◌≤◌, List, ◌++◌, Option, none, some, Bool, true, false, ◌&&◌, if◌then◌else◌,
  leb, ltb, length, drop, arith, Bool-cases, Option-cases, inl, inr,
}
use vexfs.Base.Bytes.{u32_to_le, le_to_u32}
use vexfs.Compress.{compress_header_size, header, is_compressed, compress, decompress, encoded}

module _ (encode : List ℕ → Option (List ℕ)) (decode : List ℕ → List ℕ) where
  -- The documented behaviour of zstd: what was encoded is decoded.
  abbrev pub Decodes : Type 0
  Decodes = (bytes c : List ℕ) → encode bytes ≡ some c → decode c ≡ bytes

  decompress-plain :
      (bytes : List ℕ) → is_compressed bytes ≡ false → decompress encode decode bytes ≡ bytes
  unfolding decompress is_compressed
  decompress-plain bytes h = ground arith

  decompress-header : (bytes c : List ℕ) → decompress encode decode (header bytes ++ c) ≡ decode c
  unfolding decompress u32_to_le le_to_u32
  decompress-header bytes c = ground arith

  decompress-stored :
      Decodes
      → (bytes : List ℕ) → leb (length bytes) (length (encoded encode decode bytes)) ≡ false
      → decompress encode decode (header bytes ++ encoded encode decode bytes) ≡ bytes
  decompress-stored zstd bytes smaller = elim (Option-cases (encode bytes)) [
    | inl failed ↦ absurd (ground (arith, failed, smaller))
    | inr (c, stored) ↦
        decompress-header bytes (encoded encode decode bytes)
        ∙ rw (stored, encoded) (zstd bytes c stored)
  ]

  -- If zstd decodes what it encoded, data that does not start with the magic number is read back
  -- from what is stored for it, compressed or not.
  pub decompress-compress :
      Decodes
      → (bytes : List ℕ) → is_compressed bytes ≡ false
      → decompress encode decode (compress encode decode bytes) ≡ bytes
  unfolding compress
  decompress-compress zstd bytes plain = elim (Bool-cases (ltb (length bytes) 512)) [
    | inl short ↦ rw short (decompress-plain bytes plain)
    | inr long ↦ elim (Bool-cases (leb (length bytes) (length (encoded encode decode bytes)))) [
      | inl larger ↦ rw (long, larger) (decompress-plain bytes plain)
      | inr smaller ↦ rw (long, smaller) (decompress-stored zstd bytes smaller)
    ]
  ]

  -- It is stored compressed: it has at least 512 bytes, and zstd encodes it in fewer than it has.
  abbrev pub shrinks : List ℕ → Bool
  shrinks bytes =
      leb 512 (length bytes)
      && elim (encode bytes) [ none ↦ false | some c ↦ ltb (length c) (length bytes) ]

  decompress-marked :
      (bytes : List ℕ)
      → is_compressed bytes ≡ true
      → compress_header_size ≤ length bytes
      → decompress encode decode bytes ≡ decode (drop 8 bytes)
  unfolding decompress is_compressed
  decompress-marked bytes marked long = ground arith

  shrinks-encoded :
      (bytes : List ℕ)
      → shrinks bytes
        ≡ (leb 512 (length bytes) && ltb (length (encoded encode decode bytes)) (length bytes))
  shrinks-encoded bytes = elim (Option-cases (encode bytes)) [
    | inl failed ↦ rw failed (ground arith)
    | inr (c, stored) ↦ rw (stored, encoded) refl
  ]

  -- If zstd decodes what it encoded, data of at least 8 bytes that starts with the magic number is
  -- read back from what is stored for it if it has at least 512 bytes and zstd encodes it in fewer
  -- bytes than it has; otherwise what zstd decodes of it from byte 8 on is read in its place.
  pub decompress_misreads :
      Decodes
      → (bytes : List ℕ) → is_compressed bytes ≡ true
      → compress_header_size ≤ length bytes
      → decompress encode decode (compress encode decode bytes)
        ≡ (if shrinks bytes then bytes else decode (drop 8 bytes))
  unfolding compress
  decompress_misreads zstd bytes marked long =
      let plain = decompress-marked bytes marked long in
      rw (shrinks-encoded bytes) (elim (Bool-cases (ltb (length bytes) 512)) [
        | inl short ↦ let no : leb 512 (length bytes) ≡ false = ground arith in rw (short, no) plain
        | inr enough ↦
            let yes : leb 512 (length bytes) ≡ true = ground arith in
            elim (Bool-cases (leb (length bytes) (length (encoded encode decode bytes)))) [
              | inl larger ↦
                  let no : ltb (length (encoded encode decode bytes)) (length bytes) ≡ false =
                    ground arith in
                  rw (enough, yes, larger, no) plain
              | inr smaller ↦
                  let less : ltb (length (encoded encode decode bytes)) (length bytes) ≡ true =
                    ground arith in
                  rw (enough, yes, smaller, less) (decompress-stored zstd bytes smaller)
            ]
      ])
