-- ===== src/Serialize/Compression/Laws.antt =====
-- What `compress_if_beneficial` promises to `decompress`.
use sedsprintf_rs.Prelude.{
  ℕ, ◌+◌, ◌-◌, ◌≤◌, ◌≡◌, Bool, true, false, ◌⊎◌, inl, inr, some, List, length, Option-cases, arith,
}
use sedsprintf_rs.Error.{ok}
use sedsprintf_rs.External.{External, ExternalLaws}
use sedsprintf_rs.Serialize.Compression.{
  payload_compress_threshold, compress_to_vec_bounded, compress_if_beneficial, decompress,
}

module _ (x : External) where
  -- The payload as it is, or bytes that decompress to it and save at least two.
  abbrev pub Sound : List ℕ → Bool × List ℕ → Type 0
  Sound payload r =
      ((r.0 ≡ false) × (r.1 ≡ payload))
      ⊎ ((r.0 ≡ true)
          × (decompress x r.1 (length payload) ≡ ok payload)
          × (payload_compress_threshold ≤ length payload)
          × (length r.1 + 2 ≤ length payload)
          × (1 ≤ length r.1))

  module _ (laws : ExternalLaws x) where
    decompress_compressed :
        (payload compressed : List ℕ) (room : ℕ)
        → compress_to_vec_bounded x payload room ≡ some compressed
        → decompress x compressed (length payload) ≡ ok payload
    unfolding compress_to_vec_bounded decompress
    decompress_compressed payload compressed room e =
        ground (arith, laws.decompress-compress payload compressed room)

    compressed_nonempty :
        (payload compressed : List ℕ) (room : ℕ)
        → compress_to_vec_bounded x payload room ≡ some compressed
        → 1 ≤ length compressed
    unfolding compress_to_vec_bounded
    compressed_nonempty payload compressed room e =
        ground (arith, laws.compress-nonempty payload compressed room)

    -- Given the compressor's documented behaviour, `compress_if_beneficial` returns either the payload
    -- itself, unflagged, or flagged bytes that `decompress` turns back into the payload at its length;
    -- these are at least one byte long, and it returns
    -- them only for a payload of at least the threshold, at a saving of two bytes or more.
    pub compress_if_beneficial-Sound :
        (payload : List ℕ) → Sound payload (compress_if_beneficial x payload)
    unfolding compress_if_beneficial
    compress_if_beneficial-Sound payload =
        elim (Option-cases (compress_to_vec_bounded x payload (length payload - 2))) [
          | inl e ↦ ground (arith, e)
          | inr (c, e) ↦ ground (
            arith,
            e,
            decompress_compressed payload c (length payload - 2) e,
            compressed_nonempty payload c (length payload - 2) e,
          )
        ]
