-- ===== src/Serialize/Compression.antt =====
-- `payload_compression` of src/serialize.rs with the feature `compression`, around zstd.
pub mod Laws
use sedsprintf_rs.Prelude.{
  ℕ, ◌+◌, ◌-◌, ◌≡◌, Bool, true, false, not, ◌||◌, Option, none, some, List, length, is_empty, ltb,
  leb, ◌==◌, if◌then◌else◌, saturating_sub, arith, ==_iff, ◌≤◌, ◌<◌, Option-cases, inl, inr,
}
use sedsprintf_rs.Error.{Result, ok, err, deserialize, ◌>>=◌, ◌>>◌, ok_or, fail_if}
use sedsprintf_rs.External.{External, ExternalLaws}

-- The default of src/config.rs.
abbrev pub payload_compress_threshold : ℕ
payload_compress_threshold = 128

module _ (x : External) where
  unfoldable pub compress_to_vec_bounded : List ℕ → ℕ → Option (List ℕ)
  compress_to_vec_bounded input max_output =
      if is_empty input || max_output == 0 then none else x.zstd_compress input max_output

  unfoldable pub compress_if_beneficial : List ℕ → Bool × List ℕ
  compress_if_beneficial payload =
      if ltb (length payload) payload_compress_threshold
      then (false, payload)
      else elim (compress_to_vec_bounded payload (saturating_sub (length payload) 2)) [
        | none ↦ (false, payload)
        | some compressed ↦
            if leb (length payload) (length compressed + 1)
            then (false, payload)
            else (true, compressed)
      ]

  unfoldable pub decompress : List ℕ → ℕ → Result (List ℕ)
  decompress compressed expected_len = do
    out ← ok_or (x.zstd_decompress compressed expected_len) (deserialize "decompression failed")
    fail_if (not (length out == expected_len)) (deserialize "decompressed size mismatch")
    ok out
