-- ===== src/Serialize/Bitmap.antt =====
-- The endpoint bitmap of src/serialize.rs: one bit for each possible endpoint, lowest bit first.
pub mod Bits
pub mod RoundTrip
pub mod Count
use sedsprintf_rs.Prelude.{
  ℕ, zero, suc, ◌+◌, ◌-◌, ◌*◌, ◌/◌, ◌%◌, ◌^◌, ◌<◌, Bool, true, false, not, List, [], ◌∷◌, ◌++◌,
  length, get_or, set, replicate, ltb, ◌==◌, if◌then◌else◌, bit_or, bit_at,
}
use sedsprintf_rs.Error.{Result, ok, err, deserialize, ◌>>=◌, ◌>>◌, fail_if, ok_or}
use sedsprintf_rs.Schema.{Schema, max_value_data_endpoint, try_enum_from_u32}

-- `u8::count_ones`.
unfoldable pub count_ones : ℕ → ℕ
count_ones b =
    bit_at b 0
    + bit_at b 1
    + bit_at b 2
    + bit_at b 3
    + bit_at b 4
    + bit_at b 5
    + bit_at b 6
    + bit_at b 7

unfoldable pub bitmap_popcount : List ℕ → ℕ
bitmap_popcount [] = 0
bitmap_popcount (b ∷ bm) = count_ones b + bitmap_popcount bm

-- `bm[byte] |= 1u8 << bit`.
unfoldable pub set_bit : List ℕ → ℕ → List ℕ
set_bit bm idx = set bm (idx / 8) (bit_or (get_or bm (idx / 8) 0) (2 ^ (idx % 8)))

-- `(bm[byte] >> bit) & 1 != 0`.
unfoldable pub get_bit : List ℕ → ℕ → Bool
get_bit bm idx = not (bit_at (get_or bm (idx / 8) 0) (idx % 8) == 0)

unfoldable pub build_loop : ℕ → List ℕ → List ℕ → List ℕ
build_loop bits bm [] = bm
build_loop bits bm (idx ∷ eps) = build_loop bits (if ltb idx bits then set_bit bm idx else bm) eps

-- `for idx in 0..EP_BITMAP_BITS`: the rounds left, and the index. `arr[..len]` is the list so far.
unfoldable pub expand_loop : ℕ → ℕ → ℕ → List ℕ → List ℕ → Result (List ℕ)
expand_loop max_value zero idx bm arr = ok arr
expand_loop max_value (suc rounds) idx bm arr =
    let marked =
      ok_or (try_enum_from_u32 max_value idx) (deserialize "bad endpoint bit set") >>= λ ep.
      expand_loop max_value rounds (idx + 1) bm (arr ++ ep ∷ []) in
    let unmarked = expand_loop max_value rounds (idx + 1) bm arr in
    if get_bit bm idx then marked else unmarked

module _ (s : Schema) where
  abbrev pub ep_bitmap_bits : ℕ
  ep_bitmap_bits = max_value_data_endpoint s + 1

  -- `EP_BITMAP_BITS.div_ceil(8)`.
  abbrev pub ep_bitmap_bytes : ℕ
  ep_bitmap_bytes = (ep_bitmap_bits + 7) / 8

  unfoldable pub build_endpoint_bitmap : List ℕ → List ℕ
  build_endpoint_bitmap eps = build_loop ep_bitmap_bits (replicate ep_bitmap_bytes 0) eps

  unfoldable pub expand_endpoint_bitmap : List ℕ → Result (List ℕ)
  expand_endpoint_bitmap bm = do
    fail_if (not (length bm == ep_bitmap_bytes)) (deserialize "bad endpoint bitmap size")
    expand_loop (max_value_data_endpoint s) ep_bitmap_bits 0 bm []
