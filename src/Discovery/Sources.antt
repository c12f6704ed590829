-- ===== src/Discovery/Sources.antt =====
-- The announcements of endpoints and of time sources: the builders and the decoders of src/discovery.rs.
-- What is left of a payload stands for the cursor in it.
pub mod RoundTrip
use sedsprintf_rs.Prelude.{
  String, ℕ, zero, suc, ◌+◌, ◌*◌, ◌/◌, ◌%◌, Bool, true, false, not, Option, none, some, List, [],
  ◌∷◌, ◌++◌, length, take, drop, is_empty, ltb, ◌==◌, if◌then◌else◌, u32_mod,
}
use sedsprintf_rs.Prelude.Strings.{str_lt, str_eq}
use sedsprintf_rs.Prelude.Sorting.{sort, dedup}
use sedsprintf_rs.Error.{
  Result, ok, err, invalid_type, deserialize, serialize, ◌>>=◌, ◌>>◌, fail_if, ok_or,
}
use sedsprintf_rs.Schema.{Schema, max_value_data_endpoint, try_enum_from_u32}
use sedsprintf_rs.External.{External}
use sedsprintf_rs.Packet.{Packet, new}
use sedsprintf_rs.Packet.Typed.{from_le_bytes}
use sedsprintf_rs.Serialize.Reader.{to_le_bytes32}

-- The endpoint and the types of discovery: generated code, like the schema.
pub record DiscoverySchema : Type 0 where
  pub endpoint : ℕ
  pub announce : ℕ
  pub timesync_sources : ℕ
  pub topology : ℕ

unfoldable pub is_discovery_endpoint : DiscoverySchema → ℕ → Bool
is_discovery_endpoint ds ep = ep == ds.endpoint

unfoldable pub sort_dedup_strings : List (List ℕ) → List (List ℕ)
sort_dedup_strings strings = dedup str_eq (sort str_lt strings)

unfoldable pub sort_dedup_numbers : List ℕ → List ℕ
sort_dedup_numbers numbers = dedup ◌==◌ (sort ltb numbers)

-- A `u32` and what is left after it.
unfoldable pub read_word : String → List ℕ → Result (ℕ × List ℕ)
read_word label rest = do
  fail_if (ltb (length rest) 4) (deserialize label)
  ok (from_le_bytes (take 4 rest), drop 4 rest)

-- So many bytes and what is left after them.
unfoldable pub read_string : String → ℕ → List ℕ → Result (List ℕ × List ℕ)
read_string label len rest = do
  fail_if (ltb (length rest) len) (deserialize label)
  ok (take len rest, drop len rest)

unfoldable pub put_string : List ℕ → List ℕ
put_string bytes = to_le_bytes32 (length bytes) ++ bytes

unfoldable pub put_strings : List (List ℕ) → List ℕ
put_strings [] = []
put_strings (s ∷ strings) = put_string s ++ put_strings strings

-- Whether each length is a `u32`.
unfoldable pub lengths_fit : List (List ℕ) → Bool
lengths_fit [] = true
lengths_fit (s ∷ strings) =
    let rest = lengths_fit strings in if ltb (length s) u32_mod then rest else false

-- The payload for sorted sources.
unfoldable pub sources_payload : List (List ℕ) → List ℕ
sources_payload sources = to_le_bytes32 (length sources % u32_mod) ++ put_strings sources

-- The words of the endpoints.
unfoldable pub put_words : List ℕ → List ℕ
put_words [] = []
put_words (w ∷ words) = to_le_bytes32 w ++ put_words words

abbrev pub keep_string : List ℕ → List (List ℕ) → List (List ℕ)
keep_string [] strings = strings
keep_string (b ∷ bytes) strings = (b ∷ bytes) ∷ strings

module _ (x : External) where
  unfoldable pub read_sources : ℕ → List ℕ → Result (List (List ℕ) × List ℕ)
  read_sources zero rest = ok ([], rest)
  read_sources (suc count) rest = do
    word ← read_word "discovery timesync source len" rest
    text ← read_string "discovery timesync source bytes" (word.0) (word.1)
    fail_if (not (x.from_utf8 (text.0))) (deserialize "discovery timesync source utf8")
    others ← read_sources count (text.1)
    ok (keep_string (text.0) (others.0), others.1)

  unfoldable pub decode_discovery_timesync_sources_payload : List ℕ → Result (List (List ℕ))
  decode_discovery_timesync_sources_payload payload = do
    word ← read_word "discovery timesync source count" payload
    read ← read_sources (word.0) (word.1)
    fail_if (not (is_empty (read.1))) (deserialize "discovery timesync trailing bytes")
    ok (sort_dedup_strings (read.0))

module _ (s : Schema) (ds : DiscoverySchema) where
  -- The endpoints of so many words, without that of discovery.
  unfoldable pub read_endpoint_words : ℕ → List ℕ → Result (List ℕ)
  read_endpoint_words zero payload = ok []
  read_endpoint_words (suc count) payload = do
    ep ←
        ok_or (try_enum_from_u32 (max_value_data_endpoint s) (from_le_bytes (take 4 payload)))
          (deserialize "bad discovery endpoint")
    others ← read_endpoint_words count (drop 4 payload)
    ok (if is_discovery_endpoint ds ep then others else ep ∷ others)

  unfoldable pub decode_discovery_payload : List ℕ → Result (List ℕ)
  decode_discovery_payload payload = do
    fail_if (not (length payload % 4 == 0)) (deserialize "discovery payload width")
    endpoints ← read_endpoint_words (length payload / 4) payload
    ok (sort_dedup_numbers endpoints)

  unfoldable pub decode_discovery_announce : Packet → Result (List ℕ)
  decode_discovery_announce p = do
    fail_if (not (p.ty == ds.announce)) invalid_type
    decode_discovery_payload p.payload

module _ (s : Schema) (x : External) (ds : DiscoverySchema) where
  unfoldable pub build_discovery_announce : List ℕ → ℕ → List ℕ → Result Packet
  build_discovery_announce sender timestamp_ms endpoints =
      new s x ds.announce (ds.endpoint ∷ []) sender timestamp_ms (put_words endpoints)

  unfoldable pub build_discovery_timesync_sources : List ℕ → ℕ → List (List ℕ) → Result Packet
  build_discovery_timesync_sources sender timestamp_ms sources = do
    fail_if (not (lengths_fit (sort_dedup_strings sources)))
        (serialize "discovery source id too long")
    new s x ds.timesync_sources (ds.endpoint ∷ []) sender timestamp_ms
        (sources_payload (sort_dedup_strings sources))

  unfoldable pub decode_discovery_timesync_sources : Packet → Result (List (List ℕ))
  decode_discovery_timesync_sources p = do
    fail_if (not (p.ty == ds.timesync_sources)) invalid_type
    decode_discovery_timesync_sources_payload x p.payload
