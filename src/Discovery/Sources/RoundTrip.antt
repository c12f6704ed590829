-- ===== src/Discovery/Sources/RoundTrip.antt =====
-- The decoder of the time sources reads what the builder wrote.
use mathlib.Core.Path.{subst}
use sedsprintf_rs.Prelude.{
  String, ℕ, suc, ◌<◌, ◌%◌, ◌≡◌, refl, sym, ap, ◌∙◌, true, false, not, List, [], ◌∷◌, ◌++◌,
  append_assoc, append-nil, length, length-append, Bool-cases, inl, inr, is_empty, ltb, ◌==◌,
  ==_iff, u32_mod, All, arith,
}
use sedsprintf_rs.Prelude.Strings.{str_lt, str_eq, str_lt_asymm, str_lt_irrefl, str_eq_sound}
use sedsprintf_rs.Prelude.Sorting.{StrictlyUp, sort_same, dedup_same}
use sedsprintf_rs.Error.{ok, fail_if_passed, serialize}
use sedsprintf_rs.Schema.{Schema}
use sedsprintf_rs.External.{External}
use sedsprintf_rs.Packet.{Packet, new}
use sedsprintf_rs.Packet.Checks.{new-validate}
use sedsprintf_rs.Packet.Typed.{from_le_bytes}
use sedsprintf_rs.Serialize.Reader.{to_le_bytes32}
use sedsprintf_rs.Serialize.Reader.Laws.{take-length, drop-length}
use sedsprintf_rs.Discovery.Sources.{
  DiscoverySchema, sort_dedup_strings, read_word, read_string, put_string, put_strings, lengths_fit,
  sources_payload, keep_string, read_sources, decode_discovery_timesync_sources_payload,
  build_discovery_timesync_sources, decode_discovery_timesync_sources,
}

read_word-back :
    (label : String) (n : ℕ) (rest : List ℕ)
    → n < u32_mod
    → read_word label (to_le_bytes32 n ++ rest) ≡ ok (n, rest)
unfolding read_word to_le_bytes32 from_le_bytes
read_word-back label n rest small =
    let long : ltb (length (to_le_bytes32 n ++ rest)) 4 ≡ false = ground arith in
    let number : from_le_bytes (to_le_bytes32 n) ≡ n = omega (arith, small) in
    rw long (ap (λ z. ok (z, rest)) number)

read_string-back :
    (label : String) (bytes rest : List ℕ)
    → read_string label (length bytes) (bytes ++ rest) ≡ ok (bytes, rest)
unfolding read_string
read_string-back label bytes rest =
    let total = length-append bytes rest in
    let long : ltb (length (bytes ++ rest)) (length bytes) ≡ false = ground (arith, total) in
    rw (long, take-length bytes rest, drop-length bytes rest) refl

module _ (x : External) where
  -- A name that a `u32` can measure, of valid text, and not empty.
  abbrev pub IsName : List ℕ → Type 0
  IsName s = (length s < u32_mod) × (x.from_utf8 s ≡ true) × (is_empty s ≡ false)

  keep_name :
      (s : List ℕ) (others : List (List ℕ)) → is_empty s ≡ false → keep_string s others ≡ s ∷ others
  keep_name [] others e = cc
  keep_name (b ∷ s) others e = refl

  read_sources-back :
      (sources : List (List ℕ)) (rest : List ℕ)
      → All IsName sources
      → read_sources x (length sources) (put_strings sources ++ rest) ≡ ok (sources, rest)
  unfolding read_sources put_strings put_string
  read_sources-back [] rest a = refl
  read_sources-back (s ∷ sources) rest ((short, text, some_text), a) =
      let tail = put_strings sources ++ rest in
      let shape : put_strings (s ∷ sources) ++ rest ≡ to_le_bytes32 (length s) ++ (s ++ tail) =
        append_assoc (to_le_bytes32 (length s) ++ s) (put_strings sources) rest
        ∙ append_assoc (to_le_bytes32 (length s)) s tail in
      ap (λ z. read_sources x (suc (length sources)) z) shape
      ∙ rw
          (
            read_word-back "discovery timesync source len" (length s) (s ++ tail) short,
            read_string-back "discovery timesync source bytes" s tail,
            text,
            read_sources-back sources rest a,
          )
          (ap (λ z. ok (z, rest)) (keep_name s sources some_text))

other_name : (a b : List ℕ) → str_lt a b ≡ true → str_eq b a ≡ false
other_name a b lt = elim (Bool-cases (str_eq b a)) [
  | inr other ↦ other
  | inl same ↦
      let here : str_lt a a ≡ true = subst (λ z. str_lt a z ≡ true) (str_eq_sound b a same) lt in
      let never = str_lt_irrefl a in cc
]

sort_dedup_strings_same :
    (sources : List (List ℕ)) → StrictlyUp str_lt sources → sort_dedup_strings sources ≡ sources
unfolding sort_dedup_strings
sort_dedup_strings_same sources up =
    rw (sort_same str_lt str_lt_asymm sources up) (dedup_same str_lt str_eq other_name sources up)

-- A packet that announces time sources, in order and each once, reads back as those sources. Each is a
-- name of valid text that is not empty, and there are fewer than 2 ^ 32 of them.
pub decode_discovery_timesync_sources-build :
    (s : Schema) (x : External) (ds : DiscoverySchema) (sender : List ℕ) (timestamp_ms : ℕ)
    (sources : List (List ℕ)) (p : Packet)
    → StrictlyUp str_lt sources
    → All (IsName x) sources
    → length sources < u32_mod
    → build_discovery_timesync_sources s x ds sender timestamp_ms sources ≡ ok p
    → decode_discovery_timesync_sources s x ds p ≡ ok sources
unfolding build_discovery_timesync_sources decode_discovery_timesync_sources sources_payload
    decode_discovery_timesync_sources_payload
decode_discovery_timesync_sources-build s x ds sender timestamp_ms sources p up names few e =
    let same = sort_dedup_strings_same sources up in
    let built =
      new s x ds.timesync_sources (ds.endpoint ∷ []) sender timestamp_ms
        (sources_payload (sort_dedup_strings sources)) in
    let (fit, e1) =
      fail_if_passed (not (lengths_fit (sort_dedup_strings sources)))
        (serialize "discovery source id too long") built e in
    let (valid, parts, ends) =
      new-validate s x ds.timesync_sources timestamp_ms (ds.endpoint ∷ []) sender
        (sources_payload (sort_dedup_strings sources)) p e1 in
    let ty : (ds.timesync_sources == ds.timesync_sources) ≡ true =
      (==_iff ds.timesync_sources ds.timesync_sources).1 refl in
    let count : length sources % u32_mod ≡ length sources = omega (arith, few) in
    let body : read_sources x (length sources) (put_strings sources) ≡ ok (sources, []) =
      ap (λ z. read_sources x (length sources) z) (sym (append-nil (put_strings sources)))
      ∙ read_sources-back x sources [] names in
    rw
      (
        parts,
        ty,
        same,
        count,
        read_word-back "discovery timesync source count" (length sources) (put_strings sources) few,
        body,
        same,
      )
      refl
