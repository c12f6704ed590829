-- ===== src/Tests.antt =====
-- Concrete instances of the parameters, and the theorems applied to them.
mod Frames
mod Queues
mod Links
mod Clocks
mod Routes
use sedsprintf_rs.Prelude.{
  ℕ, zero, suc, ◌+◌, ◌%◌, ◌≤◌, ◌≡◌, refl, ap, sym, ◌∙◌, Bool, true, false, ◌&&◌, Option, none, some,
  List, [], ◌∷◌, length, replicate, leb, leb→le, ◌==◌, ==_iff, if◌then◌else◌, Bool-cases, inl, inr,
  u32_mod, arith,
}
use sedsprintf_rs.Schema.{MessageDataType, MessageElement, ReliableMode, MessageMeta, Schema}
use sedsprintf_rs.External.{External, ExternalLaws}

abbrev pub sum_bytes : List ℕ → ℕ
sum_bytes [] = 0
sum_bytes (b ∷ bs) = b + sum_bytes bs

unfoldable pub all_same : ℕ → List ℕ → Bool
all_same b [] = true
all_same b (c ∷ cs) = b == c && all_same b cs

-- A compressor that shortens runs of one byte, and its inverse.
unfoldable pub compress_run : List ℕ → ℕ → Option (List ℕ)
compress_run [] room = none
compress_run (b ∷ bs) room = if all_same b bs && leb 1 room then some (b ∷ []) else none

unfoldable pub expand_run : List ℕ → ℕ → Option (List ℕ)
expand_run (b ∷ []) size = some (replicate size b)
expand_run bs size = none

all_same-replicate : (b : ℕ) (bs : List ℕ) → all_same b bs ≡ true → replicate (length bs) b ≡ bs
unfolding all_same
all_same-replicate b [] e = refl
all_same-replicate b (c ∷ cs) e = elim (Bool-cases (b == c)) [
  | inl same ↦
      let rest : all_same b cs ≡ true = sym (rw (all_same, same) refl) ∙ e in
      rw (all_same-replicate b cs rest) (ap (λ z. z ∷ cs) ((==_iff b c).0 same))
  | inr other ↦ let wrong : false ≡ true = sym (rw (all_same, other) refl) ∙ e in absurd cc
]

unfoldable pub toy : External
unfolding compress_run expand_run
toy = record {
  crc32 = λ bytes. sum_bytes bytes % u32_mod;
  zstd_compress = compress_run;
  zstd_decompress = expand_run;
  from_utf8 = λ bytes. true;
}

run_of :
    (bytes compressed : List ℕ) (room : ℕ)
    → compress_run bytes room ≡ some compressed
    → (expand_run compressed (length bytes) ≡ some bytes) × (length compressed ≡ 1) × (1 ≤ room)
unfolding compress_run expand_run
run_of [] compressed room e = absurd cc
run_of (b ∷ bs) compressed room e = elim (Bool-cases (all_same b bs)) [
  | inl same ↦ elim (Bool-cases (leb 1 room)) [
    | inl fits ↦
        let found : some (b ∷ []) ≡ some compressed =
          sym (rw (compress_run, same, fits) refl) ∙ e in
        let run : b ∷ [] ≡ compressed = cc in
        rw (← run) (ap (λ z. some (b ∷ z)) (all_same-replicate b bs same), refl, leb→le 1 room fits)
    | inr tight ↦
        let missing : none ≡ some compressed = sym (rw (compress_run, same, tight) refl) ∙ e in
        absurd cc
  ]
  | inr mixed ↦
      let missing : none ≡ some compressed = sym (rw (compress_run, mixed) refl) ∙ e in absurd cc
]

pub toy_laws : ExternalLaws toy
unfolding toy
toy_laws = record {
  crc32-IsU32 = λ bytes. omega arith;
  decompress-compress = λ bytes compressed room e. (run_of bytes compressed room e).0;
  compress-nonempty = λ bytes compressed room e. omega (arith, (run_of bytes compressed room e).1);
  compress-fits = λ bytes compressed room e.
      omega (arith, (run_of bytes compressed room e).1, (run_of bytes compressed room e).2);
}

-- Type 0 is reliable and ordered, two 16-bit numbers; the others are unreliable text.
abbrev pub toy_meta : ℕ → MessageMeta
toy_meta zero = record {
  name = [];
  element = MessageElement.static 2 MessageDataType.uint16;
  reliable = ReliableMode.ordered;
  priority = 5;
}
toy_meta (suc n) = record {
  name = [];
  element = MessageElement.dynamic MessageDataType.string;
  reliable = ReliableMode.none;
  priority = 1;
}

abbrev pub toy_schema : Schema
toy_schema = record {
  type_count = 2;
  endpoint_count = 3;
  message_meta = toy_meta;
  endpoint_name = λ e. e ∷ [];
}
