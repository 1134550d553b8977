-- ===== src/HttpApi/RequestId.antt =====
-- Request IDs: context.go, and validRequestID and generateRequestID of handler.go.
use grounded_search.Prelude.{
  ℕ, ℤ, ◌+◌, ◌/◌, ◌%◌, ◌^◌, Bool, false, ◌||◌, Option, none, some, [], ◌∷◌, ◌++◌, ltb, length,
  if◌then◌else◌,
}
use grounded_search.Go.Str.{Str, codes, str_eq}
use grounded_search.Go.Strings.{trim_space}
use grounded_search.Go.Strconv.{itoa, format_nat}
use grounded_search.Go.Json.{hex_digit}
use grounded_search.HttpApi.State.{Request}

unfoldable pub with_request_id : Str → Request → Request
with_request_id id request = record request { context_id = some id }

unfoldable pub request_id_from_request : Request → Str
request_id_from_request request = elim request.context_id [ none ↦ [] | some id ↦ id ]

-- The loop over the characters. A byte outside ASCII is part of a character above 0x7e, or stands for
-- U+FFFD, so the test is the same on bytes.
unfoldable pub has_invisible : Str → Bool
has_invisible [] = false
has_invisible (c ∷ s) = (ltb c 0x21 || ltb 0x7e c) || has_invisible s

unfoldable pub valid_request_id : Str → Str
unfolding has_invisible
valid_request_id raw =
    let value = trim_space raw in
    if str_eq value [] || ltb 128 (length value)
    then []
    else if has_invisible value
    then []
    else value

-- hex.EncodeToString.
unfoldable pub hex_encode : Str → Str
hex_encode [] = []
hex_encode (b ∷ s) = hex_digit (b / 16) ∷ hex_digit (b % 16) ∷ hex_encode s

-- What generateRequestID reads: the random bytes, unless the source fails, and the clock.
pub record Entropy : Type 0 where
  pub random : Option Str
  pub unix_nano : ℤ

-- The new value of the counter, which is a uint64, and the ID.
unfoldable pub generate_request_id : Entropy → ℕ → ℕ × Str
unfolding hex_encode
generate_request_id entropy counter = elim entropy.random [
  | some bytes ↦ (counter, hex_encode bytes)
  | none ↦
      let next = (counter + 1) % 2 ^ 64 in
      (next, codes "fallback-" ++ (itoa entropy.unix_nano ++ (codes "-" ++ format_nat next)))
]
