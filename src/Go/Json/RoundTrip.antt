-- ===== src/Go/Json/RoundTrip.antt =====
-- What the encoder writes, the decoder reads back.
pub mod Objects
pub mod Whole
use grounded_search.Prelude.{
  ℕ, zero, suc, ◌+◌, ◌*◌, ◌<◌, ◌≤◌, ◌≡◌, refl, arith, Bool, true, false, [], ◌∷◌, ◌++◌,
  append_assoc, if◌then◌else◌, ◌==◌, length, length-append, ok, err, ap, ◌∙◌, sym, ◌>>=◌, ℤ, pos,
  negsuc, append-nil,
}
use grounded_search.Go.Str.{Str, codes}
use grounded_search.Go.Strconv.{itoa, format_nat, is_digit}
use grounded_search.Go.Json as json
use grounded_search.Go.Json.{
  Json, Fields, int, str, obj, end, field, quote, encode, encode_fields, encode_more, escape_from,
}
use grounded_search.Go.Json.Value.{
  Value, Members, null, number, text, object, no_members, member, Parsed,
}
use grounded_search.Go.Json.Parser.{
  begin_value, skip_space, parse_value, parse_members, parse_key, after_value, parse,
}
use grounded_search.Go.Json.Quotes.{to_valid, string_body-quote, parse_key-quote}
use grounded_search.Go.Json.Numbers.{ends_number, Begins, itoa-Begins}

-- What is read of an encoded value: its strings are valid, and its numbers texts.
unfoldable mutual
  unfolding to_valid

  pub value_of : Json → Value
  value_of json.null = null
  value_of (int n) = number (itoa n)
  value_of (str s) = text (to_valid s)
  value_of (obj fs) = object (members_of fs)

  pub members_of : Fields → Members
  members_of end = no_members
  members_of (field name v fs) = member (to_valid name) (value_of v) (members_of fs)

-- A bound on how many objects stand inside each other.
unfoldable mutual
  pub height : Json → ℕ
  height (obj fs) = suc (height_of_fields fs)
  height _ = 0

  pub height_of_fields : Fields → ℕ
  height_of_fields end = 0
  height_of_fields (field name v fs) = height v + height_of_fields fs

-- With enough fuel and room for its objects, a value is read in front of what ends a number.
abbrev pub ReadsBack : Json → Type 0
ReadsBack j =
    (rest : Str) (depth f : ℕ)
    → ends_number rest ≡ true
    → depth + height j ≤ 10000
    → 2 * length (encode j) < f
    → parse_value f depth (encode j ++ rest) ≡ ok (value_of j, rest)

abbrev pub FieldsReadBack : Fields → Type 0
FieldsReadBack end = Unit
FieldsReadBack (field name v fs) =
    (rest : Str) (depth f : ℕ)
    → depth + height_of_fields (field name v fs) ≤ 10000
    → 2 * length (encode_fields (field name v fs)) < f
    → parse_members f depth (encode_fields (field name v fs) ++ (b'}' ∷ rest))
      ≡ ok (members_of (field name v fs), rest)

pub str-Begins : (s rest : Str) → Begins (encode (str s) ++ rest) (text (to_valid s)) rest
unfolding encode quote begin_value skip_space
str-Begins s rest = record {
  no_space = refl;
  begins = λ depth.
      let behind = append_assoc (escape_from 0 s) (b'"' ∷ []) rest in
      let read =
        string_body-quote s rest (length (escape_from 0 s ++ (b'"' ∷ rest))) (omega arith) in
      rw (behind, read) refl;
}

parse_value-Begins :
    (s : Str) (v : Value) (rest : Str) (depth f : ℕ)
    → Begins s v rest
    → parse_value (suc f) depth s ≡ ok (v, rest)
unfolding parse_value
parse_value-Begins s v rest depth f b =
    let begins = b.begins depth in rw (parse_value, b.no_space, begins) refl

pub ReadsBack-of_Begins :
    (j : Json)
    → ((rest : Str) → ends_number rest ≡ true → Begins (encode j ++ rest) (value_of j) rest)
    → ReadsBack j
ReadsBack-of_Begins j b rest depth zero e d h = absurd (omega arith)
ReadsBack-of_Begins j b rest depth (suc f) e d h =
    parse_value-Begins (encode j ++ rest) (value_of j) rest depth f (b rest e)

pub null-Begins : (rest : Str) → Begins (encode json.null ++ rest) null rest
unfolding encode begin_value skip_space
null-Begins rest = record { no_space = refl; begins = λ depth. refl }
