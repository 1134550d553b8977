-- ===== src/Go/Json/RoundTrip/Objects.antt =====
-- Encoded objects are read back, and so is every encoded value.
use grounded_search.Prelude.{
  ℕ, zero, suc, ◌+◌, ◌<◌, ◌≤◌, ◌≡◌, refl, arith, true, false, [], ◌∷◌, ◌++◌, append_assoc, leb,
  length, length-append, ok, ap, ◌∙◌, sym,
}
use grounded_search.Go.Str.{Str}
use grounded_search.Go.Json as json
use grounded_search.Go.Json.{
  Json, Fields, int, str, obj, end, field, quote, encode, encode_fields, encode_more, escape_from,
}
use grounded_search.Go.Json.Value.{Value, Members, object, no_members, member}
use grounded_search.Go.Json.Parser.{
  begin_value, skip_space, parse_value, parse_members, parse_key, ends, goes_on, after_value,
}
use grounded_search.Go.Json.Quotes.{to_valid, parse_key-quote}
use grounded_search.Go.Json.Numbers.{ends_number, itoa-Begins}
use grounded_search.Go.Json.RoundTrip.{
  value_of, members_of, height, ReadsBack, FieldsReadBack, str-Begins, null-Begins,
  ReadsBack-of_Begins,
}

members_last :
    (f depth : ℕ) (s : Str) {k t u rest : Str} {v : Value}
    → parse_key (skip_space s) ≡ ok (k, t)
    → parse_value f depth t ≡ ok (v, u)
    → after_value b'}' (skip_space u) ≡ ends rest
    → parse_members (suc f) depth s ≡ ok (member k v no_members, rest)
unfolding parse_members
members_last f depth s key value last = rw (parse_members, key) (ground arith)

members_more :
    (f depth : ℕ) (s : Str) {k t u w rest : Str} {v : Value} {ms : Members}
    → parse_key (skip_space s) ≡ ok (k, t)
    → parse_value f depth t ≡ ok (v, u)
    → after_value b'}' (skip_space u) ≡ goes_on w
    → parse_members f depth w ≡ ok (ms, rest)
    → parse_members (suc f) depth s ≡ ok (member k v ms, rest)
unfolding parse_members
members_more f depth s key value next later = rw (parse_members, key) (ground arith)

ends_behind : (fs : Fields) (rest : Str) → ends_number (encode_more fs ++ (b'}' ∷ rest)) ≡ true
unfolding encode_more ends_number
ends_behind end rest = refl
ends_behind (field name v fs) rest = refl

after_last :
    (rest : Str) → after_value b'}' (skip_space (encode_more end ++ (b'}' ∷ rest))) ≡ ends rest
unfolding encode_more after_value skip_space
after_last rest = refl

after_comma :
    (name : Str) (v : Json) (fs : Fields) (rest : Str)
    → after_value b'}' (skip_space (encode_more (field name v fs) ++ (b'}' ∷ rest)))
      ≡ goes_on (encode_fields (field name v fs) ++ (b'}' ∷ rest))
unfolding encode_more after_value skip_space encode_fields
after_comma name v fs rest = refl

-- The text of the first field, and what follows it.
fields_text :
    (name : Str) (v : Json) (fs : Fields) (rest : Str)
    → encode_fields (field name v fs) ++ (b'}' ∷ rest)
      ≡ quote name ++ (b':' ∷ (encode v ++ (encode_more fs ++ (b'}' ∷ rest))))
unfolding encode_fields
fields_text name v fs rest =
    append_assoc (quote name) (b':' ∷ (encode v ++ encode_more fs)) (b'}' ∷ rest)
    ∙ ap (λ t. quote name ++ (b':' ∷ t)) (append_assoc (encode v) (encode_more fs) (b'}' ∷ rest))

quote_stays : (name t : Str) → skip_space (quote name ++ t) ≡ quote name ++ t
unfolding quote skip_space
quote_stays name t = refl

key_of_fields :
    (name : Str) (v : Json) (fs : Fields) (rest : Str)
    → parse_key (skip_space (encode_fields (field name v fs) ++ (b'}' ∷ rest)))
      ≡ ok (to_valid name, encode v ++ (encode_more fs ++ (b'}' ∷ rest)))
key_of_fields name v fs rest =
    let t = encode v ++ (encode_more fs ++ (b'}' ∷ rest)) in
    ap (λ s. parse_key (skip_space s)) (fields_text name v fs rest)
    ∙ ap parse_key (quote_stays name (b':' ∷ t))
    ∙ parse_key-quote name t

length-fields :
    (name : Str) (v : Json) (fs : Fields)
    → length (encode v) + length (encode_more fs) < length (encode_fields (field name v fs))
unfolding encode_fields
length-fields name v fs = omega (
  arith,
  length-append (quote name) (b':' ∷ (encode v ++ encode_more fs)),
  length-append (encode v) (encode_more fs),
)

length-more :
    (name : Str) (v : Json) (fs : Fields)
    → length (encode_more (field name v fs)) ≡ suc (length (encode_fields (field name v fs)))
unfolding encode_more encode_fields
length-more name v fs = refl

fields-FieldsReadBack :
    (name : Str) (v : Json) (fs : Fields)
    → ReadsBack v
    → FieldsReadBack fs
    → FieldsReadBack (field name v fs)
unfolding height members_of
fields-FieldsReadBack name v fs value later rest depth zero d h = absurd (omega arith)
fields-FieldsReadBack name v end value later rest depth (suc f) d h =
    let size = length-fields name v end in
    members_last f depth _ (key_of_fields name v end rest)
      (value _ depth f (ends_behind end rest) (omega arith) (omega arith)) (after_last rest)
fields-FieldsReadBack name v (field n w fs) value later rest depth (suc f) d h =
    let size = length-fields name v (field n w fs) in
    let more = length-more n w fs in
    members_more f depth _ (key_of_fields name v (field n w fs) rest)
      (value _ depth f (ends_behind (field n w fs) rest) (omega arith) (omega arith))
      (after_comma n w fs rest) (later rest depth f (omega arith) (omega arith))

-- An object whose inside begins with a quote, where there is room for it.
object_inside :
    (f depth : ℕ) (u rest : Str) (ms : Members)
    → leb 10000 depth ≡ false
    → parse_members f (depth + 1) (b'"' ∷ u) ≡ ok (ms, rest)
    → parse_value (suc f) depth (b'{' ∷ b'"' ∷ u) ≡ ok (object ms, rest)
unfolding parse_value skip_space begin_value
object_inside f depth u rest ms room later = rw (parse_value, room, later) refl

quote_first : (s t : Str) → (u : Str) × (quote s ++ t ≡ b'"' ∷ u)
unfolding quote
quote_first s t = (_, refl)

empty_object :
    (f depth : ℕ) (rest : Str)
    → leb 10000 depth ≡ false
    → parse_value (suc f) depth (b'{' ∷ b'}' ∷ rest) ≡ ok (object no_members, rest)
unfolding parse_value skip_space begin_value
empty_object f depth rest room = rw (parse_value, room) refl

obj_text :
    (fs : Fields) (rest : Str)
    → encode (obj fs) ++ rest ≡ b'{' ∷ (encode_fields fs ++ (b'}' ∷ rest))
unfolding encode
obj_text fs rest = ap (λ t. b'{' ∷ t) (append_assoc (encode_fields fs) (b'}' ∷ []) rest)

length-obj : (fs : Fields) → suc (length (encode_fields fs)) ≤ length (encode (obj fs))
unfolding encode
length-obj fs = omega (arith, length-append (encode_fields fs) (b'}' ∷ []))

obj-ReadsBack : (fs : Fields) → FieldsReadBack fs → ReadsBack (obj fs)
unfolding height value_of
obj-ReadsBack fs inside rest depth zero e d h = absurd (omega arith)
obj-ReadsBack end inside rest depth (suc f) e d h =
    ap (parse_value (suc f) depth) (obj_text end rest)
    ∙ unfold encode_fields members_of in empty_object f depth rest (ground arith)
obj-ReadsBack (field name v fs) inside rest depth (suc f) e d h =
    let size = length-obj (field name v fs) in
    let (u, first) = quote_first name (b':' ∷ (encode v ++ (encode_more fs ++ (b'}' ∷ rest)))) in
    let shape = fields_text name v fs rest ∙ first in
    let later = inside rest (depth + 1) f (omega arith) (omega arith) in
    ap (parse_value (suc f) depth) (obj_text (field name v fs) rest ∙ ap (λ t. b'{' ∷ t) shape)
    ∙ object_inside f depth u rest (members_of (field name v fs)) (ground arith)
        (ap (parse_members f (depth + 1)) (sym shape) ∙ later)

pub encode-ReadsBack : (j : Json) → ReadsBack j
unfolding value_of encode
encode-ReadsBack j = elim j as ReadsBack FieldsReadBack [
  | json.null ↦ ReadsBack-of_Begins json.null (λ rest e. null-Begins rest)
  | int n ↦ ReadsBack-of_Begins (int n) (itoa-Begins n)
  | str s ↦ ReadsBack-of_Begins (str s) (λ rest e. str-Begins s rest)
  | obj (fs → ih) ↦ obj-ReadsBack fs ih
  | end ↦ tt
  | field name (v → value) (fs → later) ↦ fields-FieldsReadBack name v fs value later
]
