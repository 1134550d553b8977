-- ===== src/MlClient/Decode.antt =====
-- encoding/json's Decode, with DisallowUnknownFields, into the ModelInfo of client.go and into `any`.
mod Tests
use grounded_search.Prelude.{
  ℕ, zero, suc, ◌-◌, Bool, true, false, ◌&&◌, Option, none, some, List, [], ◌∷◌, ◌==◌, leb,
  if◌then◌else◌, ok, err, ◌>>=◌,
}
use grounded_search.Go.Str.{Str, codes, str_eq}
use grounded_search.Go.Errors.{Error, sentinel, message, quoted, eof, Outcome}
use grounded_search.Go.Json.Value.{
  Value, Values, Members, null, bool, number, text, array, object, no_values, item, no_members,
  member, Failure, truncated, syntax, too_deep, wrong_type, not_a_float, unknown_field, Parsed,
}
use grounded_search.Go.Json.Parser.{parse}
use grounded_search.MlClient.Info.{ModelInfo}
use grounded_search.MlClient.Fetch.{JsonPackage}

-- The fields of ModelInfo.
pub data InfoField : Type 0 where
  service version status mode embedding_model reranker_model python_version environment : InfoField

-- The struct's tags.
unfoldable pub tag : InfoField → Str
tag service = codes "service"
tag version = codes "version"
tag status = codes "status"
tag mode = codes "mode"
tag embedding_model = codes "embedding_model"
tag reranker_model = codes "reranker_model"
tag python_version = codes "python_version"
tag environment = codes "environment"

abbrev pub info_fields : List InfoField
info_fields =
    service ∷ version ∷ status ∷ mode ∷ embedding_model ∷ reranker_model ∷ python_version
    ∷ environment ∷ []

-- foldName: ASCII letters in upper case, and the two other characters that fold to such a letter, U+017F
-- and U+212A. The other characters fold to none in ASCII, so they are left as they are. The number is
-- that of the further bytes that the first character has.
unfoldable pub fold_front : Str → ℕ × ℕ
fold_front [] = (0, 0)
fold_front (a ∷ []) = (if leb b'a' a && leb a b'z' then a - 32 else a, 0)
fold_front (a ∷ b ∷ []) =
    if a == 0xc5 && b == 0xbf
    then (b'S', 1)
    else (if leb b'a' a && leb a b'z' then a - 32 else a, 0)
fold_front (a ∷ b ∷ c ∷ s) =
    if a == 0xc5 && b == 0xbf
    then (b'S', 1)
    else if a == 0xe2 && b == 0x84 && c == 0xaa
    then (b'K', 2)
    else (if leb b'a' a && leb a b'z' then a - 32 else a, 0)

unfoldable pub fold_from : ℕ → Str → Str
unfolding fold_front
fold_from skip [] = []
fold_from (suc skip) (c ∷ s) = fold_from skip s
fold_from zero (c ∷ s) = let (folded, more) = fold_front (c ∷ s) in folded ∷ fold_from more s

abbrev fold_name : Str → Str
fold_name s = fold_from 0 s

abbrev first_named : (InfoField → Bool) → List InfoField → Option InfoField
first_named p [] = none
first_named p (f ∷ fs) = if p f then some f else first_named p fs

-- The field with this name, or else with this name up to the case.
unfoldable pub find_field : Str → Option InfoField
unfolding tag fold_from
find_field name = elim (first_named (λ f. str_eq (tag f) name) info_fields) [
  | some f ↦ some f
  | none ↦ first_named (λ f. str_eq (fold_name (tag f)) (fold_name name)) info_fields
]

-- A value for a string: null leaves it as it is.
unfoldable pub set_string : Value → Str → Parsed Str
set_string null old = ok old
set_string (text s) old = ok s
set_string _ old = err wrong_type

-- A value for a string pointer: null makes it nil.
unfoldable pub set_pointer : Value → Parsed (Option Str)
set_pointer null = ok none
set_pointer (text s) = ok (some s)
set_pointer _ = err wrong_type

unfoldable pub set_field : InfoField → Value → ModelInfo → Parsed ModelInfo
unfolding set_string set_pointer
set_field service v info = set_string v info.service >>= λ s. ok (record info { service = s })
set_field version v info = set_string v info.version >>= λ s. ok (record info { version = s })
set_field status v info = set_string v info.status >>= λ s. ok (record info { status = s })
set_field mode v info = set_string v info.mode >>= λ s. ok (record info { mode = s })
set_field embedding_model v info = set_pointer v >>= λ s. ok (record info { embedding_model = s })
set_field reranker_model v info = set_pointer v >>= λ s. ok (record info { reranker_model = s })
set_field python_version v info =
    set_string v info.python_version >>= λ s. ok (record info { python_version = s })
set_field environment v info =
    set_string v info.environment >>= λ s. ok (record info { environment = s })

-- The members in their order: a later one replaces what an earlier one set. The first error is the one
-- that Decode returns.
unfoldable pub set_members : Members → ModelInfo → Parsed ModelInfo
unfolding find_field set_field
set_members no_members info = ok info
set_members (member name v ms) info = elim (find_field name) [
  | none ↦ err (unknown_field name)
  | some f ↦ set_field f v info >>= λ changed. set_members ms changed
]

abbrev pub empty_info : ModelInfo
empty_info = record {
  service = [];
  version = [];
  status = [];
  mode = [];
  embedding_model = none;
  reranker_model = none;
  python_version = [];
  environment = [];
}

unfoldable pub info_of_value : Value → Parsed ModelInfo
unfolding set_members
info_of_value null = ok empty_info
info_of_value (object ms) = set_members ms empty_info
info_of_value _ = err wrong_type

-- Whether every number in a value is a float64, as `any` asks for.
unfoldable mutual
  pub all_floats : (Str → Bool) → Value → Bool
  all_floats is_float (number s) = is_float s
  all_floats is_float (array vs) = all_floats_values is_float vs
  all_floats is_float (object ms) = all_floats_members is_float ms
  all_floats is_float _ = true

  pub all_floats_values : (Str → Bool) → Values → Bool
  all_floats_values is_float no_values = true
  all_floats_values is_float (item v vs) = all_floats is_float v && all_floats_values is_float vs

  pub all_floats_members : (Str → Bool) → Members → Bool
  all_floats_members is_float no_members = true
  all_floats_members is_float (member name v ms) =
      all_floats is_float v && all_floats_members is_float ms

-- The error of a failed Decode. The text of a syntax error, which names the character, is left out.
unfoldable pub error_of : Failure → Error
error_of truncated = message (codes "unexpected EOF")
error_of syntax = message (codes "invalid character")
error_of too_deep = message (codes "exceeded max depth")
error_of wrong_type = message (codes "json: cannot unmarshal")
error_of not_a_float = message (codes "json: cannot unmarshal number")
error_of (unknown_field name) = quoted (codes "json: unknown field ") name []

abbrev pub outcome_of : {A : Type 0} → Parsed A → Outcome A
outcome_of (ok a) = ok a
outcome_of (err e) = err (error_of e)

-- The result of Decode on what was read.
abbrev pub decoded :
    {A : Type 0} → Option (Parsed (Value × Str)) → (Value × Str → Parsed A) → Outcome A
decoded none use_value = err (sentinel eof)
decoded (some r) use_value = outcome_of (r >>= use_value)

unfoldable pub decode_info : Str → Outcome (ModelInfo × Str)
unfolding error_of parse info_of_value
decode_info s = decoded (parse s) (λ p. info_of_value p.0 >>= λ info. ok (info, p.1))

unfoldable pub decode_any : (Str → Bool) → Str → Outcome Str
unfolding error_of parse all_floats
decode_any is_float s =
    decoded (parse s) (λ p. if all_floats is_float p.0 then ok p.1 else err not_a_float)

-- encoding/json, over strconv's test whether a number is a float64.
unfoldable pub go_json : (Str → Bool) → JsonPackage
unfolding decode_info decode_any
go_json is_float = record { decode_info = decode_info; decode_any = decode_any is_float }
