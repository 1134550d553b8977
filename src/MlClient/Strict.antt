-- ===== src/MlClient/Strict.antt =====
-- What a body is that metadata is read from.
use grounded_search.Prelude.{
  ℕ, ◌≡◌, refl, arith, Bool, true, false, [], ◌∷◌, Option, none, some, ok, err, ap, ◌∙◌, sym, ◌==◌,
  ◌>>=◌, Result-cases, Option-cases, inl, inr, if◌then◌else◌,
}
use grounded_search.Go.Str.{Str}
use grounded_search.Go.Errors.{Error, eof, is}
use grounded_search.Go.Http.{ClientResponse}
use grounded_search.Go.Json.Value.{
  Value, Members, null, text, object, member, no_members, Parsed, Failure,
}
use grounded_search.Go.Json.Parser.{parse, parsed_first, skip_space}
use grounded_search.MlClient.Info.{ModelInfo, MeetsContract}
use grounded_search.MlClient.Decode.{
  InfoField, service, version, status, mode, embedding_model, reranker_model, python_version,
  environment, find_field, set_field, set_members, info_of_value, decode_info, decode_any, go_json,
  empty_info, error_of, outcome_of, decoded,
}
use grounded_search.MlClient.Fetch.{interpret}
use grounded_search.MlClient.Answers.{interpret-eq-ok}

-- A field of the metadata, where a string is never nil.
abbrev pub field_at : InfoField → ModelInfo → Option Str
field_at service info = some info.service
field_at version info = some info.version
field_at status info = some info.status
field_at mode info = some info.mode
field_at embedding_model info = info.embedding_model
field_at reranker_model info = info.reranker_model
field_at python_version info = some info.python_version
field_at environment info = some info.environment

abbrev is_pointer : InfoField → Bool
is_pointer embedding_model = true
is_pointer reranker_model = true
is_pointer _ = false

-- What a value makes of a field: null is nil for a pointer, and nothing for a string.
abbrev pub updated : InfoField → Value → Option Str → Option Str
updated g (text s) old = some s
updated g null old = if is_pointer g then none else old
updated g _ old = old

abbrev field_number : InfoField → ℕ
field_number service = 0
field_number version = 1
field_number status = 2
field_number mode = 3
field_number embedding_model = 4
field_number reranker_model = 5
field_number python_version = 6
field_number environment = 7

abbrev pub same_field : InfoField → InfoField → Bool
same_field f g = field_number f == field_number g

abbrev pub IsTextOrNull : Value → Type 0
IsTextOrNull null = Unit
IsTextOrNull (text s) = Unit
IsTextOrNull _ = ⊥

set_field-IsTextOrNull :
    (f : InfoField) (v : Value) (info changed : ModelInfo)
    → set_field f v info ≡ ok changed
    → IsTextOrNull v
unfolding set_field
set_field-IsTextOrNull f v info changed h = ground arith

set_field-at :
    (f g : InfoField) (v : Value) (info changed : ModelInfo)
    → set_field f v info ≡ ok changed
    → field_at g changed
      ≡ (if same_field f g then updated g v (field_at g info) else field_at g info)
unfolding set_field
set_field-at f g v info changed h = ground arith

-- Every member is named like a field, up to the case, and holds a string or null.
abbrev pub AreKnown : Members → Type 0
AreKnown no_members = Unit
AreKnown (member name v ms) =
    ((f : InfoField) × (find_field name ≡ some f)) × IsTextOrNull v × AreKnown ms

abbrev is_for : Option InfoField → InfoField → Bool
is_for none g = false
is_for (some f) g = same_field f g

-- A field after all members that are named like it, in their order.
abbrev pub last_value : InfoField → Members → Option Str → Option Str
last_value g no_members old = old
last_value g (member name v ms) old =
    last_value g ms (if is_for (find_field name) g then updated g v old else old)

-- The object that metadata is read from.
pub record Describes (ms : Members) (start info : ModelInfo) : Type 0 where
  pub known : AreKnown ms
  pub fields : (g : InfoField) → field_at g info ≡ last_value g ms (field_at g start)

set_members-parts :
    (name : Str) (v : Value) (ms : Members) (start info : ModelInfo)
    → set_members (member name v ms) start ≡ ok info
    → (f : InfoField) × (changed : ModelInfo) × (find_field name ≡ some f)
      × (set_field f v start ≡ ok changed)
      × (set_members ms changed ≡ ok info)
unfolding set_members
set_members-parts name v ms start info h = elim (Option-cases (find_field name)) [
  | inl unknown ↦ absurd (ground arith)
  | inr (f, found) ↦ elim (Result-cases (set_field f v start)) [
    | inl (changed, e) ↦ (f, changed, found, e, ground arith)
    | inr (x, e) ↦ absurd (ground arith)
  ]
]

member-Describes :
    (name : Str) (v : Value) (ms : Members) (start changed info : ModelInfo) (f : InfoField)
    → find_field name ≡ some f
    → set_field f v start ≡ ok changed
    → Describes ms changed info
    → Describes (member name v ms) start info
member-Describes name v ms start changed info f found e d = record {
  known = ((f, found), set_field-IsTextOrNull f v start changed e, d.known);
  fields = λ g. d.fields g ∙ ap (last_value g ms) (rw found (set_field-at f g v start changed e));
}

set_members-Describes :
    (ms : Members) (start info : ModelInfo)
    → set_members ms start ≡ ok info
    → Describes ms start info
set_members-Describes no_members start info h =
    let same : start ≡ info = unfold set_members in ground arith in
    record { known = tt; fields = λ g. ap (field_at g) (sym same) }
set_members-Describes (member name v ms) start info h =
    let (f, changed, found, e, later) = set_members-parts name v ms start info h in
    member-Describes name v ms start changed info f found e
      (set_members-Describes ms changed info later)

-- A body that is one object, which describes the metadata, and white space.
pub record IsInfoBody (body : Str) (info : ModelInfo) : Type 0 where
  pub members : Members
  pub rest : Str
  pub parsed : parse body ≡ some (ok (object members, rest))
  pub space : skip_space rest ≡ []
  pub describes : Describes members empty_info info

object_of_info :
    (v : Value) (info : ModelInfo)
    → MeetsContract info
    → info_of_value v ≡ ok info
    → (ms : Members) × (v ≡ object ms) × (set_members ms empty_info ≡ ok info)
unfolding info_of_value
object_of_info (object ms) info m h = (ms, refl, h)
object_of_info null info m h =
    let same : empty_info ≡ info = ground arith in
    absurd (cc (ap (λ i. i.service) same ∙ m.service))
object_of_info _ info m h = absurd (cc h)

failure-ne-eof : (f : Failure) → is (error_of f) eof ≡ false
unfolding error_of is
failure-ne-eof f = ground arith

outcome-ne-eof : {A : Type 0} (r : Parsed A) (e : Error) → outcome_of r ≡ err e → is e eof ≡ false
outcome-ne-eof (ok a) e h = absurd (cc h)
outcome-ne-eof (err f) e h = ground (arith, failure-ne-eof f)

blank_of_first :
    {A : Type 0} (rest t : Str) (use_value : Value × Str → Parsed A) (e : Error)
    → decoded (parsed_first rest t) use_value ≡ err e
    → is e eof ≡ true
    → t ≡ []
blank_of_first rest [] use_value e h k = refl
blank_of_first rest (c ∷ t) use_value e h k = absurd (cc (outcome-ne-eof _ e h, k))

blank_of_end :
    (is_float : Str → Bool) (rest : Str) (e : Error)
    → decode_any is_float rest ≡ err e
    → is e eof ≡ true
    → skip_space rest ≡ []
unfolding decode_any parse
blank_of_end is_float rest e h k = blank_of_first rest (skip_space rest) _ e h k

decoded-parts :
    (p : Option (Parsed (Value × Str))) (info : ModelInfo) (rest : Str)
    → decoded {A = ModelInfo × Str} p (λ q. info_of_value q.0 >>= λ i. ok (i, q.1))
      ≡ ok (info, rest)
    → (v : Value) × (p ≡ some (ok (v, rest))) × (info_of_value v ≡ ok info)
decoded-parts none info rest h = absurd (cc h)
decoded-parts (some (err f)) info rest h = absurd (cc h)
decoded-parts (some (ok (v, r))) info rest h = elim (Result-cases (info_of_value v)) [
  | inl (i, e) ↦
      let same : (i ≡ info) × (r ≡ rest) = ground arith in
      (v, ap (λ t. some (ok (v, t))) same.1, e ∙ ap ok same.0)
  | inr (f, e) ↦ absurd (ground arith)
]

-- The parts of a successful Decode.
info_of_decode :
    (s : Str) (info : ModelInfo) (rest : Str)
    → decode_info s ≡ ok (info, rest)
    → (v : Value) × (parse s ≡ some (ok (v, rest))) × (info_of_value v ≡ ok info)
unfolding decode_info
info_of_decode s info rest h = decoded-parts (parse s) info rest h

-- A body is read as metadata only if it is one JSON object with white space behind it. Each member is
-- named like a field, up to the case of its letters, and holds a string or null; each field is what
-- the members with its name set one after another, where null is nil for a model's name and nothing
-- for a string.
pub interpret-IsInfoBody :
    (is_float : Str → Bool) (response : ClientResponse) (info : ModelInfo)
    → interpret (go_json is_float) response ≡ ok info
    → IsInfoBody response.body.bytes info
unfolding go_json
interpret-IsInfoBody is_float response info h =
    let c = (interpret-eq-ok (go_json is_float) response info).0 h in
    let (v, parsed, filled) = info_of_decode response.body.bytes info c.rest c.decoded in
    let (ms, same, set) = object_of_info v info c.valid filled in
    record {
      members = ms;
      rest = c.rest;
      parsed = parsed ∙ ap (λ u. some (ok (u, c.rest))) same;
      space = blank_of_end is_float c.rest c.ending c.ended c.is_end;
      describes = set_members-Describes ms empty_info info set;
    }
