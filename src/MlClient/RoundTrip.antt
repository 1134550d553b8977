-- ===== src/MlClient/RoundTrip.antt =====
-- Metadata that is encoded in the order of the struct's fields is decoded to itself.
use grounded_search.Prelude.{
  ◌≤◌, ◌≡◌, refl, arith, Bool, true, [], ◌∷◌, ◌++◌, Option, none, some, ok, err, ap, ◌∙◌, length,
}
use grounded_search.Go.Str.{Str, codes, str_eq}
use grounded_search.Go.Errors.{sentinel, eof, is}
use grounded_search.Go.Http.{ClientResponse}
use grounded_search.Go.Json.{Json, str, obj, end, field, nullable, encode}
use grounded_search.Go.Json.Value.{Value, Members, null, text, object, member, no_members}
use grounded_search.Go.Json.Parser.{parse, skip_space}
use grounded_search.Go.Json.Numbers.{ends_number}
use grounded_search.Go.Json.RoundTrip.{value_of, members_of, height}
use grounded_search.Go.Json.RoundTrip.Whole.{parse-encode, valid_utf8, to_valid-valid}
use grounded_search.MlClient.Defs.{max_response_body_size}
use grounded_search.MlClient.Info.{ModelInfo, MeetsContract}
use grounded_search.MlClient.Decode.{info_of_value, decode_info, decode_any, go_json}
use grounded_search.MlClient.Fetch.{interpret}
use grounded_search.MlClient.Answers.{interpret-eq-ok}

-- The JSON object with the tags of the struct as names.
abbrev pub info_json : ModelInfo → Json
info_json info = obj (
    field (codes "service") (str info.service) (
      field (codes "version") (str info.version) (
        field (codes "status") (str info.status) (
          field (codes "mode") (str info.mode) (
            field (codes "embedding_model") (nullable info.embedding_model) (
              field (codes "reranker_model") (nullable info.reranker_model) (
                field (codes "python_version") (str info.python_version)
                  (field (codes "environment") (str info.environment) end))))))))

abbrev pub valid_option : Option Str → Bool
valid_option none = true
valid_option (some s) = valid_utf8 s

-- All strings are valid UTF-8.
pub record IsUtf8 (info : ModelInfo) : Type 0 where
  pub service : valid_utf8 info.service ≡ true
  pub version : valid_utf8 info.version ≡ true
  pub status : valid_utf8 info.status ≡ true
  pub mode : valid_utf8 info.mode ≡ true
  pub embedding_model : valid_option info.embedding_model ≡ true
  pub reranker_model : valid_option info.reranker_model ≡ true
  pub python_version : valid_utf8 info.python_version ≡ true
  pub environment : valid_utf8 info.environment ≡ true

abbrev nullable_value : Option Str → Value
nullable_value none = null
nullable_value (some s) = text s

value_of-str : (s : Str) → valid_utf8 s ≡ true → value_of (str s) ≡ text s
unfolding value_of
value_of-str s h = ap text (to_valid-valid s h)

value_of-nullable :
    (o : Option Str) → valid_option o ≡ true → value_of (nullable o) ≡ nullable_value o
unfolding value_of
value_of-nullable none h = refl
value_of-nullable (some s) h = ap text (to_valid-valid s h)

abbrev info_members : ModelInfo → Members
info_members info = member (codes "service") (text info.service) (
    member (codes "version") (text info.version) (
      member (codes "status") (text info.status) (
        member (codes "mode") (text info.mode) (
          member (codes "embedding_model") (nullable_value info.embedding_model) (
            member (codes "reranker_model") (nullable_value info.reranker_model) (
              member (codes "python_version") (text info.python_version)
                (member (codes "environment") (text info.environment) no_members)))))))

value_of-info :
    (info : ModelInfo) → IsUtf8 info → value_of (info_json info) ≡ object (info_members info)
unfolding members_of
value_of-info info v =
    rw
      (
        value_of-str info.service v.service,
        value_of-str info.version v.version,
        value_of-str info.status v.status,
        value_of-str info.mode v.mode,
        value_of-nullable info.embedding_model v.embedding_model,
        value_of-nullable info.reranker_model v.reranker_model,
        value_of-str info.python_version v.python_version,
        value_of-str info.environment v.environment,
      )
      refl

info_of_members :
    (service version status mode python_version environment : Str) (e r : Option Str)
    → info_of_value (
        object (
          info_members (record {
            service = service;
            version = version;
            status = status;
            mode = mode;
            embedding_model = e;
            reranker_model = r;
            python_version = python_version;
            environment = environment;
          })))
      ≡ ok (record {
        service = service;
        version = version;
        status = status;
        mode = mode;
        embedding_model = e;
        reranker_model = r;
        python_version = python_version;
        environment = environment;
      })
unfolding info_of_value str_eq
info_of_members a b c d p q none none = refl
info_of_members a b c d p q none (some r) = refl
info_of_members a b c d p q (some e) none = refl
info_of_members a b c d p q (some e) (some r) = refl

info_height : (info : ModelInfo) → height (info_json info) ≤ 10000
unfolding height
info_height info = go info.embedding_model info.reranker_model
  where
    go :
        (e r : Option Str)
        → height (info_json (record info { embedding_model = e; reranker_model = r })) ≤ 10000
    go none none = omega arith
    go none (some r) = omega arith
    go (some e) none = omega arith
    go (some e) (some r) = omega arith

-- Decode reads encoded metadata back.
pub decode_info-encode :
    (info : ModelInfo) (rest : Str)
    → IsUtf8 info
    → ends_number rest ≡ true
    → decode_info (encode (info_json info) ++ rest) ≡ ok (info, rest)
unfolding decode_info
decode_info-encode info rest v e =
    let read = parse-encode (info_json info) rest e (info_height info) in
    let filled =
      info_of_members info.service info.version info.status info.mode info.python_version
        info.environment info.embedding_model info.reranker_model in
    rw (read, value_of-info info v, filled) refl

space_ends_number : (s : Str) → skip_space s ≡ [] → ends_number s ≡ true
unfolding skip_space ends_number
space_ends_number [] h = refl
space_ends_number (c ∷ s) h = ground arith

decode_any-space :
    (is_float : Str → Bool) (s : Str)
    → skip_space s ≡ []
    → decode_any is_float s ≡ err (sentinel eof)
unfolding decode_any parse
decode_any-space is_float s h = rw h refl

-- A complete response with status 200, whose body of at most a mebibyte is encoded metadata with white
-- space behind it, is turned into that metadata, if its strings are valid UTF-8 and it meets the
-- contract.
pub interpret-encode :
    (is_float : Str → Bool) (info : ModelInfo) (space : Str) (response : ClientResponse)
    → IsUtf8 info
    → MeetsContract info
    → skip_space space ≡ []
    → response.status_code ≡ 200
    → response.body.failure ≡ none
    → response.body.bytes ≡ encode (info_json info) ++ space
    → length response.body.bytes ≤ max_response_body_size
    → interpret (go_json is_float) response ≡ ok info
unfolding go_json
interpret-encode is_float info space response v m blank status complete body bounded =
    (interpret-eq-ok (go_json is_float) response info).1 (record {
      complete = complete;
      bounded = bounded;
      status = status;
      rest = space;
      decoded =
          ap decode_info body ∙ decode_info-encode info space v (space_ends_number space blank);
      ending = sentinel eof;
      ended = decode_any-space is_float space blank;
      is_end = unfold is in refl;
      valid = m;
    })
