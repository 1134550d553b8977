-- ===== src/HttpApi/Classification.antt =====
-- How a response that gives no metadata is classified.
use grounded_search.Prelude.{
  ℕ, ◌≡◌, ◌≢◌, ◌<◌, ◌≤◌, refl, true, false, none, some, [], ◌++◌, ok, err, arith, length,
  Result-cases, Option-cases, Bool-cases, inl, inr, if◌then◌else◌, ltb, ltb→lt, ◌==◌, ◌∙◌, ap,
}
use grounded_search.Go.Str.{Str, codes}
use grounded_search.Go.Errors.{
  Error, sentinel, invalid_response, unexpected_status, deadline_exceeded, is, as_net_error, wrap,
}
use grounded_search.Go.Http.{ClientResponse}
use grounded_search.MlClient.Defs.{max_response_body_size}
use grounded_search.MlClient.Info.{ModelInfo, validate_model_info}
use grounded_search.MlClient.Fetch.{
  JsonPackage, too_large, read_bounded_body, interpret, decode_body, ensure_single_json_value,
  unless_error,
}
use grounded_search.Go.Strconv.{format_nat}
use grounded_search.MlClient.Bounded.{read_bounded_body_lem}
use grounded_search.MlClient.Failures.{IsWhole}
use grounded_search.HttpApi.Dependency.{classify_dependency_error}

-- An error that breaks the contract of the ML service and says nothing of a timeout.
abbrev IsViolation : Error → Type 0
IsViolation e =
    (is e deadline_exceeded ≡ false) × (as_net_error e ≡ none) × (is e invalid_response ≡ true)

ensure_single-IsViolation :
    (json : JsonPackage) (rest : Str) (e : Error)
    → ensure_single_json_value json rest ≡ some e
    → IsViolation e
unfolding ensure_single_json_value is as_net_error
ensure_single-IsViolation json rest e h = ground arith

validate-IsViolation :
    (info : ModelInfo) (e : Error) → validate_model_info info ≡ some e → IsViolation e
unfolding validate_model_info is as_net_error
validate-IsViolation info e h = ground arith

decode_body-IsViolation :
    (json : JsonPackage) (body : Str) (e : Error) → decode_body json body ≡ err e → IsViolation e
unfolding decode_body unless_error is as_net_error
decode_body-IsViolation json body e h = elim (Result-cases (json.decode_info body)) [
  | inl ((info, rest), found) ↦
      ground (arith, ensure_single-IsViolation json rest e, validate-IsViolation info e)
  | inr (d, failed) ↦ ground arith
]

classify-IsViolation :
    (e : Error)
    → IsViolation e
    → classify_dependency_error e ≡ (codes "invalid_response", codes "invalid_dependency_response")
unfolding classify_dependency_error
classify-IsViolation e v = ground arith

-- What a response that gives no metadata is reported as, by the response alone.
abbrev pub classification : ClientResponse → Str × Str
classification response =
    if ltb max_response_body_size (length response.body.bytes)
    then (codes "invalid_response", codes "invalid_dependency_response")
    else (elim response.body.failure [
      | some c ↦ classify_dependency_error c
      | none ↦
          if response.status_code == 200
          then (codes "invalid_response", codes "invalid_dependency_response")
          else (codes "unavailable", codes "dependency_unavailable")
    ])

too_large_classified :
    (limit : ℕ)
    → classify_dependency_error (too_large limit)
      ≡ (codes "invalid_response", codes "invalid_dependency_response")
unfolding classify_dependency_error is as_net_error
too_large_classified limit = refl

wrap_classified :
    (a b : Str) (c : Error) → classify_dependency_error (wrap a c b) ≡ classify_dependency_error c
unfolding classify_dependency_error is as_net_error
wrap_classified a b c = refl

status_classified :
    (a b : Str)
    → classify_dependency_error (wrap a (sentinel unexpected_status) b)
      ≡ (codes "unavailable", codes "dependency_unavailable")
unfolding classify_dependency_error is as_net_error
status_classified a b = refl

interpret_of_read_err :
    (json : JsonPackage) (response : ClientResponse) (e d : Error)
    → interpret json response ≡ err e
    → read_bounded_body response.body ≡ err d
    → e ≡ d
unfolding interpret
interpret_of_read_err json response e d h r = ground arith

read_of_whole :
    (response : ClientResponse)
    → IsWhole response
    → read_bounded_body response.body ≡ ok response.body.bytes
read_of_whole response w = ground (arith, read_bounded_body_lem response.body)

module _ (json : JsonPackage) (response : ClientResponse) (e : Error)
    (h : interpret json response ≡ err e) where
  whole_good :
      IsWhole response → response.status_code ≡ 200 → decode_body json response.body.bytes ≡ err e
  whole_good w good =
      let r = read_of_whole response w in let h' = h in unfold interpret in ground arith

  whole_bad :
      IsWhole response
      → response.status_code ≢ 200
      → classify_dependency_error e ≡ (codes "unavailable", codes "dependency_unavailable")
  whole_bad w bad =
      let r = read_of_whole response w in
      let h' = h in
      let same : e
          ≡ wrap [] (sentinel unexpected_status)
              (codes ": status " ++ format_nat response.status_code) =
        unfold interpret in ground arith in
      ap classify_dependency_error same ∙ status_classified [] _

broken_off :
    (json : JsonPackage) (response : ClientResponse) (e c : Error)
    → interpret json response ≡ err e
    → length response.body.bytes ≤ max_response_body_size
    → response.body.failure ≡ some c
    → classify_dependency_error e ≡ classify_dependency_error c
broken_off json response e c h small failed =
    let r : read_bounded_body response.body ≡ err (wrap (codes "read ML service response: ") c []) =
      ground (arith, read_bounded_body_lem response.body) in
    ap classify_dependency_error (interpret_of_read_err json response e _ h r)
    ∙ wrap_classified (codes "read ML service response: ") [] c

over_the_limit :
    (json : JsonPackage) (response : ClientResponse) (e : Error)
    → interpret json response ≡ err e
    → max_response_body_size < length response.body.bytes
    → classify_dependency_error e ≡ (codes "invalid_response", codes "invalid_dependency_response")
over_the_limit json response e h large =
    let r : read_bounded_body response.body ≡ err (too_large max_response_body_size) =
      ground (arith, read_bounded_body_lem response.body) in
    ap classify_dependency_error (interpret_of_read_err json response e _ h r)
    ∙ too_large_classified max_response_body_size

-- A response that gives no metadata is reported as an invalid response if its body is over the limit,
-- whatever its status, or if it was read whole with status 200; as unavailable if it was read whole
-- with another status; and as its reader's error is, if it broke off within the limit.
pub interpret-classification :
    (json : JsonPackage) (response : ClientResponse) (e : Error)
    → interpret json response ≡ err e
    → classify_dependency_error e ≡ classification response
interpret-classification json response e h =
    elim (Bool-cases (ltb max_response_body_size (length response.body.bytes))) [
      | inl large ↦ rw large (over_the_limit json response e h (ltb→lt _ _ large))
      | inr small ↦ elim (Option-cases response.body.failure) [
        | inr (c, failed) ↦
            rw (small, failed) (broken_off json response e c h (ground arith) failed)
        | inl complete ↦ elim (Bool-cases (response.status_code == 200)) [
          | inl good ↦
              rw (small, complete, good)
                (classify-IsViolation e (
                  decode_body-IsViolation json response.body.bytes e
                    (whole_good json response e h (complete, ground arith) (ground arith))))
          | inr bad ↦
              rw (small, complete, bad)
                (whole_bad json response e h (complete, ground arith) (ground arith))
        ]
      ]
    ]
