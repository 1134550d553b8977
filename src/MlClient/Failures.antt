-- ===== src/MlClient/Failures.antt =====
-- How the errors of a call are told apart by errors.Is.
use grounded_search.Prelude.{
  ◌≡◌, ◌≢◌, ◌≤◌, ◌<◌, ◌⊎◌, ◌↔◌, true, false, none, some, length, ok, err, ◌==◌, ltb, arith, [],
  Result-cases, Option-cases, Bool-cases, ltb→lt, inl, inr, ◌∙◌,
}
use grounded_search.Go.Str.{Str, codes}
use grounded_search.Go.Errors.{Error, invalid_response, unexpected_status, wrap, is}
use grounded_search.Go.Http.{ClientResponse}
use grounded_search.MlClient.Defs.{max_response_body_size}
use grounded_search.MlClient.Info.{ModelInfo, validate_model_info}
use grounded_search.MlClient.Bounded.{read_bounded_body_lem, read_bounded_body-eq-ok}
use grounded_search.MlClient.Fetch.{
  JsonPackage, too_large, read_bounded_body, ensure_single_json_value, unless_error, decode_body,
  interpret,
}

-- The two variables of the package.
abbrev pub Unrelated : Error → Type 0
Unrelated e = (is e invalid_response ≡ false) × (is e unexpected_status ≡ false)

-- The errors of a reader and of a HTTP client do not wrap the package's own variables.
abbrev pub UnrelatedFailure : ClientResponse → Type 0
UnrelatedFailure response = (e : Error) → response.body.failure ≡ some e → Unrelated e

-- A whole answer of the right status.
abbrev pub IsWhole : ClientResponse → Type 0
IsWhole response =
    (response.body.failure ≡ none) × (length response.body.bytes ≤ max_response_body_size)

ensure_single-invalid :
    (json : JsonPackage) (rest : Str) (e : Error)
    → ensure_single_json_value json rest ≡ some e
    → (is e invalid_response ≡ true) × (is e unexpected_status ≡ false)
unfolding ensure_single_json_value is
ensure_single-invalid json rest e h = ground arith

validate-invalid :
    (info : ModelInfo) (e : Error)
    → validate_model_info info ≡ some e
    → (is e invalid_response ≡ true) × (is e unexpected_status ≡ false)
unfolding validate_model_info is
validate-invalid info e h = ground arith

-- Whatever goes wrong behind the status check violates the contract.
decode_body-invalid :
    (json : JsonPackage) (body : Str) (e : Error)
    → decode_body json body ≡ err e
    → (is e invalid_response ≡ true) × (is e unexpected_status ≡ false)
unfolding decode_body unless_error is
decode_body-invalid json body e h = elim (Result-cases (json.decode_info body)) [
  | inl ((info, rest), found) ↦
      ground (arith, ensure_single-invalid json rest e, validate-invalid info e)
  | inr (d, failed) ↦ ground arith
]

-- A read that fails is a body over the limit, or the reader's own error.
read-cases :
    (response : ClientResponse) (e : Error)
    → read_bounded_body response.body ≡ err e
    → ((max_response_body_size < length response.body.bytes)
        × (e ≡ too_large max_response_body_size))
      ⊎ ((length response.body.bytes ≤ max_response_body_size)
          × (d : Error) × (response.body.failure ≡ some d)
          × (e ≡ wrap (codes "read ML service response: ") d []))
read-cases response e h =
    elim (Bool-cases (ltb max_response_body_size (length response.body.bytes))) [
      | inl large ↦ inl (ltb→lt _ _ large, ground (arith, read_bounded_body_lem response.body))
      | inr small ↦ elim (Option-cases response.body.failure) [
        | inl complete ↦ absurd (ground (arith, read_bounded_body_lem response.body))
        | inr (d, failed) ↦
            inr (ground arith, d, failed, ground (arith, read_bounded_body_lem response.body))
      ]
    ]

-- A body within the limit that is read to its end.
read_ok :
    (response : ClientResponse) (body : Str)
    → read_bounded_body response.body ≡ ok body
    → IsWhole response
read_ok response body h =
    let (whole, complete, bounded) = read_bounded_body-eq-ok response.body h in
    (complete, rw (← whole) bounded)

pub record Verdict (response : ClientResponse) (e : Error) : Type 0 where
  pub invalid : (is e invalid_response ≡ true) ↔ (
      (max_response_body_size < length response.body.bytes)
      ⊎ (IsWhole response × (response.status_code ≡ 200)))
  pub status : (is e unexpected_status ≡ true) ↔ (IsWhole response × (response.status_code ≢ 200))

module _ (json : JsonPackage) (response : ClientResponse) (e : Error) where
  Verdict-of_large :
      max_response_body_size < length response.body.bytes
      → e ≡ too_large max_response_body_size
      → Verdict response e
  unfolding is
  Verdict-of_large large same = record { invalid = ground arith; status = ground arith }

  Verdict-of_failed :
      (c : Error)
      → length response.body.bytes ≤ max_response_body_size
      → response.body.failure ≡ some c
      → Unrelated c
      → e ≡ wrap (codes "read ML service response: ") c []
      → Verdict response e
  unfolding is
  Verdict-of_failed c small failed unrelated same = record {
    invalid = ground arith;
    status = ground arith;
  }

  Verdict-of_status :
      IsWhole response
      → response.status_code ≢ 200
      → (is e invalid_response ≡ false) × (is e unexpected_status ≡ true)
      → Verdict response e
  Verdict-of_status whole status flags = record { invalid = ground arith; status = ground arith }

  Verdict-of_contract :
      IsWhole response
      → response.status_code ≡ 200
      → (is e invalid_response ≡ true) × (is e unexpected_status ≡ false)
      → Verdict response e
  Verdict-of_contract whole status flags = record { invalid = ground arith; status = ground arith }

  Verdict-of_body :
      (body : Str)
      → read_bounded_body response.body ≡ ok body
      → interpret json response ≡ err e
      → Verdict response e
  unfolding interpret is
  Verdict-of_body body r h = elim (Bool-cases (response.status_code == 200)) [
    | inl good ↦
        Verdict-of_contract (read_ok response body r) (ground arith)
          (decode_body-invalid json body e (ground arith))
    | inr bad ↦ Verdict-of_status (read_ok response body r) (ground arith) (ground arith)
  ]

  Verdict-of_read :
      (d : Error)
      → UnrelatedFailure response
      → e ≡ d
      → read_bounded_body response.body ≡ err d
      → Verdict response e
  Verdict-of_read d unrelated same r = elim (read-cases response d r) [
    | inl (large, found) ↦ Verdict-of_large large (same ∙ found)
    | inr (small, c, failed, found) ↦
        Verdict-of_failed c small failed (unrelated c failed) (same ∙ found)
  ]

  -- A response that gives no metadata gives an error that is ErrInvalidResponse exactly when its body
  -- is over the limit, whatever its status, or it was read whole with status 200, and is
  -- ErrUnexpectedStatus exactly when it was read whole with another status. The reader's own error
  -- is assumed to be neither.
  pub interpret-Verdict :
      UnrelatedFailure response → interpret json response ≡ err e → Verdict response e
  interpret-Verdict unrelated h = elim (Result-cases (read_bounded_body response.body)) [
    | inl (body, r) ↦ Verdict-of_body body r h
    | inr (d, r) ↦ Verdict-of_read d unrelated (unfold interpret in ground arith) r
  ]
