-- ===== src/MlClient/Answers.antt =====
-- When a call returns metadata.
use grounded_search.Prelude.{
  ℤ, ◌≡◌, ◌≤◌, ◌↔◌, true, none, length, ok, err, arith, Result-cases, inl, inr,
}
use grounded_search.Go.Str.{Str}
use grounded_search.Go.Errors.{Error, eof, is}
use grounded_search.Go.Url.{UrlPackage}
use grounded_search.Go.Http.{ClientRequest, ClientResponse, method_get, new_request}
use grounded_search.MlClient.Defs.{Client, HttpDoer, max_response_body_size}
use grounded_search.MlClient.Info.{
  ModelInfo, validate_model_info, MeetsContract, validate_model_info-eq-none,
}
use grounded_search.MlClient.Bounded.{read_bounded_body_lem, read_bounded_body-eq-ok}
use grounded_search.MlClient.Fetch.{
  JsonPackage, read_bounded_body, ensure_single_json_value, unless_error, decode_body, interpret,
  endpoint, with_headers, do_request,
}

-- A response that carries metadata: status 200, a body of at most a mebibyte that is one JSON value
-- and nothing behind it, and a value that meets the contract.
pub record Carries (json : JsonPackage) (response : ClientResponse) (info : ModelInfo)
    : Type 0 where
  pub complete : response.body.failure ≡ none
  pub bounded : length response.body.bytes ≤ max_response_body_size
  pub status : response.status_code ≡ 200
  pub rest : Str
  pub decoded : json.decode_info response.body.bytes ≡ ok (info, rest)
  pub ending : Error
  pub ended : json.decode_any rest ≡ err ending
  pub is_end : is ending eof ≡ true
  pub valid : MeetsContract info

ended_of_single :
    (json : JsonPackage) (rest : Str)
    → ensure_single_json_value json rest ≡ none
    → (e : Error) × (json.decode_any rest ≡ err e) × (is e eof ≡ true)
unfolding ensure_single_json_value
ended_of_single json rest h = elim (Result-cases (json.decode_any rest)) [
  | inl (more, e) ↦ absurd (ground arith)
  | inr (ending, e) ↦ (ending, e, ground arith)
]

single_of_ended :
    (json : JsonPackage) (rest : Str) (e : Error)
    → json.decode_any rest ≡ err e
    → is e eof ≡ true
    → ensure_single_json_value json rest ≡ none
unfolding ensure_single_json_value
single_of_ended json rest e h k = ground arith

-- The parts of a successful decoding.
record Decodes (json : JsonPackage) (body : Str) (info : ModelInfo) : Type 0 where
  rest : Str
  decoded : json.decode_info body ≡ ok (info, rest)
  single : ensure_single_json_value json rest ≡ none
  valid : validate_model_info info ≡ none

Decodes-of_pair :
    (json : JsonPackage) (body : Str) (found info : ModelInfo) (rest : Str)
    → json.decode_info body ≡ ok (found, rest)
    → decode_body json body ≡ ok info
    → Decodes json body info
unfolding decode_body unless_error
Decodes-of_pair json body found info rest e h =
    let same : found ≡ info = ground arith in
    record { rest = rest; decoded = rw (← same) e; single = ground arith; valid = ground arith }

decode_body_sound :
    (json : JsonPackage) (body : Str) (info : ModelInfo)
    → decode_body json body ≡ ok info
    → Decodes json body info
decode_body_sound json body info h = elim (Result-cases (json.decode_info body)) [
  | inl ((found, rest), e) ↦ Decodes-of_pair json body found info rest e h
  | inr (x, e) ↦ absurd (unfold decode_body in ground arith)
]

decode_body_complete :
    (json : JsonPackage) (body : Str) (info : ModelInfo)
    → Decodes json body info
    → decode_body json body ≡ ok info
unfolding decode_body unless_error
decode_body_complete json body info d = ground arith

interpret_sound :
    (json : JsonPackage) (response : ClientResponse) (info : ModelInfo)
    → interpret json response ≡ ok info
    → Carries json response info
interpret_sound json response info h = elim (Result-cases (read_bounded_body response.body)) [
  | inl (body, r) ↦
      let (whole, complete, bounded) = read_bounded_body-eq-ok response.body r in
      let status : response.status_code ≡ 200 = unfold interpret in ground arith in
      let d : Decodes json body info =
        decode_body_sound json body info (unfold interpret in ground arith) in
      let (ending, ended, is_end) = ended_of_single json d.rest d.single in
      record {
        complete = complete;
        bounded = rw whole at bounded;
        status = status;
        rest = d.rest;
        decoded = rw whole at (d.decoded);
        ending = ending;
        ended = ended;
        is_end = is_end;
        valid = (validate_model_info-eq-none info).0 d.valid;
      }
  | inr (e, r) ↦ absurd (unfold interpret in ground arith)
]

read_of_bounded :
    (response : ClientResponse)
    → response.body.failure ≡ none
    → length response.body.bytes ≤ max_response_body_size
    → read_bounded_body response.body ≡ ok response.body.bytes
read_of_bounded response c b = ground (arith, read_bounded_body_lem response.body)

interpret_complete :
    (json : JsonPackage) (response : ClientResponse) (info : ModelInfo)
    → Carries json response info
    → interpret json response ≡ ok info
unfolding interpret
interpret_complete json response info c =
    let d : decode_body json response.body.bytes ≡ ok info =
      decode_body_complete json response.body.bytes info (record {
        rest = c.rest;
        decoded = c.decoded;
        single = single_of_ended json c.rest c.ending c.ended c.is_end;
        valid = (validate_model_info-eq-none info).1 c.valid;
      }) in
    ground (arith, read_of_bounded response c.complete c.bounded, d)

-- A response is turned into metadata exactly when it carries it.
pub interpret-eq-ok :
    (json : JsonPackage) (response : ClientResponse) (info : ModelInfo)
    → (interpret json response ≡ ok info) ↔ Carries json response info
interpret-eq-ok json response info =
    (interpret_sound json response info, interpret_complete json response info)

module _ (urls : UrlPackage) (json : JsonPackage) (http_do : ℤ → HttpDoer) (client : Client)
    (id : Str) where
  -- The request that is built for the endpoint, and a response to it that carries the metadata.
  pub record Obtains (info : ModelInfo) : Type 0 where
    pub bare : ClientRequest
    pub built : new_request urls method_get (urls.to_string (endpoint client)) ≡ ok bare
    pub response : ClientResponse
    pub received : do_request http_do client.http_client (with_headers id bare) ≡ ok response
    pub carries : Carries json response info
