-- ===== src/HttpApi/Body.antt =====
-- The bodies that go out, as a JSON decoder reads them.
use grounded_search.Prelude.{
  ℤ, ◌≤◌, ◌≡◌, refl, ap, ◌∙◌, arith, Option, none, some, [], ◌∷◌, ◌++◌, ok, err, Bool-cases, inl,
  inr,
}
use grounded_search.Go.Str.{Str, codes, str_eq}
use grounded_search.Go.Json.{Json, nullable}
use grounded_search.Go.Json.Parser.{parse}
use grounded_search.Go.Json.Numbers.{ends_number}
use grounded_search.Go.Json.RoundTrip.{value_of, height, height_of_fields}
use grounded_search.Go.Json.RoundTrip.Whole.{parse-encode}
use grounded_search.HttpApi.State.{State, Request, Step, returned, raw}
use grounded_search.HttpApi.RequestId.{with_request_id}
use grounded_search.HttpApi.Dependency.{
  MlServiceStatus, ml_service_json, error_field, Provider, Provided, answered, crashed,
}
use grounded_search.HttpApi.Handlers.{Service, api_error_json, health_json, system_status_json}
use grounded_search.HttpApi.Serve.{
  MuxPages, Route, healthz, readyz, status, route, Moment, new_handler,
}
use grounded_search.HttpApi.Exchange.Reply.{
  Course, course, get_only, status_course, from_provided, final_reply,
}
use grounded_search.HttpApi.Exchange.Writes.{json_text}
use grounded_search.HttpApi.Exchange.Dispatch.{IsServed}
use grounded_search.HttpApi.Exchange.Whole.{service, chosen, new_handler-Ends}

-- Few objects stand inside each other.
abbrev IsFlat : Json → Type 0
IsFlat j = height j ≤ 10000

height-nullable : (o : Option Str) → height (nullable o) ≡ 0
unfolding height
height-nullable none = refl
height-nullable (some s) = refl

height-error_field : (e : Str) → height_of_fields (error_field e) ≡ 0
unfolding height
height-error_field [] = refl
height-error_field (c ∷ e) = refl

api_error_json-IsFlat : (code message id : Str) → IsFlat (api_error_json code message id)
unfolding api_error_json height
api_error_json-IsFlat code message [] = omega arith
api_error_json-IsFlat code message (c ∷ id) = omega arith

health_json-IsFlat : (state version : Str) → IsFlat (health_json state version)
unfolding health_json height
health_json-IsFlat state version = omega arith

system_status_json-IsFlat :
    (state version : Str) (uptime : ℤ) (m : MlServiceStatus)
    → IsFlat (system_status_json state version uptime m)
unfolding system_status_json ml_service_json height
system_status_json-IsFlat state version uptime m =
    let a = height-nullable m.version in
    let b = height-nullable m.mode in
    let c = height-nullable m.embedding_model in
    let d = height-nullable m.reranker_model in
    let e = height-nullable m.python_version in
    let f = height-nullable m.environment in let g = height-error_field m.error in omega arith

-- `named` is the request with its ID.
module _ (served : Service) (request named : Request) (id : Str) where
  abbrev ReplyIsFlat : Course → Type 0
  ReplyIsFlat c = IsFlat (final_reply named id c).payload

  get_only-IsFlat : (c : Course) → ReplyIsFlat c → ReplyIsFlat (get_only request id c)
  unfolding final_reply
  get_only-IsFlat c h = elim (Bool-cases (str_eq request.method (codes "GET"))) [
    | inl get ↦ rw get h
    | inr refused ↦ rw refused (api_error_json-IsFlat _ _ id)
  ]

  provided-IsFlat : (p : Provided) → ReplyIsFlat (from_provided served id p)
  unfolding final_reply
  provided-IsFlat (crashed p) = api_error_json-IsFlat _ _ id
  provided-IsFlat (answered (ok info)) = system_status_json-IsFlat _ _ _ _
  provided-IsFlat (answered (err e)) = system_status_json-IsFlat _ _ _ _

  status-IsFlat : (client : Option Provider) → ReplyIsFlat (status_course served id client)
  unfolding final_reply status_course
  status-IsFlat none = system_status_json-IsFlat _ _ _ _
  status-IsFlat (some provider) = provided-IsFlat (provider id)

  course-IsFlat : (r : Route) → ReplyIsFlat (course served request id r)
  unfolding course
  course-IsFlat healthz = get_only-IsFlat _ (unfold final_reply in health_json-IsFlat _ _)
  course-IsFlat readyz = get_only-IsFlat _ (unfold final_reply in health_json-IsFlat _ _)
  course-IsFlat status = get_only-IsFlat _ (status-IsFlat served.model_info_client)
  course-IsFlat _ = unfold final_reply in api_error_json-IsFlat _ _ id

-- An exchange with one answer, whose body is one JSON value and the end of a line.
pub record OneValue (payload : Json) (result : Step (Unit {0})) : Type 0 where
  pub t : State
  pub ends : result ≡ returned tt t
  pub rest : Str
  pub first : parse t.body ≡ some (ok (value_of payload, rest))
  pub last : parse rest ≡ none

parse-json_text : (j : Json) → IsFlat j → parse (json_text j) ≡ some (ok (value_of j, 10 ∷ []))
parse-json_text j h = parse-encode j (10 ∷ []) (unfold ends_number in refl) h

parse-line_end : parse (10 ∷ []) ≡ none
unfolding parse
parse-line_end = refl

-- Every request that ServeMux does not answer itself, and for which nothing was sent or written yet,
-- gets a body that a JSON decoder reads as one value, with nothing but a line break behind it: the
-- payload of the intended reply, with its numbers as they are and with U+FFFD for the bytes of a
-- string that are no UTF-8. That holds too where the handler panics.
pub new_handler-OneValue :
    (pages : MuxPages) (version : Str) (client : Option Provider) (moment : Moment)
    (request : Request) (s : State)
    → s.sent ≡ none
    → s.body ≡ []
    → IsServed (route request)
    → OneValue
        (final_reply
          (with_request_id (chosen pages version client moment request s).1 request)
          (chosen pages version client moment request s).1
          (course
            (service pages version client moment request s)
            request
            (chosen pages version client moment request s).1
            (route request))).payload
        (new_handler pages version client moment raw request s)
new_handler-OneValue pages version client moment request s unsent empty served =
    let id = (chosen pages version client moment request s).1 in
    let request' = with_request_id id request in
    let serving = service pages version client moment request s in
    let c = course serving request id (route request) in
    let e = new_handler-Ends pages version client moment request s unsent served in
    let payload = (final_reply request' id c).payload in
    let flat : IsFlat payload = course-IsFlat serving request request' id (route request) in
    record {
      t = e.t;
      ends = e.ends;
      rest = 10 ∷ [];
      first =
          ap parse (e.body ∙ ap (λ b. b ++ json_text payload) empty) ∙ parse-json_text payload flat;
      last = parse-line_end;
    }
