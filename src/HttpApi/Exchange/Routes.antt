-- ===== src/HttpApi/Exchange/Routes.antt =====
-- The proofs that the route handlers follow their courses.
use grounded_search.Prelude.{
  ℕ, ◌≡◌, refl, false, Option, none, some, [], ◌∷◌, ◌++◌, append-nil, ◌==◌, ok, err, Bool-cases,
  inl, inr, sym, ◌∙◌,
}
use grounded_search.Go.Str.{Str, codes, str_eq}
use grounded_search.Go.Json.{Json}
use grounded_search.Go.Http.{header_set, method_get}
use grounded_search.Go.Http.HeaderLaws.{header_find-header_set_self, header_find-header_set_ne}
use grounded_search.HttpApi.State.{
  State, Request, Step, returned, panicked, recorded, set_header, Handler, ◌>>◌, dependency_failed,
}
use grounded_search.HttpApi.RequestId.{request_id_from_request}
use grounded_search.HttpApi.Dependency.{
  Provided, Provider, answered, crashed, ml_service_status, classify_dependency_error,
  unavailable_ml_service_status, ready_ml_service_status, MlServiceStatus,
}
use grounded_search.HttpApi.Handlers.{
  Service, write_json, write_api_error, system_status, not_found, system_status_json,
  overall_status, uptime_seconds, api_error_json,
}
use grounded_search.HttpApi.Middleware.{request_id_header, require_method}
use grounded_search.HttpApi.Exchange.Reply.{
  Reply, Course, replies, status_course, plain, get_only, from_provided,
}
use grounded_search.HttpApi.Exchange.Writes.{json_headers, after_recorded, write_json-recorded}
use grounded_search.HttpApi.Exchange.Follows.{
  Follows, answers, stops, json_headers-JsonHeaders, json_headers-allow, allow_is_other_id,
}

-- A new recorder around a writer to which nothing was written.
pub record IsFresh (s : State) : Type 0 where
  pub sent : s.sent ≡ none
  pub wrote_header : s.recorder.wrote_header ≡ false

-- A JSON answer behind the lines and the calls that a handler made before it.
answer_after :
    (s u : State) (r : Reply)
    → IsFresh u
    → u.header ≡ s.header
    → u.body ≡ s.body
    → u.log ≡ s.log ++ r.notes
    → u.asked ≡ s.asked ++ r.asked
    → u.counter ≡ s.counter
    → (r.code == 405) ≡ false
    → Follows s (replies r) (write_json recorded r.code r.payload u)
answer_after s u r fresh header body log asked counter ne =
    answers r (after_recorded r.code r.payload u) refl
      (write_json-recorded r.code r.payload u fresh.sent fresh.wrote_header)
      (record {
        headers = json_headers s.header;
        sent = rw header;
        json = json_headers-JsonHeaders s.header;
        allow = rw ne (json_headers-allow s.header);
        body = rw body;
        log = log;
        asked = asked;
        counter = counter;
      })
      refl

module _ (s : State) (fresh : IsFresh s) where
  pub plain-Follows :
      (code : ℕ) (payload : Json)
      → (code == 405) ≡ false
      → Follows s (plain code payload) (write_json recorded code payload s)
  plain-Follows code payload ne =
      answer_after s s (record { code = code; payload = payload; notes = []; asked = [] }) fresh
        refl refl (sym (append-nil s.log)) (sym (append-nil s.asked)) refl ne

  -- The refusal of a method.
  refused-Follows :
      (payload : Json)
      → Follows s
          (plain 405 payload)
          ((set_header recorded (codes "Allow") method_get >> write_json recorded 405 payload) s)
  unfolding set_header
  refused-Follows payload =
      let allowed = header_set (codes "Allow") method_get s.header in
      let u = record s { header = allowed } in
      let j = json_headers-JsonHeaders allowed in
      answers (record { code = 405; payload = payload; notes = []; asked = [] })
        (after_recorded 405 payload u) refl
        (write_json-recorded 405 payload u fresh.sent fresh.wrote_header)
        (record {
          headers = json_headers allowed;
          sent = refl;
          json = record {
            content_type = j.content_type;
            cache_control = j.cache_control;
            request_id =
                j.request_id
                ∙ header_find-header_set_ne request_id_header (codes "Allow") method_get s.header
                    allow_is_other_id;
          };
          allow =
              json_headers-allow allowed
              ∙ header_find-header_set_self (codes "Allow") method_get s.header;
          body = refl;
          log = sym (append-nil s.log);
          asked = sym (append-nil s.asked);
          counter = refl;
        })
        refl

  -- What the method check does to a handler that follows a course.
  pub require_method-Follows :
      (request : Request) (id : Str) (c : Course) (next : Handler)
      → request_id_from_request request ≡ id
      → Follows s c (next recorded request s)
      → Follows s (get_only request id c) (require_method method_get next recorded request s)
  unfolding require_method write_api_error
  require_method-Follows request id c next same f =
      elim (Bool-cases (str_eq request.method method_get)) [
        | inl get ↦ rw get f
        | inr other ↦ rw (other, same) (refused-Follows _)
      ]

  ask :
      (provider : Provider) (request : Request) (id : Str)
      → request_id_from_request request ≡ id
      → (p : Provided) → provider id ≡ p
      → ml_service_status (some provider) request s ≡ (elim p [
        | crashed text ↦ panicked text (record s { asked = s.asked ++ (id ∷ []) })
        | answered (ok info) ↦
            returned (ready_ml_service_status info) (record s { asked = s.asked ++ (id ∷ []) })
        | answered (err e) ↦
            returned
              (unavailable_ml_service_status
                (classify_dependency_error e).1
                (classify_dependency_error e).0)
              (record s {
                asked = s.asked ++ (id ∷ []);
                log = s.log ++ (dependency_failed id (classify_dependency_error e).0 e ∷ []);
              })
      ])
  unfolding ml_service_status
  ask provider request id same (crashed p) e = simp (same, e)
  ask provider request id same (answered (ok info)) e = simp (same, e)
  ask provider request id same (answered (err x)) e = simp (same, e)

  -- The handler behind the question to the ML service.
  behind : Service → Step MlServiceStatus → Step (Unit {0})
  behind service (panicked p t) = panicked p t
  behind service (returned dependency t) =
      write_json recorded 200
        (system_status_json (overall_status dependency) service.version
          (uptime_seconds service.since_start) dependency)
        t

  system_status-behind :
      (service : Service) (request : Request)
      → system_status service recorded request s
        ≡ behind service (ml_service_status service.model_info_client request s)
  unfolding system_status behind
  system_status-behind service request = refl

  behind-Follows :
      (service : Service) (id : Str) (p : Provided) (step : Step MlServiceStatus)
      → step ≡ (elim p [
        | crashed text ↦ panicked text (record s { asked = s.asked ++ (id ∷ []) })
        | answered (ok info) ↦
            returned (ready_ml_service_status info) (record s { asked = s.asked ++ (id ∷ []) })
        | answered (err e) ↦
            returned
              (unavailable_ml_service_status
                (classify_dependency_error e).1
                (classify_dependency_error e).0)
              (record s {
                asked = s.asked ++ (id ∷ []);
                log = s.log ++ (dependency_failed id (classify_dependency_error e).0 e ∷ []);
              })
      ])
      → Follows s (from_provided service id p) (behind service step)
  unfolding behind
  behind-Follows service id (crashed p) step e = rw e (
      stops p (id ∷ []) (record s { asked = s.asked ++ (id ∷ []) }) refl refl
        (record {
          header = refl;
          sent = fresh.sent;
          body = refl;
          log = refl;
          asked_for = refl;
          counter = refl;
        }))
  behind-Follows service id (answered (ok info)) step e = rw e (
      answer_after s (record s { asked = s.asked ++ (id ∷ []) }) _
        (record { sent = fresh.sent; wrote_header = fresh.wrote_header }) refl refl
        (sym (append-nil s.log)) refl refl refl)
  behind-Follows service id (answered (err x)) step e = rw e (
      answer_after s
        (record s {
          asked = s.asked ++ (id ∷ []);
          log = s.log ++ (dependency_failed id (classify_dependency_error x).0 x ∷ []);
        })
        _ (record { sent = fresh.sent; wrote_header = fresh.wrote_header }) refl refl refl refl refl
        refl)

  pub status-Follows :
      (service : Service) (request : Request) (id : Str)
      → request_id_from_request request ≡ id
      → (client : Option Provider) → service.model_info_client ≡ client
      → Follows s (status_course service id client) (system_status service recorded request s)
  unfolding status_course
  status-Follows service request id same none e = rw (system_status-behind service request) (
      rw e (
        unfold behind ml_service_status in
        answer_after s s _ fresh refl refl (sym (append-nil s.log)) (sym (append-nil s.asked)) refl
          refl))
  status-Follows service request id same (some provider) e =
      rw (system_status-behind service request) (
        behind-Follows service id (provider id) _
          (rw e (ask provider request id same (provider id) refl)))

  pub not_found-Follows :
      (request : Request) (id : Str)
      → request_id_from_request request ≡ id
      → Follows s
          (plain 404
            (api_error_json (codes "not_found") (codes "the requested resource was not found") id))
          (not_found recorded request s)
  unfolding not_found write_api_error
  not_found-Follows request id same = rw same (plain-Follows 404 _ refl)
