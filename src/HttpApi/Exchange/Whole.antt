-- ===== src/HttpApi/Exchange/Whole.antt =====
-- The handler that `NewHandler` returns answers every request as it is meant to.
use grounded_search.Prelude.{
  ℕ, ℤ, ◌≡◌, refl, false, Option, none, some, List, [], ◌∷◌, ◌++◌, append_assoc, ◌∙◌, ap, subst,
  if◌then◌else◌, ◌==◌,
}
use grounded_search.Go.Str.{Str, codes}
use grounded_search.Go.Json.{Json}
use grounded_search.Go.Http.{Header, header_set, header_find, method_get}
use grounded_search.HttpApi.State.{
  State, Request, Step, returned, panicked, raw, recorded, set_header, Handler, LogEntry, completed,
  panic_recovered,
}
use grounded_search.HttpApi.RequestId.{request_id_from_request, with_request_id}
use grounded_search.HttpApi.Dependency.{Provider}
use grounded_search.HttpApi.Handlers.{Service, write_api_error, api_error_json}
use grounded_search.HttpApi.Middleware.{
  request_id_header, access_log_middleware, finish_log, recover_with, recovery_middleware,
  choose_request_id, request_id_middleware,
}
use grounded_search.HttpApi.Serve.{
  MuxPages, Route, healthz, route, route_handler, serve_mux, Moment, version_or_dev, new_handler,
}
use grounded_search.HttpApi.Exchange.Reply.{Reply, Course, replies, breaks, course, final_reply}
use grounded_search.HttpApi.Exchange.Writes.{json_headers, json_text, after_raw, write_json-raw}
use grounded_search.HttpApi.Exchange.Follows.{
  JsonHeaders, Replied, Stopped, Follows, answers, stops, json_headers-JsonHeaders,
  json_headers-allow,
}
use grounded_search.HttpApi.Exchange.Dispatch.{IsServed, route_handler-Follows}

-- The line of the access log: there is none for a handler that panics.
abbrev pub access_line : Request → Str → ℤ → Course → List LogEntry
access_line request id duration_ms (replies r) =
    completed id request.method request.path r.code duration_ms ∷ []
access_line request id duration_ms (breaks p asked) = []

-- What an exchange ends with, for a request with the given ID and course.
pub record Ends (request : Request) (id : Str) (duration_ms : ℤ) (c : Course) (s : State)
    (result : Step (Unit {0})) : Type 0 where
  pub t : State
  pub ends : result ≡ returned tt t
  pub headers : Header
  pub sent : t.sent ≡ some ((final_reply request id c).code, headers)
  pub json : JsonHeaders s.header headers
  pub allow : header_find (codes "Allow") headers ≡ (
      if (final_reply request id c).code == 405
      then some method_get
      else header_find (codes "Allow") s.header)
  pub body : t.body ≡ s.body ++ json_text (final_reply request id c).payload
  pub log :
      t.log ≡ s.log ++ ((final_reply request id c).notes ++ access_line request id duration_ms c)
  pub asked : t.asked ≡ s.asked ++ (final_reply request id c).asked
  pub counter : t.counter ≡ s.counter

module _ (request : Request) (id : Str) (duration_ms : ℤ) (s : State) (next : Handler)
    (same : request_id_from_request request ≡ id) where
  abbrev fresh_recorder : State
  fresh_recorder = record s { recorder = record { status = 200; wrote_header = false } }

  abbrev logged : Step (Unit {0})
  logged = recover_with raw request (access_log_middleware duration_ms next raw request s)

  logged_of :
      (result : Step (Unit {0}))
      → next recorded request fresh_recorder ≡ result
      → logged ≡ recover_with raw request (finish_log duration_ms request result)
  unfolding access_log_middleware
  logged_of result e = ap (λ r. recover_with raw request (finish_log duration_ms request r)) e

  reply_logged :
      (t : State) (code : ℕ)
      → t.recorder.status ≡ code
      → recover_with raw request (finish_log duration_ms request (returned tt t))
        ≡ returned tt (record t {
          log = t.log ++ (completed id request.method request.path code duration_ms ∷ []);
        })
  unfolding recover_with finish_log
  reply_logged t code agree = simp (same, agree)

  Ends-of_reply :
      (r : Reply) (t : State)
      → next recorded request fresh_recorder ≡ returned tt t
      → Replied fresh_recorder t r
      → t.recorder.status ≡ r.code
      → Ends request id duration_ms (replies r) s logged
  unfolding final_reply
  Ends-of_reply r t ran p agree =
      let line = completed id request.method request.path r.code duration_ms in
      record {
        t = record t { log = t.log ++ (line ∷ []) };
        ends = logged_of (returned tt t) ran ∙ reply_logged t r.code agree;
        headers = p.headers;
        sent = p.sent;
        json = p.json;
        allow = p.allow;
        body = p.body;
        log = ap (λ l. l ++ (line ∷ [])) p.log ∙ append_assoc s.log r.notes (line ∷ []);
        asked = p.asked;
        counter = p.counter;
      }

  abbrev panic_line : Str → LogEntry
  panic_line p = panic_recovered id request.method request.path p

  abbrev internal_error : Json
  internal_error = api_error_json (codes "internal_error") (codes "an internal error occurred") id

  panic_reply :
      (p : Str) (t : State)
      → t.sent ≡ none
      → recover_with raw request (panicked p t)
        ≡ returned tt
            (after_raw 500 internal_error (record t { log = t.log ++ (panic_line p ∷ []) }))
  unfolding recover_with write_api_error
  panic_reply p t unsent =
      simp same
        (write_json-raw 500 internal_error (record t { log = t.log ++ (panic_line p ∷ []) }) unsent)

  Ends-of_panic :
      (p : Str) (asked : List Str) (t : State)
      → next recorded request fresh_recorder ≡ panicked p t
      → Stopped fresh_recorder t asked
      → Ends request id duration_ms (breaks p asked) s logged
  unfolding final_reply finish_log
  Ends-of_panic p asked t ran st = record {
    t = after_raw 500 internal_error (record t { log = t.log ++ (panic_line p ∷ []) });
    ends = logged_of (panicked p t) ran ∙ panic_reply p t st.sent;
    headers = json_headers s.header;
    sent = rw st.header;
    json = json_headers-JsonHeaders s.header;
    allow = json_headers-allow s.header;
    body = rw st.body;
    log = rw st.log;
    asked = st.asked_for;
    counter = st.counter;
  }

  Ends-of_Follows :
      (c : Course)
      → Follows fresh_recorder c (next recorded request fresh_recorder)
      → Ends request id duration_ms c s logged
  Ends-of_Follows c (answers r t e ran p agree) = rw e (Ends-of_reply r t ran p agree)
  Ends-of_Follows c (stops p asked t e ran st) = rw e (Ends-of_panic p asked t ran st)

module _ (pages : MuxPages) (version : Str) (client : Option Provider) (moment : Moment)
    (request : Request) (s : State) where
  abbrev pub service : Service
  service = record {
    version = version_or_dev version;
    since_start = moment.since_start;
    model_info_client = client;
  }

  -- The counter and the ID of this exchange.
  abbrev pub chosen : ℕ × Str
  chosen = choose_request_id moment.entropy request s.counter

  -- The state with which the handlers behind the request ID start.
  abbrev pub started : State
  started = record s { counter = chosen.0; header = header_set request_id_header chosen.1 s.header }

  route_same : route (with_request_id chosen.1 request) ≡ route request
  unfolding route with_request_id
  route_same = refl

  course_same :
      (r : Route)
      → course service (with_request_id chosen.1 request) chosen.1 r
        ≡ course service request chosen.1 r
  unfolding course with_request_id
  course_same healthz = refl
  course_same _ = refl

  -- Every request that ServeMux does not answer itself, and for which nothing was sent yet, gets
  -- one answer, which is that of its course: the status and the JSON body, with its content type,
  -- no caching, the ID of the exchange in the header and, where the method is refused, the method
  -- that is allowed. The lines of the handlers and that of the access log, with the status that
  -- went out, are logged. A panic is answered by an internal error that says nothing of it, and
  -- has no line in the access log.
  pub new_handler-Ends :
      s.sent ≡ none
      → IsServed (route request)
      → Ends
          (with_request_id chosen.1 request)
          chosen.1
          moment.duration_ms
          (course service request chosen.1 (route request))
          started
          (new_handler pages version client moment raw request s)
  unfolding new_handler
  new_handler-Ends unsent served =
      let request' = with_request_id chosen.1 request in
      let start = record started { recorder = record { status = 200; wrote_header = false } } in
      let ran = route_handler pages service (route request) recorded request' start in
      let follows : Follows start (course service request chosen.1 (route request)) ran =
        subst (λ c. Follows start c ran) (course_same (route request))
          (route_handler-Follows pages service request' chosen.1 (route request) start served
            (record { sent = unsent; wrote_header = refl })
            (unfold with_request_id request_id_from_request in refl)) in
      unfold request_id_middleware recovery_middleware serve_mux set_header with_request_id route in
      Ends-of_Follows request' chosen.1 moment.duration_ms started (serve_mux pages service)
        (unfold request_id_from_request in refl) (course service request chosen.1 (route request))
        follows
