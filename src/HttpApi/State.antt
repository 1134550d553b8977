-- ===== src/HttpApi/State.antt =====
-- The request, the two response writers, the log and the state of one exchange; the recorder of
-- handler.go stands here with the writer of net/http that it wraps.
use grounded_search.Prelude.{
  ℕ, ℤ, Bool, true, Option, none, some, List, [], ◌∷◌, ◌++◌, if◌then◌else◌,
}
use grounded_search.Go.Str.{Str}
use grounded_search.Go.Errors.{Error}
use grounded_search.Go.Http.{Header, header_set}

-- What the code reads of *http.Request. `path` is URL.Path and `escaped_path` its encoded form;
-- `context_id` is the value of the context under the request ID's key.
pub record Request : Type 0 where
  pub method : Str
  pub request_uri : Str
  pub path : Str
  pub escaped_path : Str
  pub raw_query : Str
  pub header : Header
  pub context_id : Option Str

-- The fields of one line of the log.
pub data LogEntry : Type 0 where
  completed : Str → Str → Str → ℕ → ℤ → LogEntry
  dependency_failed : Str → Str → Error → LogEntry
  panic_recovered : Str → Str → Str → Str → LogEntry

-- statusRecorder, without the writer in it.
pub record Recorder : Type 0 where
  pub status : ℕ
  pub wrote_header : Bool

-- `header` is the map that handlers change; `sent` is the status line and the headers that went out,
-- once they did; `body` is what was written behind them. `counter` is the fallback counter of the
-- request IDs, `asked` are the request IDs passed on to the ML service.
pub record State : Type 0 where
  pub header : Header
  pub sent : Option (ℕ × Header)
  pub body : Str
  pub recorder : Recorder
  pub counter : ℕ
  pub log : List LogEntry
  pub asked : List Str

pub data Step (A : Type 0) : Type 0 where
  returned : A → State → Step A
  panicked : Str → State → Step A

abbrev pub Run : Type 0 → Type 0
Run A = State → Step A

-- A panic ends the rest of a handler.
abbrev pub ◌>>=◌ : {A B : Type 0} → Run A → (A → Run B) → Run B
◌>>=◌ first rest s = elim (first s) [
  | panicked reason t ↦ panicked reason t
  | returned result t ↦ rest result t
]

abbrev pub ◌>>◌ : {B : Type 0} → Run (Unit {0}) → Run B → Run B
◌>>◌ first rest = first >>= (λ done. rest)

infixl 5 ◌>>=◌ ◌>>◌
abbrev pub return : {A : Type 0} → A → Run A
return a s = returned a s

abbrev pub append_log : LogEntry → Run (Unit {0})
append_log entry s = returned tt (record s { log = s.log ++ (entry ∷ []) })

-- The writer that a handler is given: net/http's own, or the recorder around it.
pub data Writer : Type 0 where
  raw recorded : Writer

-- http.ResponseWriter: the headers go out with the first status; a later status is ignored.
unfoldable pub send_status : ℕ → State → State
send_status status s = elim s.sent [
  | none ↦ record s { sent = some (status, s.header) }
  | some _ ↦ s
]

-- `writer.Header().Set(name, value)`; the recorder passes Header on.
unfoldable pub set_header : Writer → Str → Str → Run (Unit {0})
set_header w name value s = returned tt (record s { header = header_set name value s.header })

-- The WriteHeader of the recorder, on the state.
unfoldable pub record_status : ℕ → State → State
unfolding send_status
record_status status s =
    if s.recorder.wrote_header
    then s
    else send_status status
        (record s { recorder = record { status = status; wrote_header = true } })

unfoldable pub write_header : Writer → ℕ → Run (Unit {0})
unfolding send_status record_status
write_header raw status s = returned tt (send_status status s)
write_header recorded status s = returned tt (record_status status s)

abbrev append_body : Str → State → State
append_body bytes s = record s { body = s.body ++ bytes }

-- Write sends status 200 first where no status went out.
unfoldable pub write : Writer → Str → Run (Unit {0})
unfolding send_status record_status
write raw bytes s = returned tt (append_body bytes (send_status 200 s))
write recorded bytes s = returned tt (append_body bytes (send_status 200 (record_status 200 s)))

abbrev pub Handler : Type 0
Handler = Writer → Request → Run (Unit {0})
