-- ===== src/HttpApi/Exchange/Writes.antt =====
-- What a JSON answer does to an exchange in which nothing went out yet.
use grounded_search.Prelude.{ℕ, ◌≡◌, true, false, none, some, [], ◌∷◌, ◌++◌}
use grounded_search.Go.Str.{Str, codes}
use grounded_search.Go.Json.{Json, encode}
use grounded_search.Go.Http.{Header, header_set}
use grounded_search.HttpApi.State.{
  State, returned, raw, recorded, set_header, write_header, write, send_status, record_status,
}
use grounded_search.HttpApi.Handlers.{write_json, json_type}

abbrev pub json_headers : Header → Header
json_headers h =
    header_set (codes "Cache-Control") (codes "no-store")
      (header_set (codes "Content-Type") json_type h)

abbrev pub json_text : Json → Str
json_text payload = encode payload ++ (10 ∷ [])

abbrev pub after_raw : ℕ → Json → State → State
after_raw status payload s = record s {
  header = json_headers s.header;
  sent = some (status, json_headers s.header);
  body = s.body ++ json_text payload;
}

abbrev pub after_recorded : ℕ → Json → State → State
after_recorded status payload s = record s {
  header = json_headers s.header;
  sent = some (status, json_headers s.header);
  body = s.body ++ json_text payload;
  recorder = record { status = status; wrote_header = true };
}

pub write_json-raw :
    (status : ℕ) (payload : Json) (s : State)
    → s.sent ≡ none
    → write_json raw status payload s ≡ returned tt (after_raw status payload s)
unfolding write_json set_header write_header write send_status
write_json-raw status payload s e = rw e

pub write_json-recorded :
    (status : ℕ) (payload : Json) (s : State)
    → s.sent ≡ none
    → s.recorder.wrote_header ≡ false
    → write_json recorded status payload s ≡ returned tt (after_recorded status payload s)
unfolding write_json set_header write_header write send_status record_status
write_json-recorded status payload s e w = rw (w, e)
