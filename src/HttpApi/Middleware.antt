-- ===== src/HttpApi/Middleware.antt =====
-- The middleware: the method check, the access log, the recovery from panics and the request ID.
use grounded_search.Prelude.{ℕ, ℤ, false, not, [], ◌++◌, if◌then◌else◌}
use grounded_search.Go.Str.{Str, codes, str_eq}
use grounded_search.Go.Http.{header_get}
use grounded_search.HttpApi.State.{
  Request, Step, returned, panicked, Writer, recorded, Handler, completed, panic_recovered,
  append_log, set_header, ◌>>◌,
}
use grounded_search.HttpApi.RequestId.{
  request_id_from_request, with_request_id, valid_request_id, Entropy, generate_request_id,
}
use grounded_search.HttpApi.Handlers.{
  write_api_error, status_method_not_allowed, status_internal_server_error,
}

abbrev pub request_id_header : Str
request_id_header = codes "X-Request-ID"

unfoldable pub require_method : Str → Handler → Handler
require_method method next w request =
    if not (str_eq request.method method)
    then (set_header w (codes "Allow") method
        >> write_api_error w request status_method_not_allowed (codes "method_not_allowed")
            (codes "method " ++ (request.method ++ codes " is not allowed for this resource")))
    else next w request

-- What follows `next.ServeHTTP` in the access log; nothing does where the handler panics.
unfoldable pub finish_log : ℤ → Request → Step (Unit {0}) → Step (Unit {0})
finish_log duration_ms request (panicked p t) = panicked p t
finish_log duration_ms request (returned done t) =
    append_log
      (completed (request_id_from_request request) request.method request.path t.recorder.status
        duration_ms)
      t

-- `duration_ms` is what the two readings of the clock give. The recorder is a new one.
unfoldable pub access_log_middleware : ℤ → Handler → Handler
unfolding finish_log
access_log_middleware duration_ms next w request s =
    finish_log duration_ms request (
      next recorded request (record s { recorder = record { status = 200; wrote_header = false } }))

-- The deferred function, on the writer that the middleware itself was given.
unfoldable pub recover_with : Writer → Request → Step (Unit {0}) → Step (Unit {0})
recover_with w request (returned done t) = returned done t
recover_with w request (panicked p t) =
    (append_log (panic_recovered (request_id_from_request request) request.method request.path p)
        >> write_api_error w request status_internal_server_error (codes "internal_error")
            (codes "an internal error occurred"))
      t

unfoldable pub recovery_middleware : Handler → Handler
unfolding recover_with
recovery_middleware next w request s = recover_with w request (next w request s)

-- The request ID of an exchange: that of the request, if it is valid, or a new one.
unfoldable pub choose_request_id : Entropy → Request → ℕ → ℕ × Str
choose_request_id entropy request counter =
    let given = valid_request_id (header_get request_id_header request.header) in
    if str_eq given [] then generate_request_id entropy counter else (counter, given)

unfoldable pub request_id_middleware : Entropy → Handler → Handler
unfolding choose_request_id
request_id_middleware entropy next w request s =
    let (counter, id) = choose_request_id entropy request s.counter in
    (set_header w request_id_header id >> next w (with_request_id id request))
      (record s { counter = counter })
