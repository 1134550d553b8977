-- ===== src/Go/Errors.antt =====
-- Go's error values as far as the program inspects them: package errors (Is, As) over the errors
-- that fmt.Errorf, net/url and other packages build. Texts are kept, not rendered.
use grounded_search.Prelude.{Bool, true, false, Option, none, some, Result}
use grounded_search.Go.Str.{Str}

-- The error variables that the program compares with: mlclient.ErrInvalidResponse,
-- mlclient.ErrUnexpectedStatus, context.DeadlineExceeded, context.Canceled, io.EOF,
-- http.ErrServerClosed, strconv.ErrSyntax and strconv.ErrRange.
pub data Sentinel : Type 0 where
  invalid_response unexpected_status : Sentinel
  deadline_exceeded canceled eof server_closed syntax_error range_error : Sentinel

abbrev pub sentinel_eq : Sentinel → Sentinel → Bool
sentinel_eq invalid_response invalid_response = true
sentinel_eq unexpected_status unexpected_status = true
sentinel_eq deadline_exceeded deadline_exceeded = true
sentinel_eq canceled canceled = true
sentinel_eq eof eof = true
sentinel_eq server_closed server_closed = true
sentinel_eq syntax_error syntax_error = true
sentinel_eq range_error range_error = true
sentinel_eq _ _ = false

-- An error of a package that is not modelled, which wraps no other: its text, the answer of its
-- Timeout method where it is a net.Error, and the variables that its Is method equals.
pub record Foreign : Type 0 where
  pub text : Str
  pub timeout : Option Bool
  pub matches : Sentinel → Bool

pub data Error : Type 0 where
  sentinel : Sentinel → Error
  -- errors.New, and fmt.Errorf with no verb for an error
  message : Str → Error
  -- the same with one %q between two texts
  quoted : Str → Str → Str → Error
  -- fmt.Errorf with a text, %w and a text
  wrap : Str → Error → Str → Error
  -- fmt.Errorf with a text, %q, a text and %w
  quoted_wrap : Str → Str → Str → Error → Error
  -- fmt.Errorf with %w, a text and a second error under %v
  wrap_shown : Error → Str → Error → Error
  -- *url.Error: the operation, the URL and the cause
  url_error : Str → Str → Error → Error
  foreign : Foreign → Error

-- errors.Is against one of the variables.
unfoldable pub is : Error → Sentinel → Bool
is (sentinel s) t = sentinel_eq s t
is (message text) t = false
is (quoted a q b) t = false
is (wrap a e b) t = is e t
is (quoted_wrap a q b e) t = is e t
is (wrap_shown e text shown) t = is e t
is (url_error op url e) t = is e t
is (foreign f) t = f.matches t

-- The Timeout method of *url.Error asks its cause alone, and no error behind that.
unfoldable pub timeout_of : Error → Bool
timeout_of (sentinel deadline_exceeded) = true
timeout_of (url_error op url e) = timeout_of e
timeout_of (foreign f) = elim f.timeout [ some answer ↦ answer | none ↦ false ]
timeout_of _ = false

-- errors.As into a net.Error, and that error's Timeout method; `none` where none is found.
unfoldable pub as_net_error : Error → Option Bool
unfolding timeout_of
as_net_error (sentinel deadline_exceeded) = some true
as_net_error (sentinel _) = none
as_net_error (message text) = none
as_net_error (quoted a q b) = none
as_net_error (wrap a e b) = as_net_error e
as_net_error (quoted_wrap a q b e) = as_net_error e
as_net_error (wrap_shown e text shown) = as_net_error e
as_net_error (url_error op url e) = some (timeout_of e)
as_net_error (foreign f) = f.timeout

-- The pair (value, error) of a Go function.
abbrev pub Outcome {ℓ} : Type ℓ → Type ℓ
Outcome A = Result Error A
