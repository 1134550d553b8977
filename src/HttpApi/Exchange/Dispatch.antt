-- ===== src/HttpApi/Exchange/Dispatch.antt =====
-- The handler of each route follows the course of that route.
use grounded_search.Prelude.{◌≡◌, refl}
use grounded_search.Go.Str.{Str}
use grounded_search.HttpApi.State.{State, Request, recorded}
use grounded_search.HttpApi.RequestId.{request_id_from_request}
use grounded_search.HttpApi.Handlers.{Service, health, ready, system_status}
use grounded_search.HttpApi.Serve.{
  Route, healthz, readyz, status, fallback, redirect, unmatched, asterisk, MuxPages, route_handler,
}
use grounded_search.HttpApi.Exchange.Reply.{course}
use grounded_search.HttpApi.Exchange.Follows.{Follows}
use grounded_search.HttpApi.Exchange.Routes.{
  IsFresh, require_method-Follows, plain-Follows, status-Follows, not_found-Follows,
}

-- Every route but those that ServeMux answers itself.
abbrev pub IsServed : Route → Type 0
IsServed healthz = Unit
IsServed readyz = Unit
IsServed status = Unit
IsServed fallback = Unit
IsServed _ = ⊥

-- A new recorder, and a request whose context holds the ID: the handler of a route follows its course.
pub route_handler-Follows :
    (pages : MuxPages) (service : Service) (request : Request) (id : Str) (r : Route) (s : State)
    → IsServed r
    → IsFresh s
    → request_id_from_request request ≡ id
    → Follows s (course service request id r) (route_handler pages service r recorded request s)
unfolding route_handler course health ready
route_handler-Follows pages service request id healthz s _ fresh same =
    require_method-Follows s fresh request id _ (health service) same
      (plain-Follows s fresh 200 _ refl)
route_handler-Follows pages service request id readyz s _ fresh same =
    require_method-Follows s fresh request id _ (ready service) same
      (plain-Follows s fresh 200 _ refl)
route_handler-Follows pages service request id status s _ fresh same =
    require_method-Follows s fresh request id _ (system_status service) same
      (status-Follows s fresh service request id same service.model_info_client refl)
route_handler-Follows pages service request id fallback s _ fresh same =
    not_found-Follows s fresh request id same
route_handler-Follows pages service request id (redirect p) s served fresh same = absurd served
route_handler-Follows pages service request id unmatched s served fresh same = absurd served
route_handler-Follows pages service request id asterisk s served fresh same = absurd served
