-- ===== src/HttpApi/Examples/Whole.antt =====
-- The theorems on the exchanges of a process, at concrete requests.
use grounded_search.Prelude.{some, List, [], ◌∷◌, refl, arith, ◌^◌, ◌-◌}
use grounded_search.Go.Str.{codes, str_eq}
use grounded_search.Go.Path.{clean_path, segments}
use grounded_search.HttpApi.State.{raw}
use grounded_search.HttpApi.RequestId.{with_request_id}
use grounded_search.HttpApi.Serve.{route, new_handler}
use grounded_search.HttpApi.Dependency.{Provider, crashed}
use grounded_search.HttpApi.Exchange.Reply.{course, final_reply}
use grounded_search.HttpApi.Exchange.Dispatch.{IsServed}
use grounded_search.HttpApi.Body.{OneValue, new_handler-OneValue}
use grounded_search.HttpApi.Exchange.Whole.{chosen, service}
use grounded_search.HttpApi.Distinct.{Arrival, Distinct, fallback_ids, fallback_ids-Distinct}
use grounded_search.HttpApi.Report.{provider_of}
use grounded_search.HttpApi.Examples.{pages, request, idle, no_entropy, moment}
use grounded_search.Samples.{urls, json, http_do, client}

-- A request with an ID between two without one, and a clock that stands still.
abbrev arrivals : List Arrival
arrivals =
    record { entropy = no_entropy; request = record request { header = [] } }
    ∷ record { entropy = no_entropy; request = request }
    ∷ record { entropy = no_entropy; request = record request { header = [] } }
    ∷ []

fallback_ids-Distinct_example : Distinct (fallback_ids arrivals (2 ^ 64 - 1))
fallback_ids-Distinct_example =
    fallback_ids-Distinct arrivals (2 ^ 64 - 1) (omega arith, (omega arith, (omega arith, tt)))
      (omega arith) (omega arith)

abbrev real : Provider
real = provider_of urls json http_do client

-- A client that panics.
abbrev broken : Provider
broken id = crashed (codes "nil map")

routed-IsServed : IsServed (route request)
unfolding route str_eq clean_path segments
routed-IsServed = tt

new_handler-OneValue_example :
    OneValue
      (final_reply
        (with_request_id (chosen pages [] (some broken) moment request idle).1 request)
        (chosen pages [] (some broken) moment request idle).1
        (course
          (service pages [] (some broken) moment request idle)
          request
          (chosen pages [] (some broken) moment request idle).1
          (route request))).payload
      (new_handler pages [] (some broken) moment raw request idle)
new_handler-OneValue_example =
    new_handler-OneValue pages [] (some broken) moment request idle refl refl routed-IsServed
