-- ===== src/MlClient/Examples/Bodies.antt =====
-- The theorems on bodies, at the metadata of a running service.
use grounded_search.Prelude.{none, ◌++◌, ok, ◌≡◌, refl, arith, true}
use grounded_search.Go.Str.{codes}
use grounded_search.Go.Strings.{trim_space}
use grounded_search.Go.Http.{ClientResponse}
use grounded_search.Go.Json.{encode}
use grounded_search.Go.Json.Parser.{skip_space}
use grounded_search.Go.Json.RoundTrip.Whole.{valid_utf8}
use grounded_search.MlClient.Info.{MeetsContract}
use grounded_search.MlClient.Decode.{go_json}
use grounded_search.MlClient.Fetch.{interpret}
use grounded_search.MlClient.RoundTrip.{info_json, IsUtf8, interpret-encode}
use grounded_search.MlClient.Strict.{IsInfoBody, interpret-IsInfoBody}
use grounded_search.Samples.{sample_info}

abbrev sample_response : ClientResponse
sample_response = record {
  status_code = 200;
  body = record { bytes = encode (info_json sample_info) ++ codes "\n"; failure = none };
}

sample-IsUtf8 : IsUtf8 sample_info
unfolding valid_utf8
sample-IsUtf8 = record {
  service = refl;
  version = refl;
  status = refl;
  mode = refl;
  embedding_model = refl;
  reranker_model = refl;
  python_version = refl;
  environment = refl;
}

sample-MeetsContract : MeetsContract sample_info
unfolding trim_space
sample-MeetsContract = record {
  service = refl;
  version = ground arith;
  status = refl;
  mode = refl;
  python_version = ground arith;
  environment = ground arith;
}

interpret-encode_example : interpret (go_json (λ s. true)) sample_response ≡ ok sample_info
unfolding encode skip_space
interpret-encode_example =
    interpret-encode (λ s. true) sample_info (codes "\n") sample_response sample-IsUtf8
      sample-MeetsContract refl refl refl refl (omega arith)

sample_answer : interpret (go_json (λ s. true)) sample_response ≡ ok sample_info
unfolding encode skip_space
sample_answer =
    interpret-encode (λ s. true) sample_info (codes "\n") sample_response sample-IsUtf8
      sample-MeetsContract refl refl refl refl (omega arith)

interpret-IsInfoBody_example : IsInfoBody sample_response.body.bytes sample_info
interpret-IsInfoBody_example =
    interpret-IsInfoBody (λ s. true) sample_response sample_info sample_answer
