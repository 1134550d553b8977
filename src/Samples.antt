-- ===== src/Samples.antt =====
-- Concrete inputs for the tests: an environment, and a stand-in for each package that is a parameter.
use grounded_search.Prelude.{ℤ, pos, ◌*◌, ◌/◌, none, some, [], ok, err, if◌then◌else◌}
use grounded_search.Go.Str.{Str, codes, str_eq}
use grounded_search.Go.Strings.{has_prefix}
use grounded_search.Go.Errors.{message, sentinel, eof, Outcome}
use grounded_search.Go.Duration.{FloatScale}
use grounded_search.Go.Url.{Url, UrlPackage}
use grounded_search.Go.Http.{ClientResponse}
use grounded_search.Config.Values.{LookupEnv, seconds, default_ml_service_url}
use grounded_search.Config.Load.{Config, port_key}
use grounded_search.MlClient.Defs.{Client, HttpDoer, standard}
use grounded_search.MlClient.Info.{ModelInfo}
use grounded_search.MlClient.Fetch.{JsonPackage}

-- Exact arithmetic in place of floats.
abbrev pub exact_scale : FloatScale
exact_scale f unit scale = f * unit / scale

abbrev pub ml_url : Url
ml_url = record {
  scheme = codes "http";
  user = none;
  host = codes "localhost:8090";
  path = [];
  raw_query = [];
  fragment = [];
  remainder = [];
}

-- A URL package that knows the host of the default URL, in front of any path.
abbrev pub known_url : Str → Outcome Url
known_url text =
    if has_prefix text default_ml_service_url
    then ok ml_url
    else err (message (codes "unknown URL"))

abbrev pub urls : UrlPackage
urls = record { parse = known_url; to_string = λ u. default_ml_service_url }

abbrev pub sample_info : ModelInfo
sample_info = record {
  service = codes "ml-service";
  version = codes "0.1.0";
  status = codes "ready";
  mode = codes "foundation";
  embedding_model = none;
  reranker_model = none;
  python_version = codes "3.12";
  environment = codes "test";
}

-- A decoder that reads the metadata from "{}" and finds nothing behind it.
abbrev pub decode_sample : Str → Outcome (ModelInfo × Str)
decode_sample body =
    if str_eq body (codes "{}")
    then ok (sample_info, [])
    else err (message (codes "unexpected text"))

abbrev pub json : JsonPackage
json = record { decode_info = decode_sample; decode_any = λ rest. err (sentinel eof) }

abbrev pub response_200 : ClientResponse
response_200 = record { status_code = 200; body = record { bytes = codes "{}"; failure = none } }

abbrev pub response_503 : ClientResponse
response_503 = record { status_code = 503; body = record { bytes = codes "down"; failure = none } }

abbrev pub http_do : ℤ → HttpDoer
http_do timeout request = ok response_200

abbrev pub client : Client
client = record { base_url = ml_url; http_client = standard (seconds 2) }

-- An environment with a port alone.
abbrev pub port_env : LookupEnv
port_env key = if str_eq key port_key then some (codes " 9000 ") else none

abbrev pub port_config : Config
port_config = record {
  host = codes "0.0.0.0";
  port = pos 9000;
  read_header_timeout = seconds 5;
  read_timeout = seconds 10;
  write_timeout = seconds 15;
  idle_timeout = seconds 60;
  shutdown_timeout = seconds 10;
  ml_service_url = default_ml_service_url;
  ml_service_timeout = seconds 2;
  log_level = pos 0;
}
