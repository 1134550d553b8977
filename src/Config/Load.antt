-- ===== src/Config/Load.antt =====
-- `LoadFromLookup` and the record that it fills.
use grounded_search.Prelude.{ℤ, pos, Option, none, some, ok, err, ◌>>=◌}
use grounded_search.Go.Str.{Str, codes}
use grounded_search.Go.Duration.{FloatScale}
use grounded_search.Go.Slog.{Level}
use grounded_search.Go.Url.{UrlPackage}
use grounded_search.Go.Errors.{message, Outcome}
use grounded_search.Config.Values.{
  LookupEnv, default_host, default_port, default_read_header_timeout, default_read_timeout,
  default_write_timeout, default_idle_timeout, default_shutdown_timeout, default_ml_service_url,
  default_ml_service_timeout, default_log_level, string_value, int_value, duration_value, url_value,
  log_level_value,
}

pub record Config : Type 0 where
  pub host : Str
  pub port : ℤ
  pub read_header_timeout : ℤ
  pub read_timeout : ℤ
  pub write_timeout : ℤ
  pub idle_timeout : ℤ
  pub shutdown_timeout : ℤ
  pub ml_service_url : Str
  pub ml_service_timeout : ℤ
  pub log_level : Level

abbrev pub host_key : Str
host_key = codes "SEARCH_API_HOST"

abbrev pub port_key : Str
port_key = codes "SEARCH_API_PORT"

abbrev pub read_header_timeout_key : Str
read_header_timeout_key = codes "SEARCH_API_READ_HEADER_TIMEOUT"

abbrev pub read_timeout_key : Str
read_timeout_key = codes "SEARCH_API_READ_TIMEOUT"

abbrev pub write_timeout_key : Str
write_timeout_key = codes "SEARCH_API_WRITE_TIMEOUT"

abbrev pub idle_timeout_key : Str
idle_timeout_key = codes "SEARCH_API_IDLE_TIMEOUT"

abbrev pub shutdown_timeout_key : Str
shutdown_timeout_key = codes "SEARCH_API_SHUTDOWN_TIMEOUT"

abbrev pub ml_service_url_key : Str
ml_service_url_key = codes "ML_SERVICE_URL"

abbrev pub ml_service_timeout_key : Str
ml_service_timeout_key = codes "ML_SERVICE_TIMEOUT"

abbrev pub log_level_key : Str
log_level_key = codes "LOG_LEVEL"

module _ (float_scale : FloatScale) (urls : UrlPackage) where
  -- The body behind the test for a nil function.
  unfoldable pub load : LookupEnv → Outcome Config
  load lookup = do
    let host = string_value lookup host_key default_host
    port ← int_value lookup port_key default_port (pos 1) (pos 65535)
    read_header_timeout ←
        duration_value float_scale lookup read_header_timeout_key default_read_header_timeout
    read_timeout ← duration_value float_scale lookup read_timeout_key default_read_timeout
    write_timeout ← duration_value float_scale lookup write_timeout_key default_write_timeout
    idle_timeout ← duration_value float_scale lookup idle_timeout_key default_idle_timeout
    shutdown_timeout ←
        duration_value float_scale lookup shutdown_timeout_key default_shutdown_timeout
    ml_service_url ← url_value urls lookup ml_service_url_key default_ml_service_url
    ml_service_timeout ←
        duration_value float_scale lookup ml_service_timeout_key default_ml_service_timeout
    log_level ← log_level_value lookup log_level_key default_log_level
    ok (record {
      host = host;
      port = port;
      read_header_timeout = read_header_timeout;
      read_timeout = read_timeout;
      write_timeout = write_timeout;
      idle_timeout = idle_timeout;
      shutdown_timeout = shutdown_timeout;
      ml_service_url = ml_service_url;
      ml_service_timeout = ml_service_timeout;
      log_level = log_level;
    })

  -- `none` is a nil function.
  unfoldable pub load_from_lookup : Option LookupEnv → Outcome Config
  unfolding load
  load_from_lookup none = err (message (codes "environment lookup function is nil"))
  load_from_lookup (some lookup) = load lookup
