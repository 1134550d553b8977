-- ===== src/Config/Fits.antt =====
-- The numbers of a configuration that loads are Go's int and time.Duration, with no wrap-around.
use grounded_search.Go.Str.{Str}
use grounded_search.Go.Strconv.RoundTrip.{IsInt64}
use grounded_search.Config.Load.{Config}

pub record FitsInt64 (c : Config) : Type 0 where
  pub port : IsInt64 c.port
  pub read_header_timeout : IsInt64 c.read_header_timeout
  pub read_timeout : IsInt64 c.read_timeout
  pub write_timeout : IsInt64 c.write_timeout
  pub idle_timeout : IsInt64 c.idle_timeout
  pub shutdown_timeout : IsInt64 c.shutdown_timeout
  pub ml_service_timeout : IsInt64 c.ml_service_timeout
  pub log_level : IsInt64 c.log_level
