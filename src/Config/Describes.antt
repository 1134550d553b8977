-- ===== src/Config/Describes.antt =====
-- When `LoadFromLookup` succeeds, and what the configuration then holds.
use grounded_search.Prelude.{ℤ, pos, some, ok, ◌≡◌, ◌↔◌, refl, arith}
use grounded_search.Go.Str.{Str}
use grounded_search.Go.Duration.{FloatScale}
use grounded_search.Go.Url.{UrlPackage}
use grounded_search.Config.Values.{
  LookupEnv, default_host, default_port, default_read_header_timeout, default_read_timeout,
  default_write_timeout, default_idle_timeout, default_shutdown_timeout, default_ml_service_url,
  default_ml_service_timeout, default_log_level, string_value, int_value, duration_value, url_value,
  log_level_value,
}
use grounded_search.Config.Load.{
  Config, host_key, port_key, read_header_timeout_key, read_timeout_key, write_timeout_key,
  idle_timeout_key, shutdown_timeout_key, ml_service_url_key, ml_service_timeout_key, log_level_key,
  load, load_from_lookup,
}
use grounded_search.Config.Accepts.{
  HostReads, PortReads, DurationReads, LevelReads, UrlText, setting, ValidUrl, string_value_lem,
  int_value-eq-ok, duration_value-eq-ok, log_level_value-eq-ok, url_value-eq-ok,
}

module _ (float_scale : FloatScale) (urls : UrlPackage) where
  -- A configuration holds, in each field, what its variable says.
  pub record Describes (lookup : LookupEnv) (c : Config) : Type 0 where
    pub host : HostReads (setting lookup host_key) c.host
    pub port : PortReads (setting lookup port_key) c.port
    pub read_header_timeout :
        DurationReads float_scale default_read_header_timeout
          (setting lookup read_header_timeout_key)
          c.read_header_timeout
    pub read_timeout :
        DurationReads float_scale default_read_timeout
          (setting lookup read_timeout_key)
          c.read_timeout
    pub write_timeout :
        DurationReads float_scale default_write_timeout
          (setting lookup write_timeout_key)
          c.write_timeout
    pub idle_timeout :
        DurationReads float_scale default_idle_timeout
          (setting lookup idle_timeout_key)
          c.idle_timeout
    pub shutdown_timeout :
        DurationReads float_scale default_shutdown_timeout
          (setting lookup shutdown_timeout_key)
          c.shutdown_timeout
    pub url_text : Str
    pub url_given : UrlText (setting lookup ml_service_url_key) url_text
    pub ml_service_url : ValidUrl urls url_text c.ml_service_url
    pub ml_service_timeout :
        DurationReads float_scale default_ml_service_timeout
          (setting lookup ml_service_timeout_key)
          c.ml_service_timeout
    pub log_level : LevelReads (setting lookup log_level_key) c.log_level

  -- The ten calls of the body, with their results.
  record Calls (lookup : LookupEnv) (c : Config) : Type 0 where
    host : string_value lookup host_key default_host ≡ c.host
    port : int_value lookup port_key default_port (pos 1) (pos 65535) ≡ ok c.port
    read_header_timeout :
        duration_value float_scale lookup read_header_timeout_key default_read_header_timeout
        ≡ ok c.read_header_timeout
    read_timeout :
        duration_value float_scale lookup read_timeout_key default_read_timeout ≡ ok c.read_timeout
    write_timeout :
        duration_value float_scale lookup write_timeout_key default_write_timeout
        ≡ ok c.write_timeout
    idle_timeout :
        duration_value float_scale lookup idle_timeout_key default_idle_timeout ≡ ok c.idle_timeout
    shutdown_timeout :
        duration_value float_scale lookup shutdown_timeout_key default_shutdown_timeout
        ≡ ok c.shutdown_timeout
    ml_service_url :
        url_value urls lookup ml_service_url_key default_ml_service_url ≡ ok c.ml_service_url
    ml_service_timeout :
        duration_value float_scale lookup ml_service_timeout_key default_ml_service_timeout
        ≡ ok c.ml_service_timeout
    log_level : log_level_value lookup log_level_key default_log_level ≡ ok c.log_level

  Calls-of_load :
      (lookup : LookupEnv) (c : Config) → load float_scale urls lookup ≡ ok c → Calls lookup c
  unfolding load
  Calls-of_load lookup c h = ground arith

  load_of_Calls :
      (lookup : LookupEnv) (c : Config) → Calls lookup c → load float_scale urls lookup ≡ ok c
  unfolding load
  load_of_Calls lookup c k = ground arith

  Describes-of_Calls : (lookup : LookupEnv) (c : Config) → Calls lookup c → Describes lookup c
  Describes-of_Calls lookup c k = record {
    host = (string_value_lem lookup host_key default_host c.host).0 k.host;
    port = (int_value-eq-ok lookup port_key default_port (pos 1) (pos 65535) c.port).0 k.port;
    read_header_timeout = (timeout read_header_timeout_key _ _).0 k.read_header_timeout;
    read_timeout = (timeout read_timeout_key _ _).0 k.read_timeout;
    write_timeout = (timeout write_timeout_key _ _).0 k.write_timeout;
    idle_timeout = (timeout idle_timeout_key _ _).0 k.idle_timeout;
    shutdown_timeout = (timeout shutdown_timeout_key _ _).0 k.shutdown_timeout;
    url_text = string_value lookup ml_service_url_key default_ml_service_url;
    url_given = (string_value_lem lookup ml_service_url_key default_ml_service_url _).0 refl;
    ml_service_url =
        (url_value-eq-ok urls lookup ml_service_url_key default_ml_service_url c.ml_service_url).0
          k.ml_service_url;
    ml_service_timeout = (timeout ml_service_timeout_key _ _).0 k.ml_service_timeout;
    log_level =
        (log_level_value-eq-ok lookup log_level_key default_log_level c.log_level).0 k.log_level;
  }
    where
      timeout :
          (key : Str) (fallback a : ℤ)
          → (duration_value float_scale lookup key fallback ≡ ok a)
            ↔ DurationReads float_scale fallback (setting lookup key) a
      timeout key fallback a = duration_value-eq-ok float_scale lookup key fallback a

  Calls-of_Describes : (lookup : LookupEnv) (c : Config) → Describes lookup c → Calls lookup c
  Calls-of_Describes lookup c d = record {
    host = (string_value_lem lookup host_key default_host c.host).1 d.host;
    port = (int_value-eq-ok lookup port_key default_port (pos 1) (pos 65535) c.port).1 d.port;
    read_header_timeout = (timeout read_header_timeout_key _ _).1 d.read_header_timeout;
    read_timeout = (timeout read_timeout_key _ _).1 d.read_timeout;
    write_timeout = (timeout write_timeout_key _ _).1 d.write_timeout;
    idle_timeout = (timeout idle_timeout_key _ _).1 d.idle_timeout;
    shutdown_timeout = (timeout shutdown_timeout_key _ _).1 d.shutdown_timeout;
    ml_service_url =
        (url_value-eq-ok urls lookup ml_service_url_key default_ml_service_url c.ml_service_url).1
          (rw url_text_eq d.ml_service_url);
    ml_service_timeout = (timeout ml_service_timeout_key _ _).1 d.ml_service_timeout;
    log_level =
        (log_level_value-eq-ok lookup log_level_key default_log_level c.log_level).1 d.log_level;
  }
    where
      timeout :
          (key : Str) (fallback a : ℤ)
          → (duration_value float_scale lookup key fallback ≡ ok a)
            ↔ DurationReads float_scale fallback (setting lookup key) a
      timeout key fallback a = duration_value-eq-ok float_scale lookup key fallback a

      url_text_eq : string_value lookup ml_service_url_key default_ml_service_url ≡ d.url_text
      url_text_eq =
          (string_value_lem lookup ml_service_url_key default_ml_service_url d.url_text).1
            d.url_given

  -- Loading succeeds exactly when every variable is unset, blank or valid, and then each field holds
  -- what its variable says, or the default.
  pub load_from_lookup-eq-ok :
      (lookup : LookupEnv) (c : Config)
      → (load_from_lookup float_scale urls (some lookup) ≡ ok c) ↔ Describes lookup c
  unfolding load_from_lookup
  load_from_lookup-eq-ok lookup c = (
    λ h. Describes-of_Calls lookup c (Calls-of_load lookup c h),
    λ d. load_of_Calls lookup c (Calls-of_Describes lookup c d),
  )
