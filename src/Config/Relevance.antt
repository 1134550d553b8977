-- ===== src/Config/Relevance.antt =====
-- What of the environment the configuration depends on.
use grounded_search.Prelude.{ℤ, some, ◌≡◌, ◌∷◌, [], List, arith, All}
use grounded_search.Go.Str.{Str}
use grounded_search.Go.Duration.{FloatScale}
use grounded_search.Go.Url.{UrlPackage}
use grounded_search.Config.Values.{
  LookupEnv, string_value, int_value, duration_value, url_value, log_level_value,
}
use grounded_search.Config.Load.{
  host_key, port_key, read_header_timeout_key, read_timeout_key, write_timeout_key,
  idle_timeout_key, shutdown_timeout_key, ml_service_url_key, ml_service_timeout_key, log_level_key,
  load, load_from_lookup,
}
use grounded_search.Config.Accepts.{setting}

-- The ten variables of the README.
abbrev pub keys : List Str
keys =
    host_key ∷ port_key ∷ read_header_timeout_key ∷ read_timeout_key ∷ write_timeout_key
    ∷ idle_timeout_key ∷ shutdown_timeout_key ∷ ml_service_url_key ∷ ml_service_timeout_key
    ∷ log_level_key ∷ []

module _ (l m : LookupEnv) (key : Str) (same : setting l key ≡ setting m key) where
  string_value_same : (fallback : Str) → string_value l key fallback ≡ string_value m key fallback
  unfolding string_value
  string_value_same fallback = ground arith

  int_value_same :
      (fallback minimum maximum : ℤ)
      → int_value l key fallback minimum maximum ≡ int_value m key fallback minimum maximum
  unfolding int_value
  int_value_same fallback minimum maximum = ground arith

  duration_value_same :
      (float_scale : FloatScale) (fallback : ℤ)
      → duration_value float_scale l key fallback ≡ duration_value float_scale m key fallback
  unfolding duration_value
  duration_value_same float_scale fallback = ground arith

  url_value_same :
      (urls : UrlPackage) (fallback : Str)
      → url_value urls l key fallback ≡ url_value urls m key fallback
  unfolding url_value
  url_value_same urls fallback = rw (string_value_same fallback, url_value)

  log_level_value_same :
      (fallback : ℤ) → log_level_value l key fallback ≡ log_level_value m key fallback
  unfolding log_level_value
  log_level_value_same fallback = ground arith

-- Two environments in which each of the ten variables has the same text, white space around it and
-- blank values aside, give the same configuration or the same error.
pub load_from_lookup_same :
    (float_scale : FloatScale) (urls : UrlPackage) (l m : LookupEnv)
    → All (λ key. setting l key ≡ setting m key) keys
    → load_from_lookup float_scale urls (some l) ≡ load_from_lookup float_scale urls (some m)
unfolding load_from_lookup load
load_from_lookup_same float_scale urls l m (a, (b, (c, (d, (e, (f, (g, (h, (i, (j, _)))))))))) =
    rw (
      string_value_same l m host_key a,
      int_value_same l m port_key b,
      duration_value_same l m read_header_timeout_key c float_scale,
      duration_value_same l m read_timeout_key d float_scale,
      duration_value_same l m write_timeout_key e float_scale,
      duration_value_same l m idle_timeout_key f float_scale,
      duration_value_same l m shutdown_timeout_key g float_scale,
      url_value_same l m ml_service_url_key h urls,
      duration_value_same l m ml_service_timeout_key i float_scale,
      log_level_value_same l m log_level_key j,
    )
