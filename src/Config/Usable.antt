-- ===== src/Config/Usable.antt =====
-- What the rest of the service may rely on in a configuration that loads.
use grounded_search.Prelude.{
  ℤ, pos, Option, none, some, ok, false, ◌≡◌, ◌≢◌, [], refl, arith, ◌≤ℤ◌, ◌<ℤ◌, inl, inr,
  Bool-cases, ap, sym, ◌∙◌,
}
use grounded_search.Go.Str.{Str, str_eq_iff}
use grounded_search.Go.Strings.{trim_space}
use grounded_search.Go.Strings.Trim.{trim_space_idem}
use grounded_search.Go.Duration.{FloatScale}
use grounded_search.Go.Url.{UrlPackage}
use grounded_search.Config.Values.{LookupEnv, is_blank, default_host}
use grounded_search.Config.Load.{Config, host_key, load_from_lookup}
use grounded_search.Config.Accepts.{HostReads, PortReads, DurationReads, setting_of}
use grounded_search.Config.Describes.{load_from_lookup-eq-ok}

-- What every part of the service may rely on.
pub record IsUsable (c : Config) : Type 0 where
  pub host_given : c.host ≢ []
  pub host_trimmed : trim_space c.host ≡ c.host
  pub port_low : pos 1 ≤ℤ c.port
  pub port_high : c.port ≤ℤ pos 65535
  pub read_header_timeout : pos 0 <ℤ c.read_header_timeout
  pub read_timeout : pos 0 <ℤ c.read_timeout
  pub write_timeout : pos 0 <ℤ c.write_timeout
  pub idle_timeout : pos 0 <ℤ c.idle_timeout
  pub shutdown_timeout : pos 0 <ℤ c.shutdown_timeout
  pub ml_service_timeout : pos 0 <ℤ c.ml_service_timeout

duration_positive :
    (float_scale : FloatScale) (fallback : ℤ) (given : Option Str) (a : ℤ)
    → pos 0 <ℤ fallback
    → DurationReads float_scale fallback given a
    → pos 0 <ℤ a
duration_positive float_scale fallback none a h r = ground arith
duration_positive float_scale fallback (some text) a h r = r.1

default_trimmed : trim_space default_host ≡ default_host
unfolding trim_space
default_trimmed = refl

host_of_default : (host : Str) → default_host ≡ host → (host ≢ []) × (trim_space host ≡ host)
host_of_default host r = (ground arith, ap trim_space (sym r) ∙ default_trimmed ∙ r)

host_of_text :
    (raw host : Str)
    → is_blank (some raw) ≡ false
    → trim_space raw ≡ host
    → (host ≢ []) × (trim_space host ≡ host)
host_of_text raw host given r = (
  ground (arith, str_eq_iff (trim_space raw) []),
  ap trim_space (sym r) ∙ trim_space_idem raw ∙ r,
)

host_given :
    (raw : Option Str) (host : Str)
    → HostReads (setting_of raw) host
    → (host ≢ []) × (trim_space host ≡ host)
host_given none host r = host_of_default host r
host_given (some raw) host r = elim (Bool-cases (is_blank (some raw))) [
  | inl blank ↦ host_of_default host (rw blank at r)
  | inr given ↦ host_of_text raw host given (rw given at r)
]

port_range : (given : Option Str) (a : ℤ) → PortReads given a → (pos 1 ≤ℤ a) × (a ≤ℤ pos 65535)
port_range none a r = ground arith
port_range (some text) a r = (r.1, r.2)

-- Whatever the environment, a configuration that loads is usable: the host is a trimmed text that is
-- not empty, the port lies in 1 to 65535 and every timeout is positive.
pub load_from_lookup-IsUsable :
    (float_scale : FloatScale) (urls : UrlPackage) (lookup : Option LookupEnv) {c : Config}
    → load_from_lookup float_scale urls lookup ≡ ok c
    → IsUsable c
load_from_lookup-IsUsable float_scale urls none h = absurd (unfold load_from_lookup in ground arith)
load_from_lookup-IsUsable float_scale urls (some lookup) {c} h =
    let d = (load_from_lookup-eq-ok float_scale urls lookup c).0 h in
    let (given, trimmed) = host_given (lookup host_key) c.host d.host in
    record {
      host_given = given;
      host_trimmed = trimmed;
      port_low = (port_range _ c.port d.port).0;
      port_high = (port_range _ c.port d.port).1;
      read_header_timeout = duration_positive float_scale _ _ _ (omega arith) d.read_header_timeout;
      read_timeout = duration_positive float_scale _ _ _ (omega arith) d.read_timeout;
      write_timeout = duration_positive float_scale _ _ _ (omega arith) d.write_timeout;
      idle_timeout = duration_positive float_scale _ _ _ (omega arith) d.idle_timeout;
      shutdown_timeout = duration_positive float_scale _ _ _ (omega arith) d.shutdown_timeout;
      ml_service_timeout = duration_positive float_scale _ _ _ (omega arith) d.ml_service_timeout;
    }
