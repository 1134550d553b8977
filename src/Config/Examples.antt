-- ===== src/Config/Examples.antt =====
-- Tests of the configuration, and its theorems at concrete environments.
use grounded_search.Prelude.{
  pos, none, some, ok, err, ◌≡◌, refl, arith, ◌||◌, if◌then◌else◌, int_ltb, ◌++◌,
}
use grounded_search.Go.Str.{codes, str_eq}
use grounded_search.Go.Errors.{Error, message}
use grounded_search.Go.Strings.{trim_space, has_prefix, contains_byte}
use grounded_search.Go.Strconv.{atoi, itoa}
use grounded_search.Config.Values.{
  LookupEnv, string_value, int_value, duration_value, url_value, log_level_value, between_text,
}
use grounded_search.Config.Load.{Config, host_key, port_key, log_level_key, load, load_from_lookup}
use grounded_search.Config.Describes.{Describes, load_from_lookup-eq-ok}
use grounded_search.Config.Usable.{IsUsable, load_from_lookup-IsUsable}
use grounded_search.Config.Rejects.{Blames, checks, load_from_lookup-Blames}
use grounded_search.Config.Relevance.{load_from_lookup_same}
use grounded_search.Config.Port.{int_value-itoa}
use grounded_search.Config.Address.{address}
use grounded_search.Samples.{exact_scale, urls, port_env, port_config}

port_config_loads : load_from_lookup exact_scale urls (some port_env) ≡ ok port_config
unfolding load_from_lookup load str_eq int_value trim_space atoi duration_value url_value has_prefix
    string_value log_level_value
port_config_loads = refl

load_from_lookup-eq-ok_example : Describes exact_scale urls port_env port_config
load_from_lookup-eq-ok_example =
    (load_from_lookup-eq-ok exact_scale urls port_env port_config).0 port_config_loads

load_from_lookup-IsUsable_example : IsUsable port_config
load_from_lookup-IsUsable_example =
    load_from_lookup-IsUsable exact_scale urls (some port_env) port_config_loads

-- The port is out of range, and the level is refused too, but later.
abbrev wrong_env : LookupEnv
wrong_env key =
    if str_eq key port_key
    then some (codes "70000")
    else if str_eq key log_level_key
    then some (codes "loud")
    else none

abbrev port_error : Error
port_error = message (port_key ++ between_text (pos 1) (pos 65535))

wrong_env_fails : load_from_lookup exact_scale urls (some wrong_env) ≡ err port_error
unfolding load_from_lookup load str_eq int_value trim_space atoi
wrong_env_fails = refl

load_from_lookup-Blames_example : Blames (checks exact_scale urls wrong_env) port_error
load_from_lookup-Blames_example =
    load_from_lookup-Blames exact_scale urls wrong_env port_error wrong_env_fails

-- The same settings as those of `port_env`, with a blank host and other variables.
abbrev other_env : LookupEnv
other_env key =
    if str_eq key port_key
    then some (codes "9000")
    else if str_eq key host_key
    then some (codes "  ")
    else if str_eq key (codes "HOME")
    then some (codes "/root")
    else none

load_from_lookup_same_example :
    load_from_lookup exact_scale urls (some port_env)
    ≡ load_from_lookup exact_scale urls (some other_env)
unfolding str_eq trim_space
load_from_lookup_same_example =
    load_from_lookup_same exact_scale urls port_env other_env
      (refl, (refl, (refl, (refl, (refl, (refl, (refl, (refl, (refl, (refl, tt))))))))))

int_value-itoa_example :
    int_value (λ key. some (itoa (pos 8443))) port_key (pos 8080) (pos 1) (pos 65535) ≡ (
      if int_ltb (pos 8443) (pos 1) || int_ltb (pos 65535) (pos 8443)
      then err (message (port_key ++ between_text (pos 1) (pos 65535)))
      else ok (pos 8443))
int_value-itoa_example =
    int_value-itoa (λ key. some (itoa (pos 8443))) port_key (pos 8080) (pos 1) (pos 65535)
      (pos 8443) (ground arith) refl

-- An IPv6 host.
abbrev ipv6_config : Config
ipv6_config = record port_config { host = codes "::1" }

ipv6_address : address ipv6_config ≡ codes "[::1]:9000"
unfolding address contains_byte itoa
ipv6_address = refl
