-- ===== src/Config/Values.antt =====
-- The defaults and the functions of config.go that read one variable each.
use grounded_search.Prelude.{
  ℕ, ℤ, pos, Bool, true, false, not, ◌||◌, Option, none, some, ◌++◌, [], if◌then◌else◌, int_ltb, ok,
  err, ◌*◌,
}
use grounded_search.Go.Str.{Str, codes, str_eq}
use grounded_search.Go.Strings.{trim_space, trim_right}
use grounded_search.Go.Strconv.{atoi, itoa}
use grounded_search.Go.Duration.{FloatScale, parse_duration}
use grounded_search.Go.Slog.{Level, level_info, unmarshal_level}
use grounded_search.Go.Url.{Url, UrlPackage}
use grounded_search.Go.Errors.{sentinel, message, wrap, Outcome}

-- `none` is a variable that is not set.
abbrev pub LookupEnv : Type 0
LookupEnv = Str → Option Str

abbrev pub seconds : ℕ → ℤ
seconds n = pos (n * 1000000000)

abbrev pub default_host : Str
default_host = codes "0.0.0.0"

abbrev pub default_port : ℤ
default_port = pos 8080

abbrev pub default_read_header_timeout : ℤ
default_read_header_timeout = seconds 5

abbrev pub default_read_timeout : ℤ
default_read_timeout = seconds 10

abbrev pub default_write_timeout : ℤ
default_write_timeout = seconds 15

abbrev pub default_idle_timeout : ℤ
default_idle_timeout = seconds 60

abbrev pub default_shutdown_timeout : ℤ
default_shutdown_timeout = seconds 10

abbrev pub default_ml_service_url : Str
default_ml_service_url = codes "http://localhost:8090"

abbrev pub default_ml_service_timeout : ℤ
default_ml_service_timeout = seconds 2

abbrev pub default_log_level : Level
default_log_level = level_info

-- `raw, exists := lookup(key)` and the test for a value that is blank or missing.
abbrev pub is_blank : Option Str → Bool
is_blank none = true
is_blank (some raw) = str_eq (trim_space raw) []

abbrev pub raw_value : Option Str → Str
raw_value none = []
raw_value (some raw) = raw

unfoldable pub string_value : LookupEnv → Str → Str → Str
string_value lookup key fallback = elim (lookup key) [
  | none ↦ fallback
  | some raw ↦ let value = trim_space raw in if str_eq value [] then fallback else value
]

abbrev pub between_text : ℤ → ℤ → Str
between_text minimum maximum =
    codes " must be between " ++ (itoa minimum ++ (codes " and " ++ itoa maximum))

unfoldable pub int_value : LookupEnv → Str → ℤ → ℤ → ℤ → Outcome ℤ
int_value lookup key fallback minimum maximum =
    let raw = lookup key in
    if is_blank raw then ok fallback else (elim (atoi (trim_space (raw_value raw))) [
      | err e ↦ err (wrap (key ++ codes " must be an integer: ") (sentinel e) [])
      | ok value ↦
          if int_ltb value minimum || int_ltb maximum value
          then err (message (key ++ between_text minimum maximum))
          else ok value
    ])

unfoldable pub duration_value : FloatScale → LookupEnv → Str → ℤ → Outcome ℤ
duration_value float_scale lookup key fallback =
    let raw = lookup key in
    if is_blank raw
    then ok fallback
    else (elim (parse_duration float_scale (trim_space (raw_value raw))) [
      | err e ↦ err (wrap (key ++ codes " must be a valid Go duration: ") e [])
      | ok value ↦
          if not (int_ltb (pos 0) value)
          then err (message (key ++ codes " must be greater than zero"))
          else ok value
    ])

-- The checks on a parsed URL; config.go and mlclient/client.go make the same ones.
abbrev pub is_http : Url → Bool
is_http u = str_eq u.scheme (codes "http") || str_eq u.scheme (codes "https")

abbrev pub has_user : Url → Bool
has_user u = elim u.user [ none ↦ false | some name ↦ true ]

unfoldable pub url_value : UrlPackage → LookupEnv → Str → Str → Outcome Str
url_value urls lookup key fallback =
    let raw = string_value lookup key fallback in
    elim (urls.parse raw) [
      | err e ↦ err (wrap (key ++ codes " must be a valid URL: ") e [])
      | ok parsed ↦
          if not (is_http parsed)
          then err (message (key ++ codes " scheme must be http or https"))
          else if str_eq parsed.host []
          then err (message (key ++ codes " must include a host"))
          else if has_user parsed
          then err (message (key ++ codes " must not include credentials"))
          else if not (str_eq parsed.raw_query []) || not (str_eq parsed.fragment [])
          then err (message (key ++ codes " must not include a query or fragment"))
          else ok (urls.to_string (record parsed { path = trim_right parsed.path b'/' }))
    ]

unfoldable pub log_level_value : LookupEnv → Str → Level → Outcome Level
log_level_value lookup key fallback =
    let raw = lookup key in
    if is_blank raw then ok fallback else (elim (unmarshal_level (trim_space (raw_value raw))) [
      | err e ↦ err (wrap (key ++ codes " is invalid: ") e [])
      | ok level ↦ ok level
    ])
