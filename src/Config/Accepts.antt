-- ===== src/Config/Accepts.antt =====
-- What each variable may hold and what it then means, said apart from the functions of config.go.
use grounded_search.Prelude.{
  ℤ, pos, Bool, true, not, ◌&&◌, Option, none, some, [], if◌then◌else◌, ok, ◌≡◌, ◌≢◌, ◌⊎◌, inl, inr,
  ◌≤ℤ◌, ◌<ℤ◌, ◌↔◌, arith, Result-cases,
}
use grounded_search.Go.Str.{Str, codes, str_eq, str_eq_iff}
use grounded_search.Go.Strings.{trim_space, trim_right}
use grounded_search.Go.Strconv.{atoi}
use grounded_search.Go.Duration.{FloatScale, parse_duration}
use grounded_search.Go.Slog.{Level, unmarshal_level}
use grounded_search.Go.Url.{Url, UrlPackage}
use grounded_search.Config.Values.{
  LookupEnv, is_blank, raw_value, string_value, int_value, duration_value, url_value, is_http,
  has_user, log_level_value, default_host, default_port, default_log_level, default_ml_service_url,
}

-- The text of a variable that is set to more than white space, without the space around it.
abbrev pub setting_of : Option Str → Option Str
setting_of raw = if is_blank raw then none else some (trim_space (raw_value raw))

abbrev pub setting : LookupEnv → Str → Option Str
setting lookup key = setting_of (lookup key)

-- A variable has its fallback, or a valid text and the value of that.
abbrev pub Reads {ℓ} : {A : Type 0} → (Str → A → Type ℓ) → (A → Type ℓ) → Option Str → A → Type ℓ
Reads Valid Fallback none a = Fallback a
Reads Valid Fallback (some text) a = Valid text a

abbrev pub ValidInt : ℤ → ℤ → Str → ℤ → Type 0
ValidInt minimum maximum text a = (atoi text ≡ ok a) × (minimum ≤ℤ a) × (a ≤ℤ maximum)

abbrev pub ValidDuration : FloatScale → Str → ℤ → Type 0
ValidDuration float_scale text a = (parse_duration float_scale text ≡ ok a) × (pos 0 <ℤ a)

abbrev pub ValidLevel : Str → Level → Type 0
ValidLevel text a = unmarshal_level text ≡ ok a

-- A service URL: http or https, with a host, and with no credentials, query or fragment.
pub record IsServiceUrl (u : Url) : Type 0 where
  pub http : (u.scheme ≡ codes "http") ⊎ (u.scheme ≡ codes "https")
  pub hosted : u.host ≢ []
  pub anonymous : u.user ≡ none
  pub no_query : u.raw_query ≡ []
  pub no_fragment : u.fragment ≡ []

abbrev pub without_slash : Url → Url
without_slash u = record u { path = trim_right u.path b'/' }

pub record ValidUrl (urls : UrlPackage) (text a : Str) : Type 0 where
  pub url : Url
  pub parsed : urls.parse text ≡ ok url
  pub service : IsServiceUrl url
  pub printed : a ≡ urls.to_string (without_slash url)

abbrev pub HostReads : Option Str → Str → Type 0
HostReads = Reads (λ text b. text ≡ b) (λ b. default_host ≡ b)

abbrev pub PortReads : Option Str → ℤ → Type 0
PortReads = Reads (ValidInt (pos 1) (pos 65535)) (λ b. default_port ≡ b)

abbrev pub LevelReads : Option Str → ℤ → Type 0
LevelReads = Reads ValidLevel (λ b. default_log_level ≡ b)

abbrev pub UrlText : Option Str → Str → Type 0
UrlText = Reads (λ text b. text ≡ b) (λ b. default_ml_service_url ≡ b)

abbrev pub DurationReads : FloatScale → ℤ → Option Str → ℤ → Type 0
DurationReads float_scale fallback = Reads (ValidDuration float_scale) (λ b. fallback ≡ b)

pub string_value_lem :
    (lookup : LookupEnv) (key fallback a : Str)
    → (string_value lookup key fallback ≡ a)
      ↔ Reads (λ text b. text ≡ b) (λ b. fallback ≡ b) (setting lookup key) a
unfolding string_value
string_value_lem lookup key fallback a = ground arith

pub int_value-eq-ok :
    (lookup : LookupEnv) (key : Str) (fallback minimum maximum a : ℤ)
    → (int_value lookup key fallback minimum maximum ≡ ok a)
      ↔ Reads (ValidInt minimum maximum) (λ b. fallback ≡ b) (setting lookup key) a
unfolding int_value
int_value-eq-ok lookup key fallback minimum maximum a = ground arith

pub duration_value-eq-ok :
    (float_scale : FloatScale) (lookup : LookupEnv) (key : Str) (fallback a : ℤ)
    → (duration_value float_scale lookup key fallback ≡ ok a)
      ↔ Reads (ValidDuration float_scale) (λ b. fallback ≡ b) (setting lookup key) a
unfolding duration_value
duration_value-eq-ok float_scale lookup key fallback a = ground arith

pub log_level_value-eq-ok :
    (lookup : LookupEnv) (key : Str) (fallback a : Level)
    → (log_level_value lookup key fallback ≡ ok a)
      ↔ Reads ValidLevel (λ b. fallback ≡ b) (setting lookup key) a
unfolding log_level_value
log_level_value-eq-ok lookup key fallback a = ground arith

-- The tests that both url_value and the client's constructors make.
unfoldable pub check_url : Url → Bool
check_url u =
    is_http u
    && not (str_eq u.host [])
    && not (has_user u)
    && str_eq u.raw_query []
    && str_eq u.fragment []

IsServiceUrl_of_check : (u : Url) → check_url u ≡ true → IsServiceUrl u
unfolding check_url
IsServiceUrl_of_check u h = record {
  http = ground (arith, str_eq_iff u.scheme (codes "http"), str_eq_iff u.scheme (codes "https"));
  hosted = ground (arith, str_eq_iff u.host []);
  anonymous = ground arith;
  no_query = ground (arith, str_eq_iff u.raw_query []);
  no_fragment = ground (arith, str_eq_iff u.fragment []);
}

check_of_IsServiceUrl : (u : Url) → IsServiceUrl u → check_url u ≡ true
unfolding check_url
check_of_IsServiceUrl u s = ground (
  arith,
  str_eq_iff u.scheme (codes "http"),
  str_eq_iff u.scheme (codes "https"),
  str_eq_iff u.host [],
  str_eq_iff u.raw_query [],
  str_eq_iff u.fragment [],
)

pub check_url_iff : (u : Url) → (check_url u ≡ true) ↔ IsServiceUrl u
check_url_iff u = (IsServiceUrl_of_check u, check_of_IsServiceUrl u)

url_value_sound :
    (urls : UrlPackage) (lookup : LookupEnv) (key fallback a : Str)
    → url_value urls lookup key fallback ≡ ok a
    → ValidUrl urls (string_value lookup key fallback) a
unfolding url_value
url_value_sound urls lookup key fallback a h =
    elim (Result-cases (urls.parse (string_value lookup key fallback))) [
      | inl (u, parsed) ↦
          let checked : check_url u ≡ true = unfold check_url in ground arith in
          record {
            url = u;
            parsed = parsed;
            service = IsServiceUrl_of_check u checked;
            printed = unfold check_url in ground arith;
          }
      | inr (e, failed) ↦ absurd (ground arith)
    ]

url_value_complete :
    (urls : UrlPackage) (lookup : LookupEnv) (key fallback a : Str)
    → ValidUrl urls (string_value lookup key fallback) a
    → url_value urls lookup key fallback ≡ ok a
unfolding url_value check_url
url_value_complete urls lookup key fallback a v =
    ground (arith, check_of_IsServiceUrl v.url v.service)

pub url_value-eq-ok :
    (urls : UrlPackage) (lookup : LookupEnv) (key fallback a : Str)
    → (url_value urls lookup key fallback ≡ ok a)
      ↔ ValidUrl urls (string_value lookup key fallback) a
url_value-eq-ok urls lookup key fallback a =
    (url_value_sound urls lookup key fallback a, url_value_complete urls lookup key fallback a)
