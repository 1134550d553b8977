-- ===== src/Config/Rejects.antt =====
-- Which variable a refusal is about.
use grounded_search.Prelude.{
  ℤ, pos, Option, none, some, Result, ok, err, ◌≡◌, ◌∷◌, [], ◌++◌, List, true, refl, arith, All, ap,
}
use grounded_search.Go.Str.{Str, codes}
use grounded_search.Go.Strings.{has_prefix}
use grounded_search.Go.Strings.Prefix.{has_prefix-append}
use grounded_search.Go.Duration.{FloatScale}
use grounded_search.Go.Url.{UrlPackage}
use grounded_search.Go.Errors.{Error, message, wrap}
use grounded_search.Config.Values.{
  LookupEnv, default_port, default_read_header_timeout, default_read_timeout, default_write_timeout,
  default_idle_timeout, default_shutdown_timeout, default_ml_service_url,
  default_ml_service_timeout, default_log_level, int_value, duration_value, url_value,
  log_level_value, between_text,
}
use grounded_search.Config.Load.{
  port_key, read_header_timeout_key, read_timeout_key, write_timeout_key, idle_timeout_key,
  shutdown_timeout_key, ml_service_url_key, ml_service_timeout_key, log_level_key, load,
  load_from_lookup,
}

-- The text that the message of an error begins with.
abbrev pub head_text : Error → Str
head_text (message text) = text
head_text (wrap text e after) = text
head_text _ = []

abbrev pub Names : Str → Error → Type 0
Names key e = has_prefix (head_text e) key ≡ true

int_value-Names :
    (lookup : LookupEnv) (key : Str) (fallback minimum maximum : ℤ) (e : Error)
    → int_value lookup key fallback minimum maximum ≡ err e
    → Names key e
unfolding int_value
int_value-Names lookup key fallback minimum maximum e h = ground (
  arith,
  has_prefix-append key (codes " must be an integer: "),
  has_prefix-append key (between_text minimum maximum),
)

duration_value-Names :
    (float_scale : FloatScale) (lookup : LookupEnv) (key : Str) (fallback : ℤ) (e : Error)
    → duration_value float_scale lookup key fallback ≡ err e
    → Names key e
unfolding duration_value
duration_value-Names float_scale lookup key fallback e h = ground (
  arith,
  has_prefix-append key (codes " must be a valid Go duration: "),
  has_prefix-append key (codes " must be greater than zero"),
)

url_value-Names :
    (urls : UrlPackage) (lookup : LookupEnv) (key fallback : Str) (e : Error)
    → url_value urls lookup key fallback ≡ err e
    → Names key e
unfolding url_value
url_value-Names urls lookup key fallback e h = ground (
  arith,
  has_prefix-append key (codes " must be a valid URL: "),
  has_prefix-append key (codes " scheme must be http or https"),
  has_prefix-append key (codes " must include a host"),
  has_prefix-append key (codes " must not include credentials"),
  has_prefix-append key (codes " must not include a query or fragment"),
)

log_level_value-Names :
    (lookup : LookupEnv) (key : Str) (fallback : ℤ) (e : Error)
    → log_level_value lookup key fallback ≡ err e
    → Names key e
unfolding log_level_value
log_level_value-Names lookup key fallback e h =
    ground (arith, has_prefix-append key (codes " is invalid: "))

abbrev failure {ℓ} : {A : Type ℓ} → Result Error A → Option Error
failure (ok a) = none
failure (err e) = some e

-- A variable and the refusal of its value, if it is refused.
abbrev pub Check : Type 0
Check = Str × Option Error

module _ (float_scale : FloatScale) (urls : UrlPackage) (l : LookupEnv) where
  abbrev timeout_check : Str → ℤ → Check
  timeout_check key fallback = (key, failure (duration_value float_scale l key fallback))

  -- The nine variables that can be refused, in the order in which they are read.
  abbrev pub checks : List Check
  checks =
      (port_key, failure (int_value l port_key default_port (pos 1) (pos 65535)))
      ∷ timeout_check read_header_timeout_key default_read_header_timeout
      ∷ timeout_check read_timeout_key default_read_timeout
      ∷ timeout_check write_timeout_key default_write_timeout
      ∷ timeout_check idle_timeout_key default_idle_timeout
      ∷ timeout_check shutdown_timeout_key default_shutdown_timeout
      ∷ (ml_service_url_key, failure (url_value urls l ml_service_url_key default_ml_service_url))
      ∷ timeout_check ml_service_timeout_key default_ml_service_timeout
      ∷ (log_level_key, failure (log_level_value l log_level_key default_log_level))
      ∷ []

abbrev first_rejected : List Check → Option Error
first_rejected [] = none
first_rejected ((key, none) ∷ cs) = first_rejected cs
first_rejected ((key, some e) ∷ cs) = some e

-- The error `e` is that of one variable, which it names; the variables before that one are accepted.
pub record Blames (cs : List Check) (e : Error) : Type 0 where
  pub before : List Check
  pub key : Str
  pub after : List Check
  pub split : cs ≡ before ++ ((key, some e) ∷ after)
  pub accepted : All (λ c. c.1 ≡ none) before
  pub named : Names key e

abbrev NamesKey : Check → Type 0
NamesKey c = (e : Error) → c.1 ≡ some e → Names c.0 e

first_rejected-Blames :
    (cs : List Check) (e : Error) → All NamesKey cs → first_rejected cs ≡ some e → Blames cs e
first_rejected-Blames [] e n h = absurd (ground arith)
first_rejected-Blames ((key, none) ∷ cs) e (n, ns) h =
    let b = first_rejected-Blames cs e ns h in
    record {
      before = (key, none) ∷ b.before;
      key = b.key;
      after = b.after;
      split = ap (λ t. (key, none) ∷ t) b.split;
      accepted = (refl, b.accepted);
      named = b.named;
    }
first_rejected-Blames ((key, some e') ∷ cs) e (n, ns) h = record {
  before = [];
  key = key;
  after = cs;
  split = cc;
  accepted = tt;
  named = n e h;
}

failure-NamesKey :
    (key : Str) (r : Result Error ℤ)
    → ((e : Error) → r ≡ err e → Names key e)
    → NamesKey (key, failure r)
failure-NamesKey key (ok a) n e h = absurd (ground arith)
failure-NamesKey key (err e') n e h = n e (cc)

failure-NamesKey_url :
    (key : Str) (r : Result Error Str)
    → ((e : Error) → r ≡ err e → Names key e)
    → NamesKey (key, failure r)
failure-NamesKey_url key (ok a) n e h = absurd (ground arith)
failure-NamesKey_url key (err e') n e h = n e (cc)

module _ (float_scale : FloatScale) (urls : UrlPackage) (l : LookupEnv) where
  timeout-NamesKey :
      (key : Str) (fallback : ℤ) → NamesKey (timeout_check float_scale urls l key fallback)
  timeout-NamesKey key fallback =
      failure-NamesKey key _ (duration_value-Names float_scale l key fallback)

  checks-NamesKey : All NamesKey (checks float_scale urls l)
  checks-NamesKey = (
    failure-NamesKey port_key _ (int_value-Names l port_key default_port (pos 1) (pos 65535)),
    (
      timeout-NamesKey _ _,
      (
        timeout-NamesKey _ _,
        (
          timeout-NamesKey _ _,
          (
            timeout-NamesKey _ _,
            (
              timeout-NamesKey _ _,
              (
                failure-NamesKey_url ml_service_url_key _
                    (url_value-Names urls l ml_service_url_key default_ml_service_url),
                (
                  timeout-NamesKey _ _,
                  (
                    failure-NamesKey log_level_key _
                        (log_level_value-Names l log_level_key default_log_level),
                    tt,
                  ),
                ),
              ),
            ),
          ),
        ),
      ),
    ),
  )

  load-first_rejected :
      (e : Error)
      → load float_scale urls l ≡ err e
      → first_rejected (checks float_scale urls l) ≡ some e
  unfolding load
  load-first_rejected e h = ground arith

  -- A refusal names one of the nine variables and carries that variable's error; every variable read
  -- before it is accepted.
  pub load_from_lookup-Blames :
      (e : Error)
      → load_from_lookup float_scale urls (some l) ≡ err e
      → Blames (checks float_scale urls l) e
  unfolding load_from_lookup
  load_from_lookup-Blames e h =
      first_rejected-Blames (checks float_scale urls l) e checks-NamesKey (load-first_rejected e h)
