-- ===== src/Main/Start.antt =====
-- When the process serves, and what its exit code says.
use grounded_search.Prelude.{
  ℤ, ◌≡◌, ◌≢◌, refl, [], Option, none, some, List, ok, arith, ◌∙◌, true, Result-cases, inl, inr, ap,
  pos, ◌<ℤ◌,
}
use grounded_search.Go.Str.{Str}
use grounded_search.Go.Strings.{trim_space}
use grounded_search.Go.Errors.{Error}
use grounded_search.Go.Url.{Url, UrlPackage}
use grounded_search.Config.Load.{Config, load_from_lookup}
use grounded_search.Config.Accepts.{IsServiceUrl, without_slash, ValidUrl}
use grounded_search.Config.Describes.{Describes, load_from_lookup-eq-ok}
use grounded_search.Config.Usable.{load_from_lookup-IsUsable}
use grounded_search.MlClient.Defs.{Client, standard, new}
use grounded_search.MlClient.Construct.{IsClientFor, new-eq-ok}
use grounded_search.Main.Run.{
  RunState, Event, initial, is_clean, run, finished, Phase, waiting, shutting_down, draining,
}
use grounded_search.Main.Invariant.{
  Explains, clean, serve_failed, shutdown_failed, exit_failed, late, PhaseHolds, run-Holds,
}
use grounded_search.Main.Launch.{
  World, serve_with, launch, exit_of_run, exit_of_phase, exit_of_launch, main,
}

-- Two URLs that differ in the path and the unread fields at most.
pub record SameTarget (u v : Url) : Type 0 where
  pub scheme : v.scheme ≡ u.scheme
  pub user : v.user ≡ u.user
  pub host : v.host ≡ u.host
  pub raw_query : v.raw_query ≡ u.raw_query
  pub fragment : v.fragment ≡ u.fragment

-- What `String` documents: it reassembles a URL into a valid text. For a URL that was parsed and has
-- a host, no query and no fragment, that text has no white space around it and parses again, whatever
-- the path was set to.
pub record Reparses (urls : UrlPackage) : Type 0 where
  pub again :
      (text path : Str) (u : Url)
      → urls.parse text ≡ ok u
      → u.host ≢ []
      → u.raw_query ≡ []
      → u.fragment ≡ []
      → (v : Url) × (urls.parse (urls.to_string (record u { path = path })) ≡ ok v) × SameTarget u v
  pub no_space :
      (text path : Str) (u : Url)
      → urls.parse text ≡ ok u
      → u.host ≢ []
      → u.raw_query ≡ []
      → u.fragment ≡ []
      → trim_space (urls.to_string (record u { path = path }))
        ≡ urls.to_string (record u { path = path })

SameTarget-IsServiceUrl : (u v : Url) → SameTarget u v → IsServiceUrl u → IsServiceUrl v
SameTarget-IsServiceUrl u v same s = record {
  http = rw same.scheme s.http;
  hosted = rw same.host s.hosted;
  anonymous = same.user ∙ s.anonymous;
  no_query = same.raw_query ∙ s.no_query;
  no_fragment = same.fragment ∙ s.no_fragment;
}

-- A base URL that url_value has printed is one that the client accepts.
client_of_url :
    (urls : UrlPackage) (laws : Reparses urls) (given text : Str) (timeout : ℤ)
    → ValidUrl urls given text
    → pos 0 <ℤ timeout
    → (client : Client) × (new urls text timeout ≡ ok client)
client_of_url urls laws given text timeout v positive =
    let s = v.service in
    let path = (without_slash v.url).path in
    let printed = urls.to_string (without_slash v.url) in
    let (u, parsed, same) =
      laws.again given path v.url v.parsed s.hosted s.no_query s.no_fragment in
    let trimmed = laws.no_space given path v.url v.parsed s.hosted s.no_query s.no_fragment in
    let client : Client = record { base_url = without_slash u; http_client = standard timeout } in
    let parses : urls.parse (trim_space text) ≡ ok u =
      ap (λ t. urls.parse (trim_space t)) v.printed ∙ ap urls.parse trimmed ∙ parsed in
    (
      client,
      (new-eq-ok urls text timeout client).1 (
        positive,
        record {
          url = u;
          parsed = parses;
          service = SameTarget-IsServiceUrl v.url u same s;
          built = refl;
        },
      ),
    )

pub launch_of :
    (world : World) (cfg : Config) (client : Client)
    → load_from_lookup world.float_scale world.urls (some world.lookup_env) ≡ ok cfg
    → new world.urls cfg.ml_service_url cfg.ml_service_timeout ≡ ok client
    → launch world ≡ serve_with world cfg client
unfolding launch
launch_of world cfg client loaded built = ground arith

module _ (world : World) (laws : Reparses world.urls) (cfg : Config)
    (loaded : load_from_lookup world.float_scale world.urls (some world.lookup_env) ≡ ok cfg) where
  -- Where the text of a parsed URL with another path parses again to the same scheme, user, host,
  -- query and fragment, every configuration that loads is served: the client accepts the service
  -- URL as the configuration prints it, and the process does not end with a client configuration
  -- error.
  pub launch-serves :
      (client : Client) × (new world.urls cfg.ml_service_url cfg.ml_service_timeout ≡ ok client)
      × (launch world ≡ serve_with world cfg client)
  launch-serves =
      let d = (load_from_lookup-eq-ok world.float_scale world.urls world.lookup_env cfg).0 loaded in
      let usable =
        load_from_lookup-IsUsable world.float_scale world.urls (some world.lookup_env) loaded in
      let (client, built) =
        client_of_url world.urls laws d.url_text cfg.ml_service_url cfg.ml_service_timeout
          d.ml_service_url usable.ml_service_timeout in
      (client, built, launch_of world cfg client loaded built)

-- Why a process ended with the exit code 0.
pub record StoppedCleanly (world : World) (es : List Event) : Type 0 where
  pub cfg : Config
  pub client : Client
  pub described : Describes world.float_scale world.urls world.lookup_env cfg
  pub client_for :
      IsClientFor world.urls cfg.ml_service_url (standard cfg.ml_service_timeout) client
  pub result : Option Error
  pub returned : (run es initial).returned ≡ some result
  pub no_error : is_clean result ≡ true

clean_of_Explains :
    (s : RunState) (o : Option Error)
    → o ≡ none
    → Explains s o
    → (r : Option Error) × (s.returned ≡ some r) × (is_clean r ≡ true)
clean_of_Explains s _ e (clean r ran good) = (r, ran, good)
clean_of_Explains s _ e (serve_failed d ran bad n) = absurd (ground arith)
clean_of_Explains s _ e (shutdown_failed d n) = absurd (ground arith)
clean_of_Explains s _ e (exit_failed d ran bad n) = absurd (ground arith)
clean_of_Explains s _ e (late h n) = absurd (ground arith)

finished_of_exit :
    (s : RunState) (ph : Phase) → PhaseHolds s ph → exit_of_phase ph ≡ some 0 → Explains s none
unfolding exit_of_phase exit_of_run
finished_of_exit s (finished none) h e = h
finished_of_exit s (finished (some x)) h e = absurd (ground arith)
finished_of_exit s waiting h e = absurd (ground arith)
finished_of_exit s shutting_down h e = absurd (ground arith)
finished_of_exit s draining h e = absurd (ground arith)

clean_of_exit :
    (es : List Event)
    → exit_of_phase (run es initial).phase ≡ some 0
    → (r : Option Error) × ((run es initial).returned ≡ some r) × (is_clean r ≡ true)
clean_of_exit es h =
    clean_of_Explains (run es initial) none refl
      (finished_of_exit (run es initial) (run es initial).phase (run-Holds es) h)

module _ (world : World) (es : List Event) (zero_exit : main world es ≡ some 0) where
  cleanly_of_load :
      (cfg : Config)
      → load_from_lookup world.float_scale world.urls (some world.lookup_env) ≡ ok cfg
      → StoppedCleanly world es
  cleanly_of_load cfg loaded =
      elim (Result-cases (new world.urls cfg.ml_service_url cfg.ml_service_timeout)) [
        | inl (client, built) ↦
            let served = launch_of world cfg client loaded built in
            let code : exit_of_phase (run es initial).phase ≡ some 0 =
              unfold main exit_of_launch serve_with in ground arith in
            let (r, ran, good) = clean_of_exit es code in
            record {
              cfg = cfg;
              client = client;
              described =
                  (load_from_lookup-eq-ok world.float_scale world.urls world.lookup_env cfg).0
                    loaded;
              client_for =
                  ((new-eq-ok world.urls cfg.ml_service_url cfg.ml_service_timeout client).0
                    built).1;
              result = r;
              returned = ran;
              no_error = good;
            }
        | inr (e, failed) ↦ absurd (unfold main exit_of_launch launch in ground arith)
      ]

  -- An exit code of 0 means that the configuration was read as it is described, the client was built
  -- for its service URL, and the server returned nil or ErrServerClosed.
  pub main-StoppedCleanly : StoppedCleanly world es
  main-StoppedCleanly =
      elim (Result-cases (load_from_lookup world.float_scale world.urls (some world.lookup_env))) [
        | inl (cfg, loaded) ↦ cleanly_of_load cfg loaded
        | inr (e, failed) ↦ absurd (unfold main exit_of_launch launch in ground arith)
      ]
