-- ===== src/HttpApi/Contract.antt =====
-- api/openapi: the public contract of the system status, and that the handler's answers meet it.
use grounded_search.Prelude.{
  ℕ, ℤ, pos, negsuc, Option, none, some, List, [], ◌∷◌, ◌≡◌, ◌≢◌, ◌⊎◌, inl, inr, refl, arith, ok,
  err, Bool-cases, if◌then◌else◌, ◌++◌, ◌/◌, div_trunc, subst, ap,
}
use grounded_search.Go.Str.{Str, codes, str_eq, str_eq_iff}
use grounded_search.Go.Strings.{trim_space}
use grounded_search.Go.Errors.{Error}
use grounded_search.Go.Json.{Json, Fields, null, int, str, obj, end, field, nullable}
use grounded_search.MlClient.Info.{ModelInfo}
use grounded_search.HttpApi.State.{Request, State, returned}
use grounded_search.HttpApi.RequestId.{request_id_from_request}
use grounded_search.HttpApi.Dependency.{
  MlServiceStatus, classify_dependency_error, unavailable_ml_service_status,
  ready_ml_service_status, Provided, answered, crashed, Provider, ml_service_status,
  ml_service_json,
}
use grounded_search.HttpApi.Handlers.{overall_status, uptime_seconds, system_status_json}
use grounded_search.HttpApi.Serve.{version_or_dev}

unfoldable pub keys : Fields → List Str
keys end = []
keys (field name value fields) = name ∷ keys fields

unfoldable pub find : Str → Fields → Option Json
find name end = none
find name (field key value fields) =
    let rest = find name fields in if str_eq key name then some value else rest

-- The strings of an enumeration.
abbrev pub OneOf : List Str → Str → Type 0
OneOf [] s = ⊥
OneOf (x ∷ []) s = s ≡ x
OneOf (x ∷ y ∷ xs) s = (s ≡ x) ⊎ OneOf (y ∷ xs) s

abbrev pub TextOneOf : List Str → Option Json → Type 0
TextOneOf values j = (s : Str) × (j ≡ some (str s)) × OneOf values s

abbrev pub TextOrNull : Option Json → Type 0
TextOrNull j = (j ≡ some null) ⊎ ((s : Str) × (j ≡ some (str s)))

abbrev required : List Str
required =
    codes "status"
    ∷ codes "version"
    ∷ codes "mode"
    ∷ codes "embedding_model"
    ∷ codes "reranker_model"
    ∷ codes "python_version"
    ∷ codes "environment"
    ∷ []

-- MLServiceStatus.
pub record MlServiceContract (m : Fields) : Type 0 where
  pub names : (keys m ≡ required) ⊎ (keys m ≡ required ++ (codes "error" ∷ []))
  pub status :
      TextOneOf
        (codes "ready" ∷ codes "timeout" ∷ codes "unavailable" ∷ codes "invalid_response" ∷ [])
        (find (codes "status") m)
  pub version : TextOrNull (find (codes "version") m)
  pub mode : TextOrNull (find (codes "mode") m)
  pub embedding_model : TextOrNull (find (codes "embedding_model") m)
  pub reranker_model : TextOrNull (find (codes "reranker_model") m)
  pub python_version : TextOrNull (find (codes "python_version") m)
  pub environment : TextOrNull (find (codes "environment") m)
  pub error :
      (find (codes "error") m ≡ none)
      ⊎ TextOneOf
          (codes "dependency_timeout"
            ∷ codes "dependency_unavailable"
            ∷ codes "invalid_dependency_response"
            ∷ [])
          (find (codes "error") m)

-- SystemStatusResponse.
pub record SystemStatusContract (j : Json) : Type 0 where
  pub fields : Fields
  pub shape : j ≡ obj fields
  pub names :
      keys fields
      ≡ codes "service"
        ∷ codes "status"
        ∷ codes "version"
        ∷ codes "uptime_seconds"
        ∷ codes "dependencies"
        ∷ []
  pub service : find (codes "service") fields ≡ some (str (codes "search-api"))
  pub status : TextOneOf (codes "healthy" ∷ codes "degraded" ∷ []) (find (codes "status") fields)
  pub version : (v : Str) × (find (codes "version") fields ≡ some (str v)) × (v ≢ [])
  pub uptime : (n : ℕ) × (find (codes "uptime_seconds") fields ≡ some (int (pos n)))
  pub dependencies : Fields
  pub dependencies_shape : find (codes "dependencies") fields ≡ some (obj dependencies)
  pub dependencies_names : keys dependencies ≡ codes "ml_service" ∷ []
  pub ml_service : Fields
  pub ml_service_shape : find (codes "ml_service") dependencies ≡ some (obj ml_service)
  pub ml_service_contract : MlServiceContract ml_service

uptime_seconds_natural : (since : ℤ) → (n : ℕ) × (uptime_seconds since ≡ pos n)
unfolding uptime_seconds div_trunc
uptime_seconds_natural (pos n) = (n / 1000000000, ground arith)
uptime_seconds_natural (negsuc n) = (0, ground arith)

trim_nothing : trim_space [] ≡ []
unfolding trim_space
trim_nothing = refl

version_or_dev_given : (version : Str) → version_or_dev version ≢ []
unfolding version_or_dev
version_or_dev_given version = elim (Bool-cases (str_eq (trim_space version) [])) [
  | inl blank ↦ rw blank (ground arith)
  | inr given ↦ rw given (ground (arith, str_eq_iff (trim_space version) [], trim_nothing))
]

nullable-TextOrNull : (s : Option Str) (j : Option Json) → j ≡ some (nullable s) → TextOrNull j
nullable-TextOrNull none j e = inl e
nullable-TextOrNull (some s) j e = inr (s, e)

-- A JSON text of the dependency, and that it meets its part of the contract.
abbrev Reported : MlServiceStatus → Type 0
Reported m = (f : Fields) × (ml_service_json m ≡ obj f) × MlServiceContract f

ready-Reported : (info : ModelInfo) → Reported (ready_ml_service_status info)
unfolding ml_service_json ready_ml_service_status keys find str_eq
ready-Reported info = (
  _,
  refl,
  record {
    names = inl refl;
    status = (_, refl, inl refl);
    version = inr (_, refl);
    mode = inr (_, refl);
    embedding_model = nullable-TextOrNull info.embedding_model _ refl;
    reranker_model = nullable-TextOrNull info.reranker_model _ refl;
    python_version = inr (_, refl);
    environment = inr (_, refl);
    error = inl refl;
  },
)

timeout-Reported :
    Reported (unavailable_ml_service_status (codes "dependency_timeout") (codes "timeout"))
unfolding ml_service_json unavailable_ml_service_status keys find str_eq
timeout-Reported = (
  _,
  refl,
  record {
    names = inr refl;
    status = (_, refl, inr (inl refl));
    version = inl refl;
    mode = inl refl;
    embedding_model = inl refl;
    reranker_model = inl refl;
    python_version = inl refl;
    environment = inl refl;
    error = inr (_, refl, inl refl);
  },
)

unavailable-Reported :
    Reported (unavailable_ml_service_status (codes "dependency_unavailable") (codes "unavailable"))
unfolding ml_service_json unavailable_ml_service_status keys find str_eq
unavailable-Reported = (
  _,
  refl,
  record {
    names = inr refl;
    status = (_, refl, inr (inr (inl refl)));
    version = inl refl;
    mode = inl refl;
    embedding_model = inl refl;
    reranker_model = inl refl;
    python_version = inl refl;
    environment = inl refl;
    error = inr (_, refl, inr (inl refl));
  },
)

invalid-Reported :
    Reported (
      unavailable_ml_service_status
        (codes "invalid_dependency_response")
        (codes "invalid_response"))
unfolding ml_service_json unavailable_ml_service_status keys find str_eq
invalid-Reported = (
  _,
  refl,
  record {
    names = inr refl;
    status = (_, refl, inr (inr (inr refl)));
    version = inl refl;
    mode = inl refl;
    embedding_model = inl refl;
    reranker_model = inl refl;
    python_version = inl refl;
    environment = inl refl;
    error = inr (_, refl, inr (inr refl));
  },
)

classify-cases :
    (e : Error)
    → (classify_dependency_error e ≡ (codes "timeout", codes "dependency_timeout"))
      ⊎ ((classify_dependency_error e
            ≡ (codes "invalid_response", codes "invalid_dependency_response"))
          ⊎ (classify_dependency_error e ≡ (codes "unavailable", codes "dependency_unavailable")))
unfolding classify_dependency_error
classify-cases e = ground arith

classified-Reported :
    (e : Error)
    → Reported (
        unavailable_ml_service_status
          (classify_dependency_error e).1
          (classify_dependency_error e).0)
classified-Reported e = elim (classify-cases e) [
  | inl h ↦ rw h timeout-Reported
  | inr (inl h) ↦ rw h invalid-Reported
  | inr (inr h) ↦ rw h unavailable-Reported
]

module _ (request : Request) (s t : State) (m : MlServiceStatus) where
  provided-Reported :
      (provider : Provider) (p : Provided)
      → provider (request_id_from_request request) ≡ p
      → ml_service_status (some provider) request s ≡ returned m t
      → Reported m
  unfolding ml_service_status
  provided-Reported provider (crashed reason) e h = absurd (ground arith)
  provided-Reported provider (answered (ok info)) e h =
      let same : ready_ml_service_status info ≡ m = ground arith in
      subst Reported same (ready-Reported info)
  provided-Reported provider (answered (err d)) e h =
      let same : unavailable_ml_service_status (classify_dependency_error d).1
            (classify_dependency_error d).0
          ≡ m =
        ground arith in
      subst Reported same (classified-Reported d)

  ml_service_status-Reported :
      (client : Option Provider) → ml_service_status client request s ≡ returned m t → Reported m
  unfolding ml_service_status
  ml_service_status-Reported none h =
      let same : unavailable_ml_service_status (codes "dependency_unavailable")
            (codes "unavailable")
          ≡ m =
        ground arith in
      subst Reported same unavailable-Reported
  ml_service_status-Reported (some provider) h =
      provided-Reported provider (provider (request_id_from_request request)) refl h

overall-cases :
    (m : MlServiceStatus)
    → (overall_status m ≡ codes "healthy") ⊎ (overall_status m ≡ codes "degraded")
unfolding overall_status
overall-cases m = ground arith

-- Whatever the version, the clock and the client give, the JSON answer to a request for the system's
-- status has the fields and the values that the public contract allows: among them a version that is
-- not empty, an uptime that is not negative, and the enumerated states and errors of the ML service.
pub system_status_json-Contract :
    (version : Str) (since : ℤ) (client : Option Provider) (request : Request) (s t : State)
    (m : MlServiceStatus)
    → ml_service_status client request s ≡ returned m t
    → SystemStatusContract
        (system_status_json (overall_status m) (version_or_dev version) (uptime_seconds since) m)
unfolding system_status_json keys find str_eq
system_status_json-Contract version since client request s t m h =
    let (ml_service, shape, contract) = ml_service_status-Reported request s t m client h in
    let (n, natural) = uptime_seconds_natural since in
    record {
      fields = _;
      shape = refl;
      names = refl;
      service = refl;
      status = (_, refl, overall-cases m);
      version = (_, refl, version_or_dev_given version);
      uptime = (n, ap (λ u. some (int u)) natural);
      dependencies = field (codes "ml_service") (ml_service_json m) end;
      dependencies_shape = refl;
      dependencies_names = refl;
      ml_service = ml_service;
      ml_service_shape = ap some shape;
      ml_service_contract = contract;
    }
