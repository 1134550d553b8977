-- ===== src/MlClient/Info.antt =====
-- The metadata of GET /v1/model/info and its validation.
use grounded_search.Prelude.{not, Option, none, some, [], if◌then◌else◌, ◌≡◌, ◌≢◌, ◌↔◌, arith}
use grounded_search.Go.Str.{Str, codes, str_eq, str_eq_iff}
use grounded_search.Go.Strings.{trim_space}
use grounded_search.Go.Errors.{Error, sentinel, invalid_response, wrap}

-- `none` is a nil string pointer.
pub record ModelInfo : Type 0 where
  pub service : Str
  pub version : Str
  pub status : Str
  pub mode : Str
  pub embedding_model : Option Str
  pub reranker_model : Option Str
  pub python_version : Str
  pub environment : Str

-- fmt.Errorf("%w: …", ErrInvalidResponse).
abbrev pub invalid : Str → Error
invalid text = wrap [] (sentinel invalid_response) text

-- `none` is a nil error.
unfoldable pub validate_model_info : ModelInfo → Option Error
validate_model_info info =
    if not (str_eq info.service (codes "ml-service"))
    then some (invalid (codes ": service must equal ml-service"))
    else if str_eq (trim_space info.version) []
    then some (invalid (codes ": version must not be empty"))
    else if not (str_eq info.status (codes "ready"))
    then some (invalid (codes ": status must equal ready"))
    else if not (str_eq info.mode (codes "foundation"))
    then some (invalid (codes ": mode must equal foundation"))
    else if str_eq (trim_space info.python_version) []
    then some (invalid (codes ": python_version must not be empty"))
    else if str_eq (trim_space info.environment) []
    then some (invalid (codes ": environment must not be empty"))
    else none

-- The versioned contract of the ML service.
pub record MeetsContract (info : ModelInfo) : Type 0 where
  pub service : info.service ≡ codes "ml-service"
  pub version : trim_space info.version ≢ []
  pub status : info.status ≡ codes "ready"
  pub mode : info.mode ≡ codes "foundation"
  pub python_version : trim_space info.python_version ≢ []
  pub environment : trim_space info.environment ≢ []

module _ (info : ModelInfo) where
  valid_sound : validate_model_info info ≡ none → MeetsContract info
  unfolding validate_model_info
  valid_sound h = ground (
    arith,
    str_eq_iff info.service (codes "ml-service"),
    str_eq_iff (trim_space info.version) [],
    str_eq_iff info.status (codes "ready"),
    str_eq_iff info.mode (codes "foundation"),
    str_eq_iff (trim_space info.python_version) [],
    str_eq_iff (trim_space info.environment) [],
  )

  valid_complete : MeetsContract info → validate_model_info info ≡ none
  unfolding validate_model_info
  valid_complete m = ground (
    arith,
    str_eq_iff info.service (codes "ml-service"),
    str_eq_iff (trim_space info.version) [],
    str_eq_iff info.status (codes "ready"),
    str_eq_iff info.mode (codes "foundation"),
    str_eq_iff (trim_space info.python_version) [],
    str_eq_iff (trim_space info.environment) [],
  )

  pub validate_model_info-eq-none : (validate_model_info info ≡ none) ↔ MeetsContract info
  validate_model_info-eq-none = (valid_sound, valid_complete)
