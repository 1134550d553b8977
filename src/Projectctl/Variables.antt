-- ===== src/Projectctl/Variables.antt =====
-- What a process finds in the environments that the commands build.
use grounded_search.Prelude.{
  true, false, Option, none, some, List, [], ◌∷◌, ◌++◌, ◌==◌, if◌then◌else◌, ◌≡◌, refl, arith,
  Bool-cases, inl, inr, ap, sym, ◌∙◌, append_assoc,
}
use grounded_search.Go.Str.{Str, codes, str_eq, str_eq_iff}
use grounded_search.Go.Strings.{has_prefix, contains_byte, to_upper, to_upper_byte, upper_of_two}
use grounded_search.Go.Strings.Prefix.{has_prefix-append, append_byte_injective}
use grounded_search.Projectctl.UpperCase.{IsName, upper-append, upper-IsName}
use grounded_search.Projectctl.Environment.{
  FilePaths, names_key, kept, set_environment, python_path_key, python_key, python_source,
  integration_environment,
}

-- What stands behind a prefix.
unfoldable pub after_prefix : Str → Str → Option Str
after_prefix [] s = some s
after_prefix (p ∷ ps) [] = none
after_prefix (p ∷ ps) (c ∷ s) = if c == p then after_prefix ps s else none

-- The value of a variable: the last entry counts.
unfoldable pub env_lookup : List Str → Str → Option Str
unfolding after_prefix
env_lookup [] key = none
env_lookup (entry ∷ entries) key = elim (env_lookup entries key) [
  | some value ↦ some value
  | none ↦ after_prefix (key ++ codes "=") entry
]

after_prefix-append : (p s : Str) → after_prefix p (p ++ s) ≡ some s
unfolding after_prefix
after_prefix-append [] s = refl
after_prefix-append (c ∷ p) s = ground (arith, after_prefix-append p s)

after_prefix_sound : (p s v : Str) → after_prefix p s ≡ some v → s ≡ p ++ v
unfolding after_prefix
after_prefix_sound [] s v h = ground arith
after_prefix_sound (c ∷ p) [] v h = absurd (ground arith)
after_prefix_sound (c ∷ p) (d ∷ s) v h = elim (Bool-cases (d == c)) [
  | inl same ↦ let rest : s ≡ p ++ v = after_prefix_sound p s v (ground arith) in ground arith
  | inr other ↦ absurd (ground arith)
]

has_prefix_sound : (s p : Str) → has_prefix s p ≡ true → (v : Str) × (s ≡ p ++ v)
unfolding has_prefix
has_prefix_sound s [] h = (s, refl)
has_prefix_sound [] (c ∷ p) h = absurd (ground arith)
has_prefix_sound (d ∷ s) (c ∷ p) h =
    let (v, e) = has_prefix_sound s p (ground arith) in (v, ground arith)

entry_eq : (key v : Str) → (key ++ codes "=") ++ v ≡ key ++ (b'=' ∷ v)
entry_eq key v = append_assoc key (codes "=") v

own_value : (key value : Str) → after_prefix (key ++ codes "=") (key ++ (b'=' ∷ value)) ≡ some value
own_value key value =
    ap (after_prefix (key ++ codes "=")) (sym (entry_eq key value))
    ∙ after_prefix-append (key ++ codes "=") value

other_value :
    (other key value : Str) (o : Option Str)
    → IsName other
    → IsName key
    → str_eq other key ≡ false
    → after_prefix (other ++ codes "=") (key ++ (b'=' ∷ value)) ≡ o
    → o ≡ none
other_value other key value none h k d e = refl
other_value other key value (some v) h k d e =
    let eq : other ≡ key =
      (append_byte_injective b'=' other key v value h k
        (sym (entry_eq other v) ∙ sym (after_prefix_sound (other ++ codes "=") _ v e))).0 in
    absurd (ground (arith, str_eq_iff other key))

module _ (key other : Str) (k : IsName key) (h : IsName other) where
  names_key-true :
      (v : Str) → to_upper other ≡ to_upper key → names_key key (other ++ (b'=' ∷ v)) ≡ true
  unfolding names_key
  names_key-true v e =
      let t : to_upper (other ++ (b'=' ∷ v)) ≡ (to_upper key ++ codes "=") ++ to_upper v =
        upper-append other v
        ∙ ap (λ u. u ++ (b'=' ∷ to_upper v)) e
        ∙ sym (entry_eq (to_upper key) (to_upper v)) in
      rw t (has_prefix-append (to_upper key ++ codes "=") (to_upper v))

  names_key_sound :
      (v : Str) → names_key key (other ++ (b'=' ∷ v)) ≡ true → to_upper other ≡ to_upper key
  unfolding names_key
  names_key_sound v t =
      let (rest, e) =
        has_prefix_sound (to_upper (other ++ (b'=' ∷ v))) (to_upper key ++ codes "=") t in
      (append_byte_injective b'=' (to_upper other) (to_upper key) (to_upper v) rest
        (upper-IsName other h) (upper-IsName key k)
        (sym (upper-append other v) ∙ e ∙ entry_eq (to_upper key) rest)).0

  -- An entry for `other` is left out exactly where the names agree in upper case.
  names_key_lem :
      (v : Str) → names_key key (other ++ (b'=' ∷ v)) ≡ str_eq (to_upper other) (to_upper key)
  names_key_lem v =
      ground
        (arith, names_key-true v, names_key_sound v, str_eq_iff (to_upper other) (to_upper key))

  entry_names :
      (entry v : Str)
      → after_prefix (other ++ codes "=") entry ≡ some v
      → names_key key entry ≡ str_eq (to_upper other) (to_upper key)
  entry_names entry v e =
      let split = after_prefix_sound (other ++ codes "=") entry v e ∙ entry_eq other v in
      ap (names_key key) split ∙ names_key_lem v

  abbrev Kept : List Str → Type 0
  Kept es =
      env_lookup (kept key es) other
      ≡ (if str_eq (to_upper other) (to_upper key) then none else env_lookup es other)

  Kept-cons :
      (entry : Str) (es : List Str) (o : Option Str)
      → after_prefix (other ++ codes "=") entry ≡ o
      → Kept es
      → Kept (entry ∷ es)
  unfolding kept env_lookup
  Kept-cons entry es none e ih = ground arith
  Kept-cons entry es (some v) e ih = ground (arith, entry_names entry v e)

  Kept-lookup : (es : List Str) → Kept es
  unfolding kept env_lookup
  Kept-lookup [] = ground arith
  Kept-lookup (entry ∷ es) =
      Kept-cons entry es (after_prefix (other ++ codes "=") entry) refl (Kept-lookup es)

lookup_last :
    (es : List Str) (entry key : Str)
    → env_lookup (es ++ (entry ∷ [])) key ≡ (elim (after_prefix (key ++ codes "=") entry) [
      | some v ↦ some v
      | none ↦ env_lookup es key
    ])
unfolding env_lookup
lookup_last [] entry key = ground arith
lookup_last (e ∷ es) entry key = ground (arith, lookup_last es entry key)

-- What `other` is after `key` was set to `value`.
abbrev pub looked_up : List Str → Str → Str → Str → Option Str
looked_up environment key value other =
    if str_eq other key
    then some value
    else if str_eq (to_upper other) (to_upper key)
    then none
    else env_lookup environment other

last_value :
    (key value other : Str)
    → IsName key
    → IsName other
    → after_prefix (other ++ codes "=") (key ++ (b'=' ∷ value))
      ≡ (if str_eq other key then some value else none)
last_value key value other k h = elim (Bool-cases (str_eq other key)) [
  | inl same ↦
      let e : other ≡ key = (str_eq_iff other key).0 same in rw same (rw e (own_value key value))
  | inr different ↦ rw different (other_value other key value _ h k different refl)
]

pub set_environment_lookup :
    (environment : List Str) (key value other : Str)
    → IsName key
    → IsName other
    → env_lookup (set_environment environment key value) other
      ≡ looked_up environment key value other
unfolding set_environment
set_environment_lookup environment key value other k h = ground (
  arith,
  lookup_last (kept key environment) (key ++ (b'=' ∷ value)) other,
  last_value key value other k h,
  Kept-lookup key other k h environment,
)

path_key-IsName : IsName python_path_key
unfolding contains_byte
path_key-IsName = refl

python_key-IsName : IsName python_key
unfolding contains_byte
python_key-IsName = refl

path_key_upper : to_upper python_path_key ≡ python_path_key
unfolding to_upper to_upper_byte upper_of_two
path_key_upper = refl

-- The integration tests find the Python that was selected and the path of its sources; apart from
-- other spellings of these two names, they find every variable, whose name holds no `=`, as in the
-- environment of the command.
pub integration_environment_lookup :
    (paths : FilePaths) (environ : List Str) (root python other : Str)
    → IsName other
    → env_lookup (integration_environment paths environ root python) other ≡ (
        if str_eq other python_path_key
        then some (python_source paths root)
        else if str_eq (to_upper other) python_path_key
        then none
        else looked_up environ python_key python other)
unfolding integration_environment
integration_environment_lookup paths environ root python other h =
    let inner = set_environment environ python_key python in
    let outer =
      set_environment_lookup inner python_path_key (python_source paths root) other path_key-IsName
        h in
    let set_python = set_environment_lookup environ python_key python other python_key-IsName h in
    rw (set_python, path_key_upper) at outer
