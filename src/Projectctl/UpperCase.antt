-- ===== src/Projectctl/UpperCase.antt =====
-- Upper case and the `=` behind the name of a variable.
use grounded_search.Prelude.{
  ℕ, false, Option, none, some, [], ◌∷◌, ◌++◌, ◌≡◌, ◌≢◌, refl, arith, ap, sym, ◌∙◌,
}
use grounded_search.Go.Str.{Str}
use grounded_search.Go.Strings.{contains_byte, to_upper, to_upper_byte, upper_of_two}

-- A name of a variable.
abbrev pub IsName : Str → Type 0
IsName key = contains_byte key b'=' ≡ false

upper_of_pair :
    (a b u : ℕ) (s : Str) → upper_of_two a b ≡ some u → to_upper (a ∷ b ∷ s) ≡ u ∷ to_upper s
unfolding to_upper
upper_of_pair a b u s e = rw (e, to_upper) refl

upper_of_byte :
    (a b : ℕ) (s : Str)
    → upper_of_two a b ≡ none
    → to_upper (a ∷ b ∷ s) ≡ to_upper_byte a ∷ to_upper (b ∷ s)
unfolding to_upper
upper_of_byte a b s e = rw (e, to_upper) refl

before_equals : (a : ℕ) → upper_of_two a b'=' ≡ none
unfolding upper_of_two
before_equals a = ground arith

behind_equals : (b : ℕ) → upper_of_two b'=' b ≡ none
unfolding upper_of_two
behind_equals b = refl

equals_kept : to_upper_byte b'=' ≡ b'='
unfolding to_upper_byte
equals_kept = refl

upper_equals : (s : Str) → to_upper (b'=' ∷ s) ≡ b'=' ∷ to_upper s
unfolding to_upper to_upper_byte
upper_equals [] = refl
upper_equals (b ∷ s) = upper_of_byte b'=' b s (behind_equals b)

upper_two :
    (a b : ℕ) (key t : Str) (o : Option ℕ)
    → upper_of_two a b ≡ o
    → to_upper (key ++ (b'=' ∷ t)) ≡ to_upper key ++ (b'=' ∷ to_upper t)
    → to_upper (b ∷ (key ++ (b'=' ∷ t))) ≡ to_upper (b ∷ key) ++ (b'=' ∷ to_upper t)
    → to_upper (a ∷ b ∷ (key ++ (b'=' ∷ t))) ≡ to_upper (a ∷ b ∷ key) ++ (b'=' ∷ to_upper t)
upper_two a b key t (some u) e short long =
    upper_of_pair a b u (key ++ (b'=' ∷ t)) e
    ∙ ap (λ r. u ∷ r) short
    ∙ ap (λ r. r ++ (b'=' ∷ to_upper t)) (sym (upper_of_pair a b u key e))
upper_two a b key t none e short long =
    upper_of_byte a b (key ++ (b'=' ∷ t)) e
    ∙ ap (λ r. to_upper_byte a ∷ r) long
    ∙ ap (λ r. r ++ (b'=' ∷ to_upper t)) (sym (upper_of_byte a b key e))

-- The upper case of "key=rest" begins with that of "key=".
pub upper-append :
    (key s : Str) → to_upper (key ++ (b'=' ∷ s)) ≡ to_upper key ++ (b'=' ∷ to_upper s)
unfolding to_upper
upper-append [] s = upper_equals s
upper-append (a ∷ []) s =
    upper_of_byte a b'=' s (before_equals a) ∙ ap (λ r. to_upper_byte a ∷ r) (upper_equals s)
upper-append (a ∷ b ∷ key) s =
    upper_two a b key s (upper_of_two a b) refl (upper-append key s) (upper-append (b ∷ key) s)

byte_not_equals : (a : ℕ) → a ≢ b'=' → to_upper_byte a ≢ b'='
unfolding to_upper_byte
byte_not_equals a h = ground arith

two_not_equals : (a b u : ℕ) → upper_of_two a b ≡ some u → u ≢ b'='
unfolding upper_of_two
two_not_equals a b u h = ground arith

IsName-cons : (a : ℕ) (s : Str) → IsName (a ∷ s) → (a ≢ b'=') × IsName s
unfolding contains_byte
IsName-cons a s h = (ground arith, ground arith)

cons_IsName : (a : ℕ) (s : Str) → a ≢ b'=' → IsName s → IsName (a ∷ s)
unfolding contains_byte
cons_IsName a s h k = ground arith

upper_two-IsName :
    (a b : ℕ) (key : Str) (o : Option ℕ)
    → upper_of_two a b ≡ o
    → a ≢ b'='
    → IsName (to_upper key)
    → IsName (to_upper (b ∷ key))
    → IsName (to_upper (a ∷ b ∷ key))
upper_two-IsName a b key (some u) e h short long =
    rw (upper_of_pair a b u key e) (cons_IsName u (to_upper key) (two_not_equals a b u e) short)
upper_two-IsName a b key none e h short long =
    rw (upper_of_byte a b key e)
      (cons_IsName (to_upper_byte a) (to_upper (b ∷ key)) (byte_not_equals a h) long)

pub upper-IsName : (key : Str) → IsName key → IsName (to_upper key)
unfolding to_upper
upper-IsName [] h = h
upper-IsName (a ∷ []) h =
    cons_IsName (to_upper_byte a) [] (byte_not_equals a (IsName-cons a [] h).0)
      (unfold contains_byte in refl)
upper-IsName (a ∷ b ∷ key) h =
    let (first, rest) = IsName-cons a (b ∷ key) h in
    upper_two-IsName a b key (upper_of_two a b) refl first
      (upper-IsName key (IsName-cons b key rest).1) (upper-IsName (b ∷ key) rest)
