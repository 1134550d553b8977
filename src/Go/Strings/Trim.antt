-- ===== src/Go/Strings/Trim.antt =====
-- What trimming leaves: a piece of the string with no white space at either end.
use mathlib.Core.List.{reverse, reverse-append, reverse-reverse}
use grounded_search.Prelude.{
  ℕ, zero, suc, ◌≡◌, refl, sym, ap, ◌∙◌, [], ◌∷◌, ◌++◌, arith, length, length-append, ◌≤◌, ℕ-cases,
  inl, inr,
}
use grounded_search.Go.Str.{Str}
use grounded_search.Go.Strings.{
  space_width, space_width_back, trim_from, trim_left, trim_right_space, trim_space,
}

-- What is left begins with no white space.
trim_from-starts :
    (width : Str → ℕ) (k : ℕ) (s : Str) → width [] ≡ 0 → width (trim_from width k s) ≡ 0
unfolding trim_from
trim_from-starts width k [] h = h
trim_from-starts width (suc k) (a ∷ s) h = trim_from-starts width k s h
trim_from-starts width zero (a ∷ s) h = elim (ℕ-cases (width (a ∷ s))) [
  | inl e ↦ rw (e, trim_from) e
  | inr (w, e) ↦ rw (e, trim_from) (trim_from-starts width w s h)
]

-- A string that begins with no white space is left alone.
trim_from_of_zero : (width : Str → ℕ) (s : Str) → width s ≡ 0 → trim_from width 0 s ≡ s
unfolding trim_from
trim_from_of_zero width [] h = refl
trim_from_of_zero width (a ∷ s) h = rw (h, trim_from)

-- What is left is the end of the string.
trim_from-suffix : (width : Str → ℕ) (k : ℕ) (s : Str) → (p : Str) × (s ≡ p ++ trim_from width k s)
unfolding trim_from
trim_from-suffix width k [] = ([], refl)
trim_from-suffix width (suc k) (a ∷ s) =
    let (p, e) = trim_from-suffix width k s in (a ∷ p, ap (λ t. a ∷ t) e)
trim_from-suffix width zero (a ∷ s) = elim (ℕ-cases (width (a ∷ s))) [
  | inl e ↦ ([], rw (e, trim_from))
  | inr (w, e) ↦
      let (p, e') = trim_from-suffix width w s in (a ∷ p, rw (e, trim_from) (ap (λ t. a ∷ t) e'))
]

trim_left-starts : (s : Str) → space_width (trim_left s) ≡ 0
unfolding trim_left space_width
trim_left-starts s = trim_from-starts space_width 0 s refl

trim_left_of_starts : (s : Str) → space_width s ≡ 0 → trim_left s ≡ s
unfolding trim_left
trim_left_of_starts s = trim_from_of_zero space_width s

trim_right_space-ends : (s : Str) → space_width_back (reverse (trim_right_space s)) ≡ 0
unfolding trim_right_space space_width_back
trim_right_space-ends s = rw reverse-reverse (trim_from-starts space_width_back 0 (reverse s) refl)

trim_right_space_of_ends : (s : Str) → space_width_back (reverse s) ≡ 0 → trim_right_space s ≡ s
unfolding trim_right_space
trim_right_space_of_ends s h =
    rw (trim_from_of_zero space_width_back (reverse s) h) (reverse-reverse s)

trim_right_space-prefix : (s : Str) → (q : Str) × (s ≡ trim_right_space s ++ q)
unfolding trim_right_space
trim_right_space-prefix s =
    let (p, e) = trim_from-suffix space_width_back 0 (reverse s) in
    (reverse p, sym (reverse-reverse s) ∙ ap reverse e ∙ reverse-append p _)

-- Cutting the end off a string makes no white space character of its beginning.
space_width-prefix : (p q : Str) → space_width (p ++ q) ≡ 0 → space_width p ≡ 0
unfolding space_width
space_width-prefix [] q h = refl
space_width-prefix (a ∷ []) [] h = h
space_width-prefix (a ∷ []) (b ∷ []) h = ground arith
space_width-prefix (a ∷ []) (b ∷ c ∷ q) h = ground arith
space_width-prefix (a ∷ b ∷ []) [] h = h
space_width-prefix (a ∷ b ∷ []) (c ∷ q) h = ground arith
space_width-prefix (a ∷ b ∷ c ∷ p) q h = h

pub trim_space-starts : (s : Str) → space_width (trim_space s) ≡ 0
unfolding trim_space
trim_space-starts s =
    let (q, e) = trim_right_space-prefix (trim_left s) in
    space_width-prefix (trim_right_space (trim_left s)) q
      (ap space_width (sym e) ∙ trim_left-starts s)

pub trim_space-ends : (s : Str) → space_width_back (reverse (trim_space s)) ≡ 0
unfolding trim_space
trim_space-ends s = trim_right_space-ends (trim_left s)

-- A string with no white space at either end is left alone.
pub trim_space_of_trimmed :
    (s : Str) → space_width s ≡ 0 → space_width_back (reverse s) ≡ 0 → trim_space s ≡ s
unfolding trim_space
trim_space_of_trimmed s h k =
    ap trim_right_space (trim_left_of_starts s h) ∙ trim_right_space_of_ends s k

pub trim_space_idem : (s : Str) → trim_space (trim_space s) ≡ trim_space s
trim_space_idem s = trim_space_of_trimmed (trim_space s) (trim_space-starts s) (trim_space-ends s)

pub trim_space-infix : (s : Str) → (l r : Str) × (s ≡ l ++ (trim_space s ++ r))
unfolding trim_space trim_left
trim_space-infix s =
    let (l, e) = trim_from-suffix space_width 0 s in
    let (r, e') = trim_right_space-prefix (trim_left s) in (l, r, e ∙ ap (λ t. l ++ t) e')

pub length-trim_space : (s : Str) → length (trim_space s) ≤ length s
length-trim_space s =
    let (l, r, e) = trim_space-infix s in
    omega (arith, ap length e, length-append l (trim_space s ++ r), length-append (trim_space s) r)
