-- ===== src/Go/Duration.antt =====
-- Go's time.ParseDuration: a sign, then pairs of a decimal number and a unit; nanoseconds.
mod Tests
pub mod Bounds
pub mod Fuel
use grounded_search.Prelude.{
  ℕ, zero, suc, ◌+◌, ◌-◌, ◌*◌, ◌/◌, ◌%◌, ◌^◌, ℤ, pos, neg, Bool, true, false, ◌&&◌, ◌||◌, not,
  Option, none, some, List, [], ◌∷◌, ltb, leb, length, ◌==◌, if◌then◌else◌, ok, err, ◌>>=◌,
}
use grounded_search.Go.Str.{Str, codes, str_eq}
use grounded_search.Go.Strconv.{is_digit}
use grounded_search.Go.Errors.{Error, quoted, Outcome}

abbrev invalid : Str → Error
invalid orig = quoted (codes "time: invalid duration ") orig []

abbrev missing_unit : Str → Error
missing_unit orig = quoted (codes "time: missing unit in duration ") orig []

-- The value of the digits that a string begins with and the rest of it; `none` on overflow.
leading_int : Str → ℕ → Option (ℕ × Str)
leading_int [] x = some (x, [])
leading_int (c ∷ s) x =
    let next = x * 10 + (c - b'0') in
    if is_digit c
    then if ltb (2 ^ 63 / 10) x || ltb (2 ^ 63) next then none else leading_int s next
    else some (x, c ∷ s)

-- A fraction: its digits as a number, ten to the power of how many they are, and the rest. Digits
-- behind the first that does not fit are dropped.
record Fraction : Type 0 where
  digits : ℕ
  scale : ℕ
  rest : Str

leading_fraction : Str → ℕ → ℕ → Bool → Fraction
leading_fraction [] x scale overflow = record { digits = x; scale = scale; rest = [] }
leading_fraction (c ∷ s) x scale overflow =
    let next = x * 10 + (c - b'0') in
    let too_long = overflow || ltb ((2 ^ 63 - 1) / 10) x || ltb (2 ^ 63) next in
    if is_digit c
    then leading_fraction s (if too_long then x else next) (if too_long then scale else scale * 10)
        too_long
    else record { digits = x; scale = scale; rest = c ∷ s }

-- The bytes before the next digit or point, and the rest.
unit_split : Str → Str × Str
unit_split [] = ([], [])
unit_split (c ∷ s) =
    if c == b'.' || is_digit c then ([], c ∷ s) else let (u, r) = unit_split s in (c ∷ u, r)

abbrev first_of_units : List (Str × ℕ) → Str → Option ℕ
first_of_units [] u = none
first_of_units ((name, size) ∷ rest) u = if str_eq name u then some size else first_of_units rest u

-- Micro is written with u, with U+00B5 or with U+03BC.
unit_map : List (Str × ℕ)
unit_map =
    (codes "ns", 1)
    ∷ (codes "us", 1000)
    ∷ (0xc2 ∷ 0xb5 ∷ b's' ∷ [], 1000)
    ∷ (0xce ∷ 0xbc ∷ b's' ∷ [], 1000)
    ∷ (codes "ms", 1000000)
    ∷ (codes "s", 1000000000)
    ∷ (codes "m", 60000000000)
    ∷ (codes "h", 3600000000000)
    ∷ []

-- The float arithmetic of the fraction: uint64(float64(f) * (float64(unit) / scale)).
abbrev pub FloatScale : Type 0
FloatScale = ℕ → ℕ → ℕ → ℕ

starts_number : Str → Bool
starts_number [] = false
starts_number (c ∷ s) = c == b'.' || is_digit c

abbrev starts_digit : Str → Bool
starts_digit [] = false
starts_digit (c ∷ s) = is_digit c

-- The fraction behind a point, if there is one, and whether it has a digit.
fraction_part : Str → Fraction × Bool
unfolding leading_fraction
fraction_part [] = (record { digits = 0; scale = 1; rest = [] }, false)
fraction_part (c ∷ s) =
    if c == b'.'
    then (leading_fraction s 0 1 false, starts_digit s)
    else (record { digits = 0; scale = 1; rest = c ∷ s }, false)

module _ (float_scale : FloatScale) (orig : Str) where
  -- `v` of the unit `u` and the fraction, in nanoseconds.
  with_unit : ℕ → Fraction → Str → Outcome ℕ
  unfolding unit_map
  with_unit v f u = elim (first_of_units unit_map u) [
    | none ↦ err (quoted (codes "time: unknown unit ") u (codes " in duration"))
    | some unit ↦
        let whole = v * unit in
        let total = (whole + float_scale f.digits unit f.scale) % 2 ^ 64 in
        if ltb (2 ^ 63 / unit) v
        then err (invalid orig)
        else if f.digits == 0
        then ok whole
        else if ltb (2 ^ 63) total
        then err (invalid orig)
        else ok total
  ]

  -- The unit behind a number that has a digit.
  unit_of_pair : ℕ → Fraction → Outcome (ℕ × Str)
  unfolding unit_split with_unit
  unit_of_pair v f =
      let (u, rest) = unit_split f.rest in
      if str_eq u [] then err (missing_unit orig) else (with_unit v f u >>= λ n. ok (n, rest))

  -- The number behind the check that one begins here; `integral` says whether it begins with a digit.
  rest_of_pair : Bool → Option (ℕ × Str) → Outcome (ℕ × Str)
  unfolding fraction_part unit_of_pair
  rest_of_pair integral none = err (invalid orig)
  rest_of_pair integral (some (v, after)) =
      let (f, fractional) = fraction_part after in
      if integral || fractional then unit_of_pair v f else err (invalid orig)

  -- One round of the loop: the value of the first pair, and what follows it.
  one_pair : Str → Outcome (ℕ × Str)
  unfolding starts_number leading_int rest_of_pair
  one_pair s =
      if starts_number s
      then rest_of_pair (starts_digit s) (leading_int s 0)
      else err (invalid orig)

  -- A round takes a byte at least, so the length of the string bounds the rounds.
  pub pairs : ℕ → Str → ℕ → Outcome ℕ
  unfolding one_pair
  pairs fuel [] d = ok d
  pairs zero (c ∷ s) d = err (invalid orig)
  pairs (suc fuel) (c ∷ s) d = one_pair (c ∷ s) >>= λ p.
      (let total = (d + p.0) % 2 ^ 64 in
        let later = pairs fuel p.1 total in
        if ltb (2 ^ 63) total then err (invalid orig) else later)

  unsigned : Bool → Str → Outcome ℤ
  unfolding pairs
  unsigned negative s =
      if str_eq s (codes "0")
      then ok (pos 0)
      else if str_eq s []
      then err (invalid orig)
      else pairs (length s) s 0 >>= λ d.
          (if negative
            then ok (neg d)
            else if ltb (2 ^ 63 - 1) d
            then err (invalid orig)
            else ok (pos d))

unfoldable pub parse_duration : FloatScale → Str → Outcome ℤ
unfolding unsigned
parse_duration float_scale [] = unsigned float_scale [] false []
parse_duration float_scale (c ∷ s) =
    if c == b'-'
    then unsigned float_scale (c ∷ s) true s
    else if c == b'+'
    then unsigned float_scale (c ∷ s) false s
    else unsigned float_scale (c ∷ s) false (c ∷ s)
