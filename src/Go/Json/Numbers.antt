-- ===== src/Go/Json/Numbers.antt =====
-- A number that Itoa prints is one number of JSON.
use grounded_search.Prelude.{
  ℕ, zero, suc, ◌+◌, ◌/◌, ◌%◌, ◌<◌, ◌≡◌, refl, arith, Bool, true, false, not, ◌||◌, [], ◌∷◌, ◌++◌,
  append-nil, ltb, ◌==◌, All, ok, Bool-cases, inl, inr, ℤ, pos, negsuc,
}
use grounded_search.Go.Str.{Str}
use grounded_search.Go.Strconv.{is_digit, emit_digits, format_nat, itoa}
use grounded_search.Go.Strconv.Digits.{IsDigit}
use grounded_search.Go.Json.Value.{Value, number}
use grounded_search.Go.Json.Parser.{
  lead, digit, skip_space, begin_value, whole, span_digits, integer_part, fraction, exponent,
  magnitude,
}

-- Whether a number ends in front of a text.
unfoldable pub ends_number : Str → Bool
ends_number [] = true
ends_number (c ∷ s) = not (is_digit c || c == b'.' || c == b'e' || c == b'E')

span_digits-append :
    (digits rest : Str)
    → All IsDigit digits
    → ends_number rest ≡ true
    → span_digits (digits ++ rest) ≡ (digits, rest)
unfolding span_digits ends_number
span_digits-append [] [] h e = refl
span_digits-append [] (c ∷ rest) h e = ground arith
span_digits-append (c ∷ digits) rest (d, h) e = rw (d, span_digits-append digits rest h e) refl

-- A number in decimal: 0, or digits that do not begin with 0.
data IsDecimal : Str → Type 0 where
  nought : IsDecimal (b'0' ∷ [])
  digits : (c : ℕ) (s : Str) → IsDigit c → (c == b'0') ≡ false → All IsDigit s → IsDecimal (c ∷ s)

emit_digits-IsDecimal :
    (fuel n : ℕ) (out : Str)
    → n < fuel
    → 0 < n
    → All IsDigit out
    → IsDecimal (emit_digits fuel n out)
unfolding emit_digits
emit_digits-IsDecimal zero n out h p d = absurd (omega arith)
emit_digits-IsDecimal (suc fuel) n out h p d = elim (Bool-cases (ltb n 10)) [
  | inl small ↦ rw (emit_digits, small) (digits (b'0' + n) out (ground arith) (ground arith) d)
  | inr large ↦
      rw (emit_digits, large)
        (emit_digits-IsDecimal fuel (n / 10) ((b'0' + n % 10) ∷ out) (ground arith) (ground arith)
          (ground arith, d))
]

format_nat-IsDecimal : (n : ℕ) → IsDecimal (format_nat n)
unfolding format_nat emit_digits
format_nat-IsDecimal zero = nought
format_nat-IsDecimal (suc n) =
    emit_digits-IsDecimal (suc (suc n)) (suc n) [] (omega arith) (omega arith) tt

no_fraction : (rest : Str) → ends_number rest ≡ true → fraction rest ≡ ok ([], rest)
unfolding fraction ends_number
no_fraction [] h = refl
no_fraction (c ∷ rest) h = ground arith

no_exponent : (rest : Str) → ends_number rest ≡ true → exponent rest ≡ ok ([], rest)
unfolding exponent ends_number
no_exponent [] h = refl
no_exponent (c ∷ rest) h = ground arith

integer_part-append :
    (s rest : Str) → IsDecimal s → ends_number rest ≡ true → integer_part (s ++ rest) ≡ ok (s, rest)
unfolding integer_part
integer_part-append _ rest nought e = refl
integer_part-append _ rest (digits c s d z h) e = rw (z, d, span_digits-append s rest h e) refl

magnitude-append :
    (s rest : Str) → IsDecimal s → ends_number rest ≡ true → magnitude (s ++ rest) ≡ ok (s, rest)
unfolding magnitude
magnitude-append s rest d e =
    rw (integer_part-append s rest d e, no_fraction rest e, no_exponent rest e, append-nil) refl

-- All of a value stands at the front of a text, with no white space before it.
pub record Begins (s : Str) (v : Value) (rest : Str) : Type 0 where
  pub no_space : skip_space s ≡ s
  pub begins : (depth : ℕ) → begin_value depth s ≡ whole (ok (v, rest))

digit_leads : (c : ℕ) → IsDigit c → lead c ≡ digit
unfolding lead
digit_leads c h = ground arith

digit_stays : (c : ℕ) (s : Str) → IsDigit c → skip_space (c ∷ s) ≡ c ∷ s
unfolding skip_space
digit_stays c s h = ground arith

digit-Begins :
    (c : ℕ) (s rest : Str)
    → IsDigit c
    → IsDecimal (c ∷ s)
    → ends_number rest ≡ true
    → Begins (c ∷ (s ++ rest)) (number (c ∷ s)) rest
unfolding begin_value
digit-Begins c s rest h d e = record {
  no_space = digit_stays c (s ++ rest) h;
  begins = λ depth. rw (digit_leads c h, magnitude-append (c ∷ s) rest d e) refl;
}

decimal-Begins :
    (s rest : Str) → IsDecimal s → ends_number rest ≡ true → Begins (s ++ rest) (number s) rest
decimal-Begins _ rest nought e = digit-Begins b'0' [] rest refl nought e
decimal-Begins _ rest (digits c s d z h) e = digit-Begins c s rest d (digits c s d z h) e

minus-Begins :
    (s rest : Str)
    → IsDecimal s
    → ends_number rest ≡ true
    → Begins (b'-' ∷ (s ++ rest)) (number (b'-' ∷ s)) rest
unfolding begin_value skip_space
minus-Begins s rest d e = record {
  no_space = refl;
  begins = λ depth. rw (magnitude-append s rest d e) refl;
}

itoa_of_pos : (n : ℕ) → itoa (pos n) ≡ format_nat n
unfolding itoa
itoa_of_pos n = refl

itoa_of_negsuc : (n : ℕ) → itoa (negsuc n) ≡ b'-' ∷ format_nat (suc n)
unfolding itoa
itoa_of_negsuc n = refl

pub itoa-Begins :
    (n : ℤ) (rest : Str) → ends_number rest ≡ true → Begins (itoa n ++ rest) (number (itoa n)) rest
itoa-Begins (pos n) rest e =
    rw (itoa_of_pos n) (decimal-Begins (format_nat n) rest (format_nat-IsDecimal n) e)
itoa-Begins (negsuc n) rest e =
    rw (itoa_of_negsuc n) (minus-Begins (format_nat (suc n)) rest (format_nat-IsDecimal (suc n)) e)
