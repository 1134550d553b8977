-- ===== src/Go/Strconv/Digits.antt =====
-- What Itoa prints: digits behind an optional minus sign, and never the empty string.
use grounded_search.Prelude.{
  ℕ, zero, suc, ◌/◌, ◌%◌, ◌+◌, ◌<◌, ◌≡◌, ◌≢◌, refl, ap, ℤ, pos, negsuc, [], ◌∷◌, ltb, true, false,
  arith, All, Bool-cases, inl, inr, ◌^◌, ◌≤◌, length,
}
use native.Mathlib.Nat.{pow-suc}
use grounded_search.Go.Str.{Str}
use grounded_search.Go.Strings.{contains_byte}
use grounded_search.Go.Strings.Visible.{IsVisible}
use grounded_search.Go.Strconv.{is_digit, emit_digits, format_nat, itoa, atoi}
use grounded_search.Go.Strconv.RoundTrip.{IsInt64, atoi-itoa}

abbrev pub IsDigit : ℕ → Type 0
IsDigit c = is_digit c ≡ true

emit_digits-IsDigit :
    (fuel n : ℕ) (out : Str) → n < fuel → All IsDigit out → All IsDigit (emit_digits fuel n out)
unfolding emit_digits
emit_digits-IsDigit zero n out h d = absurd (omega arith)
emit_digits-IsDigit (suc fuel) n out h d = elim (Bool-cases (ltb n 10)) [
  | inl small ↦ rw (small, emit_digits) (ground arith, d)
  | inr large ↦
      rw (large, emit_digits)
        (emit_digits-IsDigit fuel (n / 10) ((b'0' + n % 10) ∷ out) (ground arith) (ground arith, d))
]

pub format_nat-IsDigit : (n : ℕ) → All IsDigit (format_nat n)
unfolding format_nat
format_nat-IsDigit n = emit_digits-IsDigit (suc n) n [] (omega arith) tt

IsVisible-of_digits : (s : Str) → All IsDigit s → All IsVisible s
IsVisible-of_digits [] h = tt
IsVisible-of_digits (c ∷ s) (d, h) = ((ground arith, ground arith), IsVisible-of_digits s h)

pub itoa-IsVisible : (z : ℤ) → All IsVisible (itoa z)
unfolding itoa
itoa-IsVisible (pos n) = IsVisible-of_digits (format_nat n) (format_nat-IsDigit n)
itoa-IsVisible (negsuc n) =
    (omega arith, IsVisible-of_digits (format_nat (suc n)) (format_nat-IsDigit (suc n)))

no_colon_in_digits : (s : Str) → All IsDigit s → contains_byte s b':' ≡ false
unfolding contains_byte
no_colon_in_digits [] h = refl
no_colon_in_digits (c ∷ s) (d, h) = ground (arith, no_colon_in_digits s h)

pub itoa-no_colon : (z : ℤ) → contains_byte (itoa z) b':' ≡ false
unfolding itoa contains_byte
itoa-no_colon (pos n) = no_colon_in_digits (format_nat n) (format_nat-IsDigit n)
itoa-no_colon (negsuc n) = no_colon_in_digits (format_nat (suc n)) (format_nat-IsDigit (suc n))

pub itoa-ne-nil : (z : ℤ) → IsInt64 z → itoa z ≢ []
unfolding atoi
itoa-ne-nil z h e = absurd (ground (arith, atoi-itoa z h))

pub itoa_injective : (y z : ℤ) → IsInt64 y → IsInt64 z → itoa y ≡ itoa z → y ≡ z
itoa_injective y z hy hz e = cc (atoi-itoa y hy, atoi-itoa z hz, ap atoi e)

pub format_nat-IsVisible : (n : ℕ) → All IsVisible (format_nat n)
format_nat-IsVisible n = IsVisible-of_digits (format_nat n) (format_nat-IsDigit n)

-- A number below 10 ^ k has at most k digits.
length-emit_digits :
    (fuel k n : ℕ) (out : Str)
    → n < fuel
    → n < 10 ^ suc k
    → length (emit_digits fuel n out) ≤ suc k + length out
unfolding emit_digits
length-emit_digits zero k n out h small = absurd (omega arith)
length-emit_digits (suc fuel) zero n out h small =
    let one : ltb n 10 ≡ true = ground arith in rw (one, emit_digits) (omega arith)
length-emit_digits (suc fuel) (suc k) n out h small = elim (Bool-cases (ltb n 10)) [
  | inl one ↦ rw (one, emit_digits) (omega arith)
  | inr more ↦
      let ih =
        length-emit_digits fuel k (n / 10) ((b'0' + n % 10) ∷ out) (ground arith)
          (omega (arith, pow-suc 10 (suc k))) in
      rw (more, emit_digits) (omega (arith, ih))
]

pub length-format_nat : (n : ℕ) → n < 2 ^ 64 → length (format_nat n) ≤ 20
unfolding format_nat
length-format_nat n h = length-emit_digits (suc n) 19 n [] (omega arith) (omega arith)

pub length-itoa : (z : ℤ) → IsInt64 z → length (itoa z) ≤ 21
unfolding itoa
length-itoa (pos n) h = omega (arith, length-format_nat n (omega arith))
length-itoa (negsuc n) h = omega (arith, length-format_nat (suc n) (omega arith))
