-- ===== src/Go/Strconv/RoundTrip.antt =====
-- Atoi reads what Itoa prints.
use grounded_search.Prelude.{
  ℕ, zero, suc, ◌+◌, ◌/◌, ◌%◌, ◌^◌, ◌<◌, ◌≡◌, ℤ, pos, negsuc, true, [], ◌∷◌, ltb, ok, arith,
  Bool-cases, inl, inr,
}
use grounded_search.Go.Str.{Str}
use grounded_search.Go.Strconv.{
  is_digit, emit_digits, format_nat, itoa, scan_uint, parse_uint, signed, atoi,
}

-- Reading the digits of `n` and then `out` is reading `out` behind the number `n`.
scan_uint-emit_digits :
    (fuel n : ℕ) (out : Str)
    → n < fuel
    → n < 2 ^ 64
    → scan_uint (emit_digits fuel n out) 0 ≡ scan_uint out n
unfolding emit_digits scan_uint
scan_uint-emit_digits zero n out h fits = absurd (omega arith)
scan_uint-emit_digits (suc fuel) n out h fits = elim (Bool-cases (ltb n 10)) [
  | inl small ↦ rw (small, emit_digits) (ground arith)
  | inr large ↦
      rw (large, emit_digits)
        (ground (arith, scan_uint-emit_digits fuel (n / 10) ((b'0' + n % 10) ∷ out)))
]

-- A printed number begins with a digit.
emit_digits-head :
    (fuel n : ℕ) (out : Str)
    → n < fuel
    → (c : ℕ) × (s : Str) × (emit_digits fuel n out ≡ c ∷ s) × (is_digit c ≡ true)
unfolding emit_digits
emit_digits-head zero n out h = absurd (omega arith)
emit_digits-head (suc fuel) n out h = elim (Bool-cases (ltb n 10)) [
  | inl small ↦ (b'0' + n, out, rw (small, emit_digits), ground arith)
  | inr large ↦
      let (c, s, e, d) = emit_digits-head fuel (n / 10) ((b'0' + n % 10) ∷ out) (ground arith) in
      (c, s, rw (large, emit_digits) e, d)
]

format_nat-head : (n : ℕ) → (c : ℕ) × (s : Str) × (format_nat n ≡ c ∷ s) × (is_digit c ≡ true)
unfolding format_nat
format_nat-head n = emit_digits-head (suc n) n [] (omega arith)

pub parse_uint-format_nat : (n : ℕ) → n < 2 ^ 64 → parse_uint (format_nat n) ≡ ok n
unfolding parse_uint
parse_uint-format_nat n h =
    let (c, s, e, d) = format_nat-head n in
    let scanned : scan_uint (format_nat n) 0 ≡ ok n =
      unfold format_nat scan_uint in scan_uint-emit_digits (suc n) n [] (omega arith) h in
    rw (e, parse_uint) (rw e at scanned)

atoi_of_digit :
    (c : ℕ) (s : Str) (n : ℕ)
    → is_digit c ≡ true
    → parse_uint (c ∷ s) ≡ ok n
    → n < 2 ^ 63
    → atoi (c ∷ s) ≡ ok (pos n)
unfolding atoi signed
atoi_of_digit c s n d e h = ground arith

pub atoi-itoa_pos : (n : ℕ) → n < 2 ^ 63 → atoi (itoa (pos n)) ≡ ok (pos n)
unfolding itoa
atoi-itoa_pos n h =
    let (c, s, e, d) = format_nat-head n in
    let read = parse_uint-format_nat n (omega arith) in
    rw e (atoi_of_digit c s n d (rw e at read) h)

atoi_of_minus :
    (s : Str) (n : ℕ) → parse_uint s ≡ ok (suc n) → n < 2 ^ 63 → atoi (b'-' ∷ s) ≡ ok (negsuc n)
unfolding atoi signed
atoi_of_minus s n e h = ground arith

-- Every int of 64 bits.
abbrev pub IsInt64 : ℤ → Type 0
IsInt64 (pos n) = n < 2 ^ 63
IsInt64 (negsuc n) = n < 2 ^ 63

-- Atoi reads back what Itoa prints, for every int.
pub atoi-itoa : (z : ℤ) → IsInt64 z → atoi (itoa z) ≡ ok z
unfolding itoa
atoi-itoa (pos n) h = atoi-itoa_pos n h
atoi-itoa (negsuc n) h =
    atoi_of_minus (format_nat (suc n)) n (parse_uint-format_nat (suc n) (omega arith)) h
