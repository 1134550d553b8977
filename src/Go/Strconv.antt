-- ===== src/Go/Strconv.antt =====
-- Go's package strconv: Itoa and Atoi, with int of 64 bits.
pub mod RoundTrip
pub mod Digits
use grounded_search.Prelude.{
  ℕ, zero, suc, ◌+◌, ◌-◌, ◌*◌, ◌/◌, ◌%◌, ◌^◌, ℤ, pos, negsuc, neg, Bool, true, false, ◌||◌, ◌&&◌,
  List, [], ◌∷◌, ltb, leb, ◌==◌, if◌then◌else◌, Result, ok, err, ◌>>=◌,
}
use grounded_search.Go.Str.{Str}
use grounded_search.Go.Errors.{Sentinel, syntax_error, range_error}

abbrev pub is_digit : ℕ → Bool
is_digit c = leb b'0' c && leb c b'9'

-- The digits of `n` in front of `out`, one round for each digit; `fuel` bounds the rounds.
unfoldable pub emit_digits : ℕ → ℕ → Str → Str
emit_digits zero n out = out
emit_digits (suc fuel) n out = elim (ltb n 10) [
  | true ↦ (b'0' + n) ∷ out
  | false ↦ emit_digits fuel (n / 10) ((b'0' + n % 10) ∷ out)
]

unfoldable pub format_nat : ℕ → Str
unfolding emit_digits
format_nat n = emit_digits (suc n) n []

unfoldable pub itoa : ℤ → Str
unfolding format_nat
itoa (pos n) = format_nat n
itoa (negsuc n) = b'-' ∷ format_nat (suc n)

-- The loop of ParseUint in base 10 for 64 bits.
pub scan_uint : Str → ℕ → Result Sentinel ℕ
scan_uint [] n = ok n
scan_uint (c ∷ s) n =
    let next = n * 10 + (c - b'0') in
    if is_digit c
    then if leb (2 ^ 64) next then err range_error else scan_uint s next
    else err syntax_error

pub parse_uint : Str → Result Sentinel ℕ
unfolding scan_uint
parse_uint [] = err syntax_error
parse_uint (c ∷ s) = scan_uint (c ∷ s) 0

-- The range of int behind the sign.
pub signed : Bool → ℕ → Result Sentinel ℤ
signed false n = if leb (2 ^ 63) n then err range_error else ok (pos n)
signed true n = if ltb (2 ^ 63) n then err range_error else ok (neg n)

unfoldable pub atoi : Str → Result Sentinel ℤ
unfolding parse_uint signed
atoi [] = err syntax_error
atoi (c ∷ s) =
    if c == b'-'
    then parse_uint s >>= signed true
    else if c == b'+'
    then parse_uint s >>= signed false
    else parse_uint (c ∷ s) >>= signed false
