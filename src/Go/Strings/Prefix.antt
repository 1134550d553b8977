-- ===== src/Go/Strings/Prefix.antt =====
-- Prefixes and single bytes of strings.
use grounded_search.Prelude.{ℕ, ◌≡◌, refl, true, false, [], ◌∷◌, ◌++◌, arith}
use grounded_search.Go.Str.{Str}
use grounded_search.Go.Strings.{has_prefix, contains_byte}

pub has_prefix-append : (p s : Str) → has_prefix (p ++ s) p ≡ true
unfolding has_prefix
has_prefix-append [] [] = refl
has_prefix-append [] (c ∷ s) = refl
has_prefix-append (c ∷ p) s = ground (arith, has_prefix-append p s)

-- A string is cut at its first `c`; what stands before a `c` and holds none is determined.
pub append_byte_injective :
    (c : ℕ) (s t s' t' : Str)
    → contains_byte s c ≡ false
    → contains_byte t c ≡ false
    → s ++ (c ∷ s') ≡ t ++ (c ∷ t')
    → (s ≡ t) × (s' ≡ t')
unfolding contains_byte
append_byte_injective c [] [] s' t' hs ht e = (refl, cc)
append_byte_injective c [] (b ∷ t) s' t' hs ht e = absurd (ground arith)
append_byte_injective c (a ∷ s) [] s' t' hs ht e = absurd (ground arith)
append_byte_injective c (a ∷ s) (b ∷ t) s' t' hs ht e =
    let (p, q) = append_byte_injective c s t s' t' (ground arith) (ground arith) (cc) in
    (ground arith, q)

contains_byte-append : (c : ℕ) (s t : Str) → contains_byte (s ++ (c ∷ t)) c ≡ true
unfolding contains_byte
contains_byte-append c [] t = ground arith
contains_byte-append c (a ∷ s) t = ground (arith, contains_byte-append c s t)

-- A string is cut at its last `c` too, where what follows holds none.
pub append_last_byte_injective :
    (c : ℕ) (s t p q : Str)
    → contains_byte p c ≡ false
    → contains_byte q c ≡ false
    → s ++ (c ∷ p) ≡ t ++ (c ∷ q)
    → (s ≡ t) × (p ≡ q)
append_last_byte_injective c [] [] p q hp hq e = (refl, cc)
append_last_byte_injective c [] (b ∷ t) p q hp hq e =
    absurd (ground (arith, contains_byte-append c t q))
append_last_byte_injective c (a ∷ s) [] p q hp hq e =
    absurd (ground (arith, contains_byte-append c s p))
append_last_byte_injective c (a ∷ s) (b ∷ t) p q hp hq e =
    let (x, y) = append_last_byte_injective c s t p q hp hq (cc) in (ground arith, y)
