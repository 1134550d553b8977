-- ===== src/HttpApi/RequestIds.antt =====
-- Every exchange has a request ID of 1 to 128 visible ASCII characters.
use grounded_search.Prelude.{
  ℕ, ℤ, ◌+◌, ◌*◌, ◌%◌, ◌^◌, ◌≤◌, ◌<◌, ◌≡◌, ◌≢◌, ◌↔◌, refl, ap, false, Option, none, some, [], ◌∷◌,
  ◌++◌, arith, All, All-append, length, length-append, Bool-cases, inl, inr,
}
use grounded_search.Go.Str.{Str, codes, str_eq, str_eq_iff}
use grounded_search.Go.Strings.{trim_space}
use grounded_search.Go.Strings.Visible.{IsVisible}
use grounded_search.Go.Strconv.{itoa, format_nat}
use grounded_search.Go.Strconv.RoundTrip.{IsInt64}
use grounded_search.Go.Strconv.Digits.{
  itoa-IsVisible, format_nat-IsVisible, length-itoa, length-format_nat,
}
use grounded_search.Go.Http.{header_get}
use grounded_search.HttpApi.State.{Request}
use grounded_search.HttpApi.RequestId.{
  has_invisible, valid_request_id, hex_encode, Entropy, generate_request_id,
}
use grounded_search.HttpApi.Middleware.{choose_request_id, request_id_header}

-- What the public contract asks of a request ID, and the characters of a header value.
pub record IsRequestId (id : Str) : Type 0 where
  pub given : id ≢ []
  pub short : length id ≤ 128
  pub visible : All IsVisible id

IsVisible-sound : (s : Str) → has_invisible s ≡ false → All IsVisible s
unfolding has_invisible
IsVisible-sound [] h = tt
IsVisible-sound (c ∷ s) h = ((ground arith, ground arith), IsVisible-sound s (ground arith))

visible_complete : (s : Str) → All IsVisible s → has_invisible s ≡ false
unfolding has_invisible
visible_complete [] h = refl
visible_complete (c ∷ s) (v, h) = ground (arith, visible_complete s h)

valid_of_parts :
    (raw id : Str)
    → valid_request_id raw ≡ id
    → id ≢ []
    → (id ≡ trim_space raw)
      × (length (trim_space raw) ≤ 128)
      × (has_invisible (trim_space raw) ≡ false)
unfolding valid_request_id
valid_of_parts raw id h given = ground arith

valid_request_id_sound :
    (raw id : Str)
    → (valid_request_id raw ≡ id) × (id ≢ [])
    → (id ≡ trim_space raw) × IsRequestId id
valid_request_id_sound raw id (h, given) =
    let (same, short, visible) = valid_of_parts raw id h given in
    (
      same,
      record {
        given = given;
        short = rw same short;
        visible = rw same (IsVisible-sound (trim_space raw) visible);
      },
    )

valid_request_id_complete :
    (raw id : Str)
    → (id ≡ trim_space raw) × IsRequestId id
    → (valid_request_id raw ≡ id) × (id ≢ [])
unfolding valid_request_id
valid_request_id_complete raw id (same, ok_id) = (
  ground (
    arith,
    str_eq_iff (trim_space raw) [],
    visible_complete id ok_id.visible,
    ok_id.short,
    ok_id.given,
  ),
  ok_id.given,
)

-- A header value is taken as the request ID exactly when it is one once the white space around it is
-- gone; any other value gives the empty string.
pub valid_request_id_iff :
    (raw id : Str)
    → ((valid_request_id raw ≡ id) × (id ≢ [])) ↔ ((id ≡ trim_space raw) × IsRequestId id)
valid_request_id_iff raw id = (valid_request_id_sound raw id, valid_request_id_complete raw id)

-- The source of random bytes gives 16 of them, and the clock an int64.
pub record IsEntropy (e : Entropy) : Type 0 where
  pub bytes : (b : Str) → e.random ≡ some b → (length b ≡ 16) × All (λ c. c < 256) b
  pub clock : IsInt64 e.unix_nano

length-hex_encode : (b : Str) → length (hex_encode b) ≡ 2 * length b
unfolding hex_encode
length-hex_encode [] = refl
length-hex_encode (c ∷ b) = omega (arith, length-hex_encode b)

hex_encode-IsVisible : (b : Str) → All (λ c. c < 256) b → All IsVisible (hex_encode b)
unfolding hex_encode
hex_encode-IsVisible [] h = tt
hex_encode-IsVisible (c ∷ b) (small, h) =
    ((ground arith, ground arith), ((ground arith, ground arith), hex_encode-IsVisible b h))

-- The ID that the counter and the clock give.
fallback-IsRequestId :
    (nano : ℤ) (n : ℕ)
    → IsInt64 nano
    → n < 2 ^ 64
    → IsRequestId (codes "fallback-" ++ (itoa nano ++ (codes "-" ++ format_nat n)))
fallback-IsRequestId nano n clock small = record {
  given = λ e. absurd (ground arith);
  short = omega (
    arith,
    length-append (codes "fallback-") (itoa nano ++ (codes "-" ++ format_nat n)),
    length-append (itoa nano) (codes "-" ++ format_nat n),
    length-append (codes "-") (format_nat n),
    length-itoa nano clock,
    length-format_nat n small,
  );
  visible = All-append IsVisible (codes "fallback-") _ (omega arith) (
      All-append IsVisible (itoa nano) _ (itoa-IsVisible nano)
        (All-append IsVisible (codes "-") (format_nat n) (omega arith) (format_nat-IsVisible n)));
}

hex_encode-IsRequestId :
    (b : Str) → length b ≡ 16 → All (λ c. c < 256) b → IsRequestId (hex_encode b)
hex_encode-IsRequestId b long small = record {
  given = λ e. absurd (omega (arith, ap length e, length-hex_encode b));
  short = omega (arith, length-hex_encode b);
  visible = hex_encode-IsVisible b small;
}

-- What the header of a request gives.
abbrev given_id : Request → Str
given_id request = valid_request_id (header_get request_id_header request.header)

generate_request_id-IsRequestId :
    (e : Entropy) (counter : ℕ) → IsEntropy e → IsRequestId (generate_request_id e counter).1
unfolding generate_request_id
generate_request_id-IsRequestId e counter good = go e.random refl
  where
    go :
        (r : Option Str)
        → e.random ≡ r
        → IsRequestId
            (elim r as (λ _. ℕ × Str) [
              | some bytes ↦ (counter, hex_encode bytes)
              | none ↦ (
                (counter + 1) % 2 ^ 64,
                codes "fallback-"
                    ++ (itoa e.unix_nano ++ (codes "-" ++ format_nat ((counter + 1) % 2 ^ 64))),
              )
            ]).1
    go none q = fallback-IsRequestId e.unix_nano _ good.clock (omega arith)
    go (some b) q = hex_encode-IsRequestId b (good.bytes b q).0 (good.bytes b q).1

-- The ID of an exchange has 1 to 128 visible ASCII characters, whatever the header holds, where
-- the source of random bytes gives 16 bytes unless it fails and the clock an int64.
pub choose_request_id-IsRequestId :
    (e : Entropy) (request : Request) (counter : ℕ)
    → IsEntropy e
    → IsRequestId (choose_request_id e request counter).1
unfolding choose_request_id
choose_request_id-IsRequestId e request counter good =
    elim (Bool-cases (str_eq (given_id request) [])) [
      | inl none_given ↦ rw none_given (generate_request_id-IsRequestId e counter good)
      | inr some_given ↦ rw some_given (
          (valid_request_id_sound (header_get request_id_header request.header) (given_id request)
            (refl, ground (arith, str_eq_iff (given_id request) []))).1)
    ]

-- A valid request ID is passed on, and the counter stays as it is.
pub choose_request_id_given :
    (e : Entropy) (request : Request) (counter : ℕ)
    → IsRequestId (trim_space (header_get request_id_header request.header))
    → choose_request_id e request counter
      ≡ (counter, trim_space (header_get request_id_header request.header))
unfolding choose_request_id
choose_request_id_given e request counter given =
    let (same, ne) =
      valid_request_id_complete (header_get request_id_header request.header)
        (trim_space (header_get request_id_header request.header)) (refl, given) in
    ground (arith, str_eq_iff (given_id request) [])
