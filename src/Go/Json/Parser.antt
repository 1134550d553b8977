-- ===== src/Go/Json/Parser.antt =====
-- The grammar of encoding/json's scanner: one value from the front of a text, and what follows it.
use grounded_search.Prelude.{
  ℕ, zero, suc, ◌+◌, ◌*◌, Bool, true, false, Option, none, some, ◌||◌, [], ◌∷◌, ◌++◌, ◌==◌, leb,
  length, if◌then◌else◌, ok, err, ◌>>=◌,
}
use grounded_search.Go.Str.{Str, codes}
use grounded_search.Go.Strconv.{is_digit}
use grounded_search.Go.Json.Value.{
  Value, Values, Members, null, bool, number, text, array, object, no_values, item, no_members,
  member, Failure, truncated, syntax, too_deep, Parsed,
}
use grounded_search.Go.Json.Strings.{string_body}

abbrev is_space : ℕ → Bool
is_space c = c == b' ' || c == 9 || c == 13 || c == 10

unfoldable pub skip_space : Str → Str
skip_space [] = []
skip_space (c ∷ s) = if is_space c then skip_space s else c ∷ s

-- The rest of `true`, `false` or `null`.
unfoldable pub expect : Str → Str → Parsed Str
expect [] s = ok s
expect (x ∷ word) [] = err truncated
expect (x ∷ word) (c ∷ s) = if c == x then expect word s else err syntax

-- The digits at the front, and the rest.
unfoldable pub span_digits : Str → Str × Str
span_digits [] = ([], [])
span_digits (c ∷ s) =
    let (d, rest) = span_digits s in if is_digit c then (c ∷ d, rest) else ([], c ∷ s)

-- One digit at least.
unfoldable pub some_digits : Str → Parsed (Str × Str)
unfolding span_digits
some_digits [] = err truncated
some_digits (c ∷ s) = if is_digit c then ok (span_digits (c ∷ s)) else err syntax

-- The part before a point: no zero stands in front of another digit.
unfoldable pub integer_part : Str → Parsed (Str × Str)
unfolding span_digits
integer_part [] = err truncated
integer_part (c ∷ s) =
    if c == b'0'
    then ok (c ∷ [], s)
    else if is_digit c
    then ok (span_digits (c ∷ s))
    else err syntax

unfoldable pub fraction : Str → Parsed (Str × Str)
unfolding some_digits
fraction [] = ok ([], [])
fraction (c ∷ s) = if c == b'.' then (some_digits s >>= λ p. ok (c ∷ p.0, p.1)) else ok ([], c ∷ s)

abbrev pub exponent_sign : Str → Str × Str
exponent_sign [] = ([], [])
exponent_sign (c ∷ s) = if c == b'+' || c == b'-' then (c ∷ [], s) else ([], c ∷ s)

unfoldable pub exponent : Str → Parsed (Str × Str)
unfolding some_digits
exponent [] = ok ([], [])
exponent (c ∷ s) =
    let (sign, t) = exponent_sign s in
    if c == b'e' || c == b'E'
    then (some_digits t >>= λ p. ok (c ∷ (sign ++ p.0), p.1))
    else ok ([], c ∷ s)

-- A number behind its sign.
unfoldable pub magnitude : Str → Parsed (Str × Str)
unfolding integer_part fraction exponent
magnitude s = integer_part s >>= λ i.
    (fraction i.1 >>= λ f. (exponent f.1 >>= λ e. ok (i.0 ++ (f.0 ++ e.0), e.1)))

-- What begins with a character.
pub data Lead : Type 0 where
  opens_object opens_array quotes minus digit other : Lead
  keyword : Str → Value → Lead

unfoldable pub lead : ℕ → Lead
lead c =
    if c == b'{'
    then opens_object
    else if c == b'['
    then opens_array
    else if c == b'"'
    then quotes
    else if c == b'-'
    then minus
    else if is_digit c
    then digit
    else if c == b't'
    then keyword (codes "rue") (bool true)
    else if c == b'f'
    then keyword (codes "alse") (bool false)
    else if c == b'n'
    then keyword (codes "ull") null
    else other

-- A key with its colon.
unfoldable pub parse_key : Str → Parsed (Str × Str)
unfolding string_body skip_space expect
parse_key [] = err truncated
parse_key (c ∷ s) =
    if c == b'"'
    then (string_body (length s) s >>= λ p.
        (expect (codes ":") (skip_space p.1) >>= λ rest. ok (p.0, rest)))
    else err syntax

-- Behind a value: whether the container ends with `close`, or goes on behind a comma.
pub data After : Type 0 where
  ends : Str → After
  goes_on : Str → After
  broken : Failure → After

unfoldable pub after_value : ℕ → Str → After
after_value close [] = broken truncated
after_value close (c ∷ s) =
    if c == close then ends s else if c == b',' then goes_on s else broken syntax

abbrev pub max_depth : ℕ
max_depth = 10000

-- Whether a container is empty; white space is skipped before.
abbrev pub first_is : ℕ → Str → Bool
first_is close [] = false
first_is close (c ∷ s) = c == close

abbrev pub tail : Str → Str
tail [] = []
tail (c ∷ s) = s

-- The beginning of a value: all of it, or the inside of a container that is not empty.
pub data Beginning : Type 0 where
  whole : Parsed (Value × Str) → Beginning
  inside_object inside_array : Str → Beginning

unfoldable pub open_container : ℕ → Bool → Value → Str → Beginning → Beginning
unfolding skip_space
open_container depth empty v s more =
    if leb max_depth depth
    then whole (err too_deep)
    else if empty
    then whole (ok (v, tail (skip_space s)))
    else more

unfoldable pub begin_with : ℕ → Lead → ℕ → Str → Beginning
unfolding skip_space expect magnitude string_body open_container
begin_with depth opens_object c s =
    open_container depth (first_is b'}' (skip_space s)) (object no_members) s (inside_object s)
begin_with depth opens_array c s =
    open_container depth (first_is b']' (skip_space s)) (array no_values) s (inside_array s)
begin_with depth quotes c s = whole (string_body (length s) s >>= λ p. ok (text p.0, p.1))
begin_with depth minus c s = whole (magnitude s >>= λ p. ok (number (c ∷ p.0), p.1))
begin_with depth digit c s = whole (magnitude (c ∷ s) >>= λ p. ok (number p.0, p.1))
begin_with depth (keyword word v) c s = whole (expect word s >>= λ rest. ok (v, rest))
begin_with depth other c s = whole (err syntax)

-- White space is skipped before.
unfoldable pub begin_value : ℕ → Str → Beginning
unfolding lead begin_with
begin_value depth [] = whole (err truncated)
begin_value depth (c ∷ s) = begin_with depth (lead c) c s

unfoldable mutual
  unfolding begin_value skip_space parse_key after_value

  -- `depth` containers are open. `fuel` bounds the values and members that are still begun.
  pub parse_value : ℕ → ℕ → Str → Parsed (Value × Str)
  parse_value zero depth s = err truncated
  parse_value (suc fuel) depth s = elim (begin_value depth (skip_space s)) [
    | whole result ↦ result
    | inside_object t ↦ parse_members fuel (depth + 1) t >>= λ p. ok (object p.0, p.1)
    | inside_array t ↦ parse_values fuel (depth + 1) t >>= λ p. ok (array p.0, p.1)
  ]

  -- One member at least, and the end of the object.
  pub parse_members : ℕ → ℕ → Str → Parsed (Members × Str)
  parse_members zero depth s = err truncated
  parse_members (suc fuel) depth s = parse_key (skip_space s) >>= λ k.
      (parse_value fuel depth k.1 >>= λ v. (elim (after_value b'}' (skip_space v.1)) [
        | broken e ↦ err e
        | ends rest ↦ ok (member k.0 v.0 no_members, rest)
        | goes_on rest ↦ parse_members fuel depth rest >>= λ p. ok (member k.0 v.0 p.0, p.1)
      ]))

  -- One value at least, and the end of the array.
  pub parse_values : ℕ → ℕ → Str → Parsed (Values × Str)
  parse_values zero depth s = err truncated
  parse_values (suc fuel) depth s = parse_value fuel depth s >>= λ v.
      (elim (after_value b']' (skip_space v.1)) [
        | broken e ↦ err e
        | ends rest ↦ ok (item v.0 no_values, rest)
        | goes_on rest ↦ parse_values fuel depth rest >>= λ p. ok (item v.0 p.0, p.1)
      ])

abbrev pub parsed_first : Str → Str → Option (Parsed (Value × Str))
parsed_first s [] = none
parsed_first s (c ∷ t) = some (parse_value (2 * length s + 2) 0 s)

-- What a call of Decode reads: nothing, which it reports as io.EOF, where only white space is left.
unfoldable pub parse : Str → Option (Parsed (Value × Str))
unfolding parse_value skip_space
parse s = parsed_first s (skip_space s)
