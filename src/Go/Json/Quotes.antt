-- ===== src/Go/Json/Quotes.antt =====
-- A string that the encoder quotes is read back, with U+FFFD for what is no character.
use grounded_search.Prelude.{
  ℕ, zero, suc, ◌<◌, ◌≤◌, ◌≡◌, refl, arith, [], ◌∷◌, ◌++◌, append_assoc, length, length-append, ok,
  ap, ◌∙◌,
}
use grounded_search.Go.Str.{Str}
use grounded_search.Go.Json.{escape_front, escape_from, quote}
use grounded_search.Go.Json.Strings.{char_step, reads, string_body}
use grounded_search.Go.Json.Chars.{coerce_front}
use grounded_search.Go.Json.Runes.{FrontReads, front-FrontReads}
use grounded_search.Go.Json.Parser.{parse_key}

unfoldable pub coerce_from : ℕ → Str → Str
unfolding coerce_front
coerce_from skip [] = []
coerce_from (suc skip) (c ∷ s) = coerce_from skip s
coerce_from zero (c ∷ s) = let (bytes, more) = coerce_front (c ∷ s) in bytes ++ coerce_from more s

-- The bytes of a string as a sequence of characters, with U+FFFD for every byte that belongs to none.
unfoldable pub to_valid : Str → Str
unfolding coerce_from
to_valid s = coerce_from 0 s

written_of_reads :
    (written value : Str)
    → ((t : Str) → char_step (written ++ t) ≡ reads value t)
    → 0 < length written
unfolding char_step
written_of_reads [] value h = absurd (cc (h []))
written_of_reads (c ∷ written) value h = omega arith

-- One step reads the text of a character.
string_step :
    (f : ℕ) (written value t bytes rest : Str)
    → char_step (written ++ t) ≡ reads value t
    → string_body f t ≡ ok (bytes, rest)
    → string_body (suc f) (written ++ t) ≡ ok (value ++ bytes, rest)
unfolding string_body
string_step f written value t bytes rest h k = rw (string_body, h, k) refl

-- With the length of the text as fuel, what escape_from writes is read up to the quote.
abbrev ReadsEscaped : ℕ → Str → Type 0
ReadsEscaped skip s =
    (rest : Str) (f : ℕ)
    → length (escape_from skip s) < f
    → string_body f (escape_from skip s ++ (b'"' ∷ rest)) ≡ ok (coerce_from skip s, rest)

front-ReadsEscaped :
    (c : ℕ) (s : Str)
    → FrontReads (c ∷ s)
    → ReadsEscaped (escape_front (c ∷ s)).1 s
    → ReadsEscaped 0 (c ∷ s)
unfolding escape_from coerce_from
front-ReadsEscaped c s front later rest zero h = absurd (omega arith)
front-ReadsEscaped c s (step, same) later rest (suc f) h =
    let (written, more) = escape_front (c ∷ s) in
    let (value, skipped) = coerce_front (c ∷ s) in
    let t = escape_from more s ++ (b'"' ∷ rest) in
    let some_text = written_of_reads written value step in
    let shorter : length (escape_from more s) < f =
      omega (arith, h, length-append written (escape_from more s)) in
    ap (string_body (suc f)) (append_assoc written (escape_from more s) (b'"' ∷ rest))
    ∙ string_step f written value t (coerce_from skipped s) rest (step t)
        (later rest f shorter ∙ ap (λ k. ok (coerce_from k s, rest)) same)

skipped-ReadsEscaped :
    (skip c : ℕ) (s : Str) → ReadsEscaped skip s → ReadsEscaped (suc skip) (c ∷ s)
unfolding escape_from coerce_from
skipped-ReadsEscaped skip c s later = later

string_body-escape_from : (skip : ℕ) (s : Str) → ReadsEscaped skip s
string_body-escape_from skip [] rest zero h = absurd (omega arith)
string_body-escape_from skip [] rest (suc f) h =
    unfold string_body char_step escape_from coerce_from in refl
string_body-escape_from (suc skip) (c ∷ s) rest f h =
    skipped-ReadsEscaped skip c s (λ more. string_body-escape_from skip s more) rest f h
string_body-escape_from zero (c ∷ s) rest f h =
    front-ReadsEscaped c s (front-FrontReads c s)
      (λ more. string_body-escape_from (escape_front (c ∷ s)).1 s more) rest f h

-- A quoted string behind its opening quote, with any fuel from the length of the input on.
pub string_body-quote :
    (s rest : Str) (f : ℕ)
    → length (escape_from 0 s ++ (b'"' ∷ rest)) ≤ f
    → string_body f (escape_from 0 s ++ (b'"' ∷ rest)) ≡ ok (to_valid s, rest)
unfolding to_valid
string_body-quote s rest f h =
    string_body-escape_from 0 s rest f
      (omega (arith, h, length-append (escape_from 0 s) (b'"' ∷ rest)))

pub parse_key-quote : (s rest : Str) → parse_key (quote s ++ (b':' ∷ rest)) ≡ ok (to_valid s, rest)
unfolding parse_key quote
parse_key-quote s rest =
    let behind = append_assoc (escape_from 0 s) (b'"' ∷ []) (b':' ∷ rest) in
    let read =
      string_body-quote s (b':' ∷ rest) (length (escape_from 0 s ++ (b'"' ∷ b':' ∷ rest)))
        (omega arith) in
    rw (behind, read) refl
