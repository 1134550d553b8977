-- ===== src/MlClient/Bounded.antt =====
-- Reading one byte more than the limit is enough to tell whether a body is too large.
use grounded_search.Prelude.{
  ℕ, ◌+◌, ◌≤◌, ◌≡◌, none, some, ltb, length, length-take, if◌then◌else◌, ok, err, arith, Bool-cases,
  inl, inr, [],
}
use grounded_search.Go.Str.{Str, codes}
use grounded_search.Go.Errors.{wrap}
use grounded_search.Go.Http.{Reader}
use grounded_search.MlClient.Defs.{max_response_body_size}
use grounded_search.MlClient.Fetch.{
  limit_reader, read_all, too_large, read_within, read_bounded_body,
}

read_within_lem :
    (limit : ℕ) (reader : Reader)
    → read_within limit reader ≡ (
        if ltb limit (length reader.bytes) then err (too_large limit) else (elim reader.failure [
          | none ↦ ok reader.bytes
          | some e ↦ err (wrap (codes "read ML service response: ") e [])
        ]))
unfolding read_within limit_reader read_all
read_within_lem limit reader = elim (Bool-cases (ltb limit (length reader.bytes))) [
  | inl large ↦ ground (arith, length-take (limit + 1) reader.bytes)
  | inr small ↦ ground arith
]

-- The body, whatever the reader does behind the limit: a body over the limit is refused as too large,
-- also where the reader fails later; one within it is returned whole, or the reader's error is.
pub read_bounded_body_lem :
    (reader : Reader)
    → read_bounded_body reader ≡ (
        if ltb max_response_body_size (length reader.bytes)
        then err (too_large max_response_body_size)
        else (elim reader.failure [
          | none ↦ ok reader.bytes
          | some e ↦ err (wrap (codes "read ML service response: ") e [])
        ]))
read_bounded_body_lem reader =
    unfold read_bounded_body in read_within_lem max_response_body_size reader

read_within-eq-ok :
    (limit : ℕ) (reader : Reader) {body : Str}
    → read_within limit reader ≡ ok body
    → (body ≡ reader.bytes) × (reader.failure ≡ none) × (length body ≤ limit)
read_within-eq-ok limit reader h = ground (arith, read_within_lem limit reader)

-- A body that is returned is the whole of the response, and at most a mebibyte long.
pub read_bounded_body-eq-ok :
    (reader : Reader) {body : Str}
    → read_bounded_body reader ≡ ok body
    → (body ≡ reader.bytes) × (reader.failure ≡ none) × (length body ≤ max_response_body_size)
read_bounded_body-eq-ok reader h =
    read_within-eq-ok max_response_body_size reader (unfold read_bounded_body in h)
