-- ===== src/Go/Http/HeaderLaws.antt =====
-- Reading a header behind a write.
use grounded_search.Prelude.{◌≡◌, refl, some, [], ◌∷◌, arith, if◌then◌else◌, false, none}
use grounded_search.Go.Str.{Str, str_eq, str_eq_iff}
use grounded_search.Go.Http.{Header, canonical_key, find_key, put_key, header_set, header_find}

find_key-put_key :
    (j k v : Str) (h : Header)
    → find_key j (put_key k v h) ≡ (if str_eq k j then some v else find_key j h)
unfolding find_key put_key
find_key-put_key j k v [] = refl
find_key-put_key j k v ((i, w) ∷ h) =
    ground (arith, str_eq_iff k j, str_eq_iff i k, str_eq_iff i j, find_key-put_key j k v h)

pub header_find-header_set :
    (j k v : Str) (h : Header)
    → header_find j (header_set k v h)
      ≡ (if str_eq (canonical_key k) (canonical_key j) then some v else header_find j h)
unfolding header_find header_set
header_find-header_set j k v h = find_key-put_key (canonical_key j) (canonical_key k) v h

pub header_find-header_set_self :
    (k v : Str) (h : Header) → header_find k (header_set k v h) ≡ some v
header_find-header_set_self k v h =
    ground (arith, header_find-header_set k k v h, str_eq_iff (canonical_key k) (canonical_key k))

pub header_find-header_set_ne :
    (j k v : Str) (h : Header)
    → str_eq (canonical_key k) (canonical_key j) ≡ false
    → header_find j (header_set k v h) ≡ header_find j h
header_find-header_set_ne j k v h ne = ground (arith, header_find-header_set j k v h)

pub header_find-nil : (k : Str) → header_find k [] ≡ none
unfolding header_find
header_find-nil k = refl
