-- ===== src/Go/Json/Tests.antt =====
-- Texts that encoding/json writes.
use grounded_search.Prelude.{◌≡◌, refl, pos, [], ◌∷◌, ◌++◌}
use grounded_search.Go.Str.{codes}
use grounded_search.Go.Strconv.{itoa}
use grounded_search.Go.Json.{Json, int, str, obj, end, field, encode, quote}

abbrev sample : Json
sample = obj (field (codes "a<b") (str (codes "x\"\\")) (field (codes "n") (int (pos 12)) end))

sample_text : encode sample ≡ codes "{\"a\\u003cb\":\"x\\\"\\\\\",\"n\":12}"
unfolding encode itoa
sample_text = refl

invalid_byte : quote (0xff ∷ 0xc3 ∷ 0xa9 ∷ []) ≡ codes "\"\\ufffd" ++ (0xc3 ∷ 0xa9 ∷ b'"' ∷ [])
unfolding quote
invalid_byte = refl
