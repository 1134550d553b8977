-- ===== src/MlClient/Decode/Tests.antt =====
-- Bodies that the decoder reads, and what it makes of them.
use grounded_search.Go.Str.{str_eq}
use grounded_search.Prelude.{◌≡◌, refl, some, [], ◌∷◌, ◌++◌, ok, err, true}
use grounded_search.Go.Str.{codes}
use grounded_search.Go.Errors.{sentinel, message, quoted, eof}
use grounded_search.MlClient.Decode.{decode_info, decode_any, empty_info}

-- White space, names in another case, an escape, a repeated name, and text behind the value.
lenient :
    decode_info (
      codes " {\"Service\" : \"a\\u00e9\\ud83d\\ude00\\/\", \"service\":\"ml\", \"MODE\":null,"
      ++ codes "\"embedding_model\":\"m\"}  x")
    ≡ ok (
      record empty_info { service = codes "ml"; embedding_model = some (codes "m") },
      codes "  x",
    )
unfolding decode_info str_eq
lenient = refl

escapes :
    decode_info (codes "{\"version\":\"\\u00e9\\ud83d\\ude00\\ud83dx\\n\"}")
    ≡ ok (
      record empty_info {
        version = 0xc3 ∷ 0xa9 ∷ 0xf0 ∷ 0x9f ∷ 0x98 ∷ 0x80 ∷ 0xef ∷ 0xbf ∷ 0xbd ∷ b'x' ∷ 10 ∷ [];
      },
      [],
    )
unfolding decode_info str_eq
escapes = refl

unknown :
    decode_info (codes "{\"extra\":[1,{\"a\":-0.5e+3}]}")
    ≡ err (quoted (codes "json: unknown field ") (codes "extra") [])
unfolding decode_info str_eq
unknown = refl

number_given :
    decode_info (codes "{\"version\":1}") ≡ err (message (codes "json: cannot unmarshal"))
unfolding decode_info str_eq
number_given = refl

comma_behind :
    decode_info (codes "{\"version\":\"1\",}") ≡ err (message (codes "invalid character"))
unfolding decode_info
comma_behind = refl

cut_off : decode_info (codes "{\"version\":\"1") ≡ err (message (codes "unexpected EOF"))
unfolding decode_info
cut_off = refl

only_space : decode_any (λ s. true) (codes " \n") ≡ err (sentinel eof)
unfolding decode_any
only_space = refl

second_value : decode_any (λ s. true) (codes " [01]") ≡ err (message (codes "invalid character"))
unfolding decode_any
second_value = refl
