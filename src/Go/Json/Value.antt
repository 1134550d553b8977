-- ===== src/Go/Json/Value.antt =====
-- The values that encoding/json reads, and why it fails.
use grounded_search.Prelude.{Bool, Result}
use grounded_search.Go.Str.{Str}

mutual
  pub data Value : Type 0 where
    null : Value
    bool : Bool → Value
    -- the text of a number
    number : Str → Value
    -- the bytes of a string, which are valid UTF-8
    text : Str → Value
    array : Values → Value
    object : Members → Value

  pub data Values : Type 0 where
    no_values : Values
    item : Value → Values → Values

  pub data Members : Type 0 where
    no_members : Members
    member : Str → Value → Members → Members

-- `truncated` is io.ErrUnexpectedEOF; then a syntax error, more than 10000 open containers, a value of
-- a type that the target cannot hold, a number that is no float64, and an unknown field.
pub data Failure : Type 0 where
  truncated syntax too_deep wrong_type not_a_float : Failure
  unknown_field : Str → Failure

abbrev pub Parsed : Type 0 → Type 0
Parsed A = Result Failure A
