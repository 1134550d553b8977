-- ===== src/Config/Port.antt =====
-- A port that is written in decimal.
use grounded_search.Prelude.{ℤ, some, ok, err, ◌≡◌, ◌++◌, ◌||◌, int_ltb, if◌then◌else◌, arith, []}
use grounded_search.Go.Str.{Str, str_eq_iff}
use grounded_search.Go.Strings.Visible.{trim_space_of_visible}
use grounded_search.Go.Strconv.{itoa}
use grounded_search.Go.Strconv.RoundTrip.{IsInt64, atoi-itoa}
use grounded_search.Go.Strconv.Digits.{itoa-IsVisible, itoa-ne-nil}
use grounded_search.Go.Errors.{message}
use grounded_search.Config.Values.{LookupEnv, int_value, between_text}

-- A variable that holds the decimal text of any int is read as that int if it lies in the range, and
-- is refused with the text of the range if it does not.
pub int_value-itoa :
    (lookup : LookupEnv) (key : Str) (fallback minimum maximum z : ℤ)
    → IsInt64 z
    → lookup key ≡ some (itoa z)
    → int_value lookup key fallback minimum maximum ≡ (
        if int_ltb z minimum || int_ltb maximum z
        then err (message (key ++ between_text minimum maximum))
        else ok z)
unfolding int_value
int_value-itoa lookup key fallback minimum maximum z fits given =
    let trimmed = trim_space_of_visible (itoa z) (itoa-IsVisible z) in
    ground (arith, trimmed, atoi-itoa z fits, str_eq_iff (itoa z) [], itoa-ne-nil z fits)
