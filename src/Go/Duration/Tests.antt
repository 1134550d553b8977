-- ===== src/Go/Duration/Tests.antt =====
-- Durations written as the documentation of the service writes them.
use grounded_search.Prelude.{◌≡◌, refl, pos, negsuc, ok, ◌*◌, ◌/◌}
use grounded_search.Go.Str.{codes, str_eq}
use grounded_search.Go.Duration.{FloatScale, parse_duration}

-- Exact arithmetic in place of floats.
abbrev exact_scale : FloatScale
exact_scale f unit scale = f * unit / scale

half_second : parse_duration exact_scale (codes "500ms") ≡ ok (pos 500000000)
unfolding parse_duration str_eq
half_second = refl

mixed : parse_duration exact_scale (codes "-1h2m1.5s") ≡ ok (negsuc 3721499999999)
unfolding parse_duration str_eq
mixed = refl
