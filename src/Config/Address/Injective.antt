-- ===== src/Config/Address/Injective.antt =====
-- The listen address determines the host and the port.
use grounded_search.Prelude.{◌++◌, ◌∷◌, [], if◌then◌else◌}
use grounded_search.Go.Str.{Str}
use grounded_search.Go.Strings.{contains_byte}
use grounded_search.Config.Load.{Config}

-- The address in front of the last colon.
bracketed : Str → Str
bracketed host = if contains_byte host b':' then b'[' ∷ (host ++ (b']' ∷ [])) else host
