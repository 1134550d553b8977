-- ===== src/Config/Address.antt =====
-- The method `Address`, with Go's net.JoinHostPort.
pub mod Injective
use grounded_search.Prelude.{◌++◌, ◌∷◌, [], if◌then◌else◌}
use grounded_search.Go.Str.{Str}
use grounded_search.Go.Strings.{contains_byte}
use grounded_search.Go.Strconv.{itoa}
use grounded_search.Config.Load.{Config}

unfoldable pub join_host_port : Str → Str → Str
join_host_port host port =
    if contains_byte host b':' then b'[' ∷ (host ++ (b']' ∷ b':' ∷ port)) else host ++ (b':' ∷ port)

unfoldable pub address : Config → Str
unfolding join_host_port
address config = join_host_port config.host (itoa config.port)
