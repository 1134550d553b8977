-- ===== src/Server.antt =====
-- apps/search-api/internal/server/server.go: the HTTP server with the timeouts of the configuration.
use grounded_search.Prelude.{ℤ, Bool, Option}
use grounded_search.Go.Str.{Str}
use grounded_search.Go.Errors.{Error}
use grounded_search.Config.Load.{Config}
use grounded_search.Config.Address.{address}

-- The fields of http.Server that are set; the handler is of any type.
pub record HttpServer (H : Type 0) : Type 0 where
  pub addr : Str
  pub handler : H
  pub read_header_timeout : ℤ
  pub read_timeout : ℤ
  pub write_timeout : ℤ
  pub idle_timeout : ℤ

pub record Server (H : Type 0) : Type 0 where
  pub http_server : HttpServer H

unfoldable pub new : {H : Type 0} → Config → H → Server H
new cfg handler = record {
  http_server = record {
    addr = address cfg;
    handler = handler;
    read_header_timeout = cfg.read_header_timeout;
    read_timeout = cfg.read_timeout;
    write_timeout = cfg.write_timeout;
    idle_timeout = cfg.idle_timeout;
  };
}

-- The method Address.
unfoldable pub listen_address : {H : Type 0} → Server H → Str
listen_address server = server.http_server.addr

-- net/http's server: what it does when it is asked to serve and to stop. It keeps whether Shutdown
-- was called (`closing`); a Moment is everything else that decides, such as the network.
pub record HttpPackage (H Moment : Type 0) : Type 0 where
  pub listen_and_serve : HttpServer H → (closing : Bool) → Moment → Option Error
  pub shutdown : HttpServer H → (expired : Bool) → Moment → Option Error

module _ {H Moment : Type 0} (http : HttpPackage H Moment) (server : Server H) where
  unfoldable pub listen_and_serve : Bool → Moment → Option Error
  listen_and_serve closing moment = http.listen_and_serve server.http_server closing moment

  -- The context is seen by whether it has expired.
  unfoldable pub shutdown : Bool → Moment → Option Error
  shutdown expired moment = http.shutdown server.http_server expired moment
