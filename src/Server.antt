-- ===== src/Server.antt =====
-- internal/server/server.go: the routes, and the chain of middlewares around the router.
pub mod Lifecycle
pub mod Requests
pub mod Routes
pub mod Served
pub mod Drain
pub mod Ids
use playback_service.Prelude.{ℕ, String, Option, none, some, List, [], ◌∷◌}
use playback_service.Handler.{Response}
use playback_service.Middleware.{
  RequestHandler, Middleware, State, set_user_value, route_pattern_key, chain, recoverer,
  request_id, tracing, metrics, logger,
}

module _ {Bytes W : Type 0} where
  unfoldable pub with_route : String → RequestHandler Bytes W → RequestHandler Bytes W
  with_route pattern next s =
      next (record s { ctx = set_user_value route_pattern_key pattern s.ctx })

  -- The handler of the server: `router` is `r.Handler`, `error` is `ctx.Error`.
  unfoldable pub server_handler :
      (String → ℕ → Response → Response) → RequestHandler Bytes W → RequestHandler Bytes W
  unfolding chain
  server_handler error router =
      chain (recoverer error ∷ request_id ∷ tracing ∷ metrics ∷ logger ∷ []) router
