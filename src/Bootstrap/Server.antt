-- ===== src/Bootstrap/Server.antt =====
-- The rest of bootstrap/http.go: the endpoints that MountSystemEndpoints registers, and the end of
-- StartServer.
use api_toolkit.Prelude.{
  ℕ, Bool, true, false, String, List, [], ◌∷◌, ◌++◌, Option, none, some, Text, codes, map, list_eq,
}
use api_toolkit.Specs
use api_toolkit.Health.Handlers
use api_toolkit.Docs.Serving

-- What `ListenAndServe` gives; `none` is nil.
pub data ListenError : Type 0 where
  server_closed : ListenError
  listen_failed : ℕ → ListenError

-- The case of `select` that comes first: the context ends, or something is received from the channel.
pub data Event : Type 0 where
  context_done : Event
  received : Option ListenError → Event

-- What the goroutine leaves in the channel: an error, or nothing but its end, which is received as nil.
abbrev pub sent : Option ListenError → Option ℕ
sent none = none
sent (some server_closed) = none
sent (some (listen_failed e)) = some e

-- The error of `StartServer`, and whether it shuts the server down.
unfoldable pub start_server : Event → Option ℕ × Bool
start_server context_done = (none, true)
start_server (received e) = (sent e, false)

pub data SystemEndpoint : Type 0 where
  health : Handlers.Endpoint → SystemEndpoint
  docs : Serving.Endpoint → SystemEndpoint
  prometheus : SystemEndpoint

abbrev health_route : String × Handlers.Endpoint → Text × SystemEndpoint
health_route (path, e) = (codes path, health e)

abbrev docs_route : Text × Serving.Endpoint → Text × SystemEndpoint
docs_route (path, e) = (path, docs e)

unfoldable pub mount_system_endpoints : List (Text × SystemEndpoint)
mount_system_endpoints =
    map health_route (Handlers.register_routes [])
    ++ map docs_route Serving.register_routes
    ++ (codes Specs.metrics, prometheus) ∷ []
