-- ===== src/Server.antt =====
-- src/server.cc: the routing table that `server::init_server` builds.
pub mod Routes
mod Tests
use boost_web_server.Common.{
  Option, none, some, List, [], ◌∷◌, Bytes, Map, map_emplace, Result, ok, ◌>>=◌,
}
use boost_web_server.Config.Tree.{NginxConfig}
use boost_web_server.Config.Paths.{
  EndpointType, static_, echo, api, health, sleep_, profile, auth, console, invalid, ConfigPath,
  get_paths,
}

-- The factory classes of src/handler_factories.
pub data FactoryKind : Type 0 where
  static_handler_factory echo_handler_factory api_handler_factory : FactoryKind
  health_handler_factory sleep_handler_factory authentication_handler_factory : FactoryKind
  api_console_handler_factory handler404factory : FactoryKind

-- A factory: its class, `location_`, and the paths of its copy of the configuration.
pub record Factory : Type 0 where
  pub kind : FactoryKind
  pub location_ : Bytes
  pub paths : List ConfigPath

-- The `switch` of `init_server`; the types without a case add nothing.
unfoldable pub factory_kind : EndpointType → Option FactoryKind
factory_kind static_ = some static_handler_factory
factory_kind echo = some echo_handler_factory
factory_kind api = some api_handler_factory
factory_kind health = some health_handler_factory
factory_kind sleep_ = some sleep_handler_factory
factory_kind auth = some authentication_handler_factory
factory_kind console = some api_console_handler_factory
factory_kind profile = none
factory_kind invalid = none

unfoldable pub add_route : List ConfigPath → ConfigPath → Map Factory → Map Factory
unfolding factory_kind
add_route config p routes = elim (factory_kind p.type) [
  | none ↦ routes
  | some k ↦
      map_emplace p.endpoint (record { kind = k; location_ = p.endpoint; paths = config }) routes
]

unfoldable pub add_routes : List ConfigPath → List ConfigPath → Map Factory → Map Factory
unfolding add_route
add_routes config [] routes = routes
add_routes config (p ∷ ps) routes = add_routes config ps (add_route config p routes)

-- `init_server` on the member `routes_`. `get_paths` runs on the server's copy of the
-- configuration, whose `paths` are empty before.
unfoldable pub init_server : NginxConfig → Map Factory → Result (Map Factory)
unfolding add_routes
init_server config routes = do
  paths ← get_paths config []
  let fallback : Factory = record { kind = handler404factory; location_ = b'/' ∷ []; paths = paths }
  ok (map_emplace (b'/' ∷ []) fallback (add_routes paths paths routes))
