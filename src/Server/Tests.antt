-- ===== src/Server/Tests.antt =====
-- Runs of src/server.cc and src/session.cc, and the theorems at a concrete table.
use boost_web_server.Common.{
  ◌≡◌, refl, some, List, [], ◌∷◌, Bytes, codes, find_last_not_of, rfind, Map, map_find, map_has,
  map_set, map_emplace, map_index, ok, ◌=s=◌,
}
use boost_web_server.Config.Tree.{NginxConfig, nil, cons, block}
use boost_web_server.Config.Paths.{
  health, ConfigPath, default_path, token_at, child_statements, trim_slashes, root_loop, plain_path,
  auth_pair, auth_loop, console_path, console_step, console_loop, handler_name, add_paths,
  location_paths, get_paths,
}
use boost_web_server.Server.{
  echo_handler_factory, health_handler_factory, handler404factory, Factory, factory_kind, add_route,
  add_routes, init_server,
}
use boost_web_server.Server.Routes.{init_server-match}
use boost_web_server.Session.{match_loop, match}
use boost_web_server.Session.Matching.{IsMatch, match_lem}

-- Names once what a run computes with.
routing_code : Unit {0}
unfolding ◌=s=◌ token_at child_statements trim_slashes find_last_not_of root_loop plain_path
    auth_loop console_path console_step console_loop handler_name add_paths location_paths get_paths
    auth_pair map_set map_index map_find map_has map_emplace rfind factory_kind add_route add_routes
    init_server match_loop match
routing_code = tt

abbrev two_locations : NginxConfig
two_locations =
    cons (block (codes "location" ∷ codes "/echo/" ∷ codes "EchoHandler" ∷ []) nil)
      (cons (block (codes "location" ∷ codes "/echo/deep" ∷ codes "HealthHandler" ∷ []) nil) nil)

abbrev two_paths : List ConfigPath
two_paths =
    record default_path { endpoint = codes "/echo" }
    ∷ record default_path { type = health; endpoint = codes "/echo/deep" }
    ∷ []

abbrev table : Map Factory
table =
    (
      codes "/echo",
      record { kind = echo_handler_factory; location_ = codes "/echo"; paths = two_paths },
    )
    ∷ (
      codes "/echo/deep",
      record { kind = health_handler_factory; location_ = codes "/echo/deep"; paths = two_paths },
    )
    ∷ (codes "/", record { kind = handler404factory; location_ = codes "/"; paths = two_paths })
    ∷ []

table_run : init_server two_locations [] ≡ ok table
unfolding routing_code
table_run = refl

deep_run : match table (codes "/echo/deep/a/b") ≡ some (codes "/echo/deep")
unfolding routing_code
deep_run = refl

-- A prefix that ends inside a name does not match.
inside_run : match table (codes "/echoes") ≡ some (codes "/")
unfolding routing_code
inside_run = refl

match_lem_example :
    (m : Bytes) × (match table (codes "/echo/x") ≡ some m) × IsMatch table (codes "/echo/x") m
match_lem_example = match_lem table (codes "/echo/x")

init_server-match_example :
    (m : Bytes) × (f : Factory) × (match table (codes "/echo/x") ≡ some m)
    × (map_find m table ≡ some f)
    × (f.location_ ≡ m)
init_server-match_example = init_server-match two_locations table (codes "/echo/x") table_run
