-- ===== src/Startup/Tests.antt =====
-- Runs of `main` of src/server_main.cc, and the theorems at a configuration with an API.
use boost_web_server.Common.{
  ℕ, ◌≡◌, refl, Bool, Option, some, List, [], ◌∷◌, ltb, Bytes, codes, find_last_not_of, pos, negsuc,
  isspace, isdigit, stoi, Map, map_find, map_has, map_set, map_emplace, map_index, Result, ok,
  ◌=s=◌,
}
use boost_web_server.Startup.{
  MainResult, returned, serves, is_thrown, to_short, to_unsigned_short, make_root, make_roots,
  parse_file, open_acceptor, serve, run_threads, caught, with_config, run_main,
}
use boost_web_server.FileSystem.{FileSystem}
use boost_web_server.FileSystem.Memory.{FileList, files_below}
use boost_web_server.Config.Tree.{NginxConfig, nil, cons, statement, block, to_string}
use boost_web_server.Config.Parser.{
  add_statement, push_to_statement, on_last, top, set_top, pop, check_listen, step, parse,
}
use boost_web_server.Config.Tokens.{is_blank, is_end, scan, parse_token}
use boost_web_server.Config.Words.{IsWord, plain}
use boost_web_server.Config.Parser.Printable.{IsPrintable, empty, more, unbraced, braced}
use boost_web_server.Config.Port.{check_port, listen_argument, listen_loop, get_listen_port}
use boost_web_server.Config.Paths.{
  api, ConfigPath, default_path, token_at, child_statements, trim_slashes, root_loop, plain_path,
  auth_pair, auth_loop, console_path, console_step, console_loop, handler_name, add_paths,
  location_paths, get_paths, get_root,
}
use boost_web_server.Server.{Factory, factory_kind, add_route, add_routes, init_server}
use boost_web_server.Session.{match}
use boost_web_server.Sessions.{accepting, start_accept}
use boost_web_server.Startup.Main.{run_main-serves}

-- Names once what a run computes with.
startup_code : Unit {0}
unfolding isspace isdigit stoi ◌=s=◌ parse_token scan is_blank is_end parse step check_listen top
    set_top pop on_last add_statement push_to_statement to_string check_port listen_argument
    listen_loop get_listen_port token_at child_statements trim_slashes find_last_not_of root_loop
    plain_path auth_loop console_path console_step console_loop handler_name add_paths
    location_paths get_paths auth_pair get_root map_set map_index map_find map_has map_emplace
    factory_kind add_route add_routes init_server start_accept is_thrown to_short to_unsigned_short
    make_root make_roots parse_file open_acceptor serve run_threads caught with_config run_main
startup_code = tt

abbrev fs : FileSystem
fs = files_below (codes "data")

-- Every port above 1023 can be opened.
abbrev binds : ℕ → Bool
binds n = ltb 1023 n

abbrev start_with : Bytes → Option (Result (MainResult FileList))
start_with text =
    run_main fs binds 4 (codes "server" ∷ codes "conf" ∷ []) ((codes "conf", text) ∷ [])

abbrev api_config : NginxConfig
api_config = cons (statement (codes "listen" ∷ codes "8080" ∷ [])) (
    cons
      (block (codes "location" ∷ codes "/api" ∷ codes "APIHandler" ∷ [])
        (cons (statement (codes "root" ∷ codes "data" ∷ [])) nil))
      nil)

abbrev disk : FileList
disk = (codes "conf", to_string api_config 0) ∷ []

no_argument_run : run_main fs binds 4 (codes "server" ∷ []) [] ≡ some (ok (returned (negsuc 0)))
unfolding startup_code
no_argument_run = refl

no_file_run :
    run_main fs binds 4 (codes "server" ∷ codes "conf" ∷ []) [] ≡ some (ok (returned (negsuc 0)))
unfolding startup_code
no_file_run = refl

-- Without a port `get_listen_port` throws, and the program ends as if all was well.
no_port_run : start_with (codes "root x;") ≡ some (ok (returned (pos 0)))
unfolding startup_code
no_port_run = refl

closed_port_run : start_with (codes "listen 80;") ≡ some (ok (returned (pos 0)))
unfolding startup_code
closed_port_run = refl

abbrev api_paths : List ConfigPath
api_paths = record default_path { type = api; endpoint = codes "/api"; root = codes "data" } ∷ []

listen-IsWord : IsWord (codes "listen")
unfolding startup_code
listen-IsWord = plain refl (refl, (refl, (refl, (refl, (refl, tt)))))

number-IsWord : IsWord (codes "8080")
unfolding startup_code
number-IsWord = plain refl (refl, (refl, (refl, tt)))

location-IsWord : IsWord (codes "location")
unfolding startup_code
location-IsWord = plain refl (refl, (refl, (refl, (refl, (refl, (refl, (refl, tt)))))))

api_name-IsWord : IsWord (codes "/api")
unfolding startup_code
api_name-IsWord = plain refl (refl, (refl, (refl, tt)))

api_handler-IsWord : IsWord (codes "APIHandler")
unfolding startup_code
api_handler-IsWord =
    plain refl (refl, (refl, (refl, (refl, (refl, (refl, (refl, (refl, (refl, tt)))))))))

root_key-IsWord : IsWord (codes "root")
unfolding startup_code
root_key-IsWord = plain refl (refl, (refl, (refl, tt)))

data_root-IsWord : IsWord (codes "data")
unfolding startup_code
data_root-IsWord = plain refl (refl, (refl, (refl, tt)))

api_config-IsPrintable : IsPrintable api_config
api_config-IsPrintable = more (unbraced ((listen-IsWord, (number-IsWord, tt)), λ e. cc)) (
    more
      (braced ((location-IsWord, (api_name-IsWord, (api_handler-IsWord, tt))), λ e. cc)
        (more (unbraced ((root_key-IsWord, (data_root-IsWord, tt)), λ e. cc)) empty))
      empty)

file_there : FileSystem.read_file fs disk (codes "conf") ≡ some (to_string api_config 0)
unfolding startup_code
file_there = refl

port_run : get_listen_port api_config ≡ ok (pos 8080)
unfolding startup_code
port_run = refl

paths_run : get_paths api_config [] ≡ ok api_paths
unfolding startup_code
paths_run = refl

-- With no thread the program ends as if all was well.
no_thread_run :
    run_main fs binds 0 (codes "server" ∷ codes "conf" ∷ []) disk ≡ some (ok (returned (pos 0)))
unfolding startup_code
no_thread_run = refl

run_main-serves_example :
    (routes : Map Factory) × (run_main fs binds 4 (codes "server" ∷ codes "conf" ∷ []) disk
      ≡ some (
          ok (
            serves (record {
              port = 8080;
              routes = routes;
              disk = make_roots fs binds 4 api_paths api_paths disk;
              sessions = accepting ∷ [];
            }))))
    × ((url : Bytes)
        → (m : Bytes) × (f : Factory) × (match routes url ≡ some m)
          × (map_find m routes ≡ some f)
          × (f.location_ ≡ m))
run_main-serves_example =
    run_main-serves fs binds 4 (codes "server") (codes "conf") disk api_config 0 8080 api_paths
      api_config-IsPrintable file_there port_run refl paths_run refl
