-- ===== src/Startup/Main.antt =====
-- When `main` of src/server_main.cc serves.
use boost_web_server.Common.{
  ℕ, ◌≤◌, ◌≡◌, Bool, true, false, some, List, [], ◌∷◌, arith, ◌==◌, Bytes, pos, Map, map_find, ok,
}
use boost_web_server.Startup.{
  serves, to_short, to_unsigned_short, make_roots, parse_file, open_acceptor, serve, run_threads,
  caught, with_config, run_main,
}
use boost_web_server.FileSystem.{FileSystem}
use boost_web_server.Config.Tree.{NginxConfig, to_string}
use boost_web_server.Config.Parser.Printable.{IsPrintable}
use boost_web_server.Config.Parser.RoundTrip.{parse-to_string}
use boost_web_server.Config.Port.{get_listen_port}
use boost_web_server.Config.Port.Laws.{get_listen_port_bounds}
use boost_web_server.Config.Paths.{ConfigPath, get_paths}
use boost_web_server.Server.{Factory}
use boost_web_server.Server.Routes.{init_server-match, init_server-ok}
use boost_web_server.Session.{match}
use boost_web_server.Sessions.{accepting, start_accept}

-- A port passes through `short` as it is.
short_port : (n : ℕ) → n ≤ 65535 → to_unsigned_short (to_short (pos n)) ≡ n
unfolding to_short to_unsigned_short
short_port n h = ground arith

module _ (fs : FileSystem) (binds : ℕ → Bool) (num_threads : ℕ) where
  open fs use {Disk, read_file}

  -- The one argument names a file that `ToString` printed from a configuration of words. With a port
  -- that can be opened, at least one thread, and where `get_paths` meets nothing undefined, `main`
  -- serves at that port with one session that waits, and its table has a factory for the route that
  -- `match` gives for every request path.
  pub run_main-serves :
      (program file_name : Bytes) (disk : Disk) (config : NginxConfig) (depth n : ℕ)
      (paths : List ConfigPath)
      → IsPrintable config
      → read_file disk file_name ≡ some (to_string config depth)
      → get_listen_port config ≡ ok (pos n)
      → binds n ≡ true
      → get_paths config [] ≡ ok paths
      → (num_threads == 0) ≡ false
      → (routes : Map Factory) × (run_main fs binds num_threads (program ∷ file_name ∷ []) disk
          ≡ some (
              ok (
                serves (record {
                  port = n;
                  routes = routes;
                  disk = make_roots fs binds num_threads paths paths disk;
                  sessions = accepting ∷ [];
                }))))
        × ((url : Bytes)
            → (m : Bytes) × (f : Factory) × (match routes url ≡ some m)
              × (map_find m routes ≡ some f)
              × (f.location_ ≡ m))
  unfolding run_main parse_file with_config serve run_threads open_acceptor caught start_accept
  run_main-serves program file_name disk config depth n paths printable file port_is open_port got
        threads =
      let (routes, built) = init_server-ok config paths got in
      let (m, same, _, bound) = get_listen_port_bounds config (pos n) port_is in
      let same_number : m ≡ n = cc in
      let small : n ≤ 65535 = rw same_number at bound in
      (
        routes,
        rw (
          file,
          run_main,
          parse_file,
          parse-to_string config depth printable,
          with_config,
          serve,
          port_is,
          short_port n small,
          open_acceptor,
          open_port,
          got,
          built,
          run_threads,
          threads,
          caught,
        ),
        λ url. init_server-match config routes url built,
      )
