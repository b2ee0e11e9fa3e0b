-- ===== src/Startup.antt =====
-- `main` of src/server_main.cc up to the point where the server waits for connections, with the
-- constructor of src/server.cc and the one of src/handler_factories/api_handler_factory.cc. The
-- logging, the signal and the timer of the log files are left out; of the threads there is only
-- whether there are any, since they run the sessions.
pub mod Main
mod Tests
use boost_web_server.Common.{
  ℕ, ◌-◌, ◌%◌, Bool, true, false, Option, none, some, List, [], ◌∷◌, ltb, ◌==◌, if◌then◌else◌,
  Bytes, ℤ, pos, negsuc, Map, Fault, invalid_argument, out_of_range, filesystem_error,
  network_error, Result, ok, err, ◌>>=◌,
}
use boost_web_server.FileSystem.{FileSystem}
use boost_web_server.Config.Tree.{NginxConfig, nil}
use boost_web_server.Config.Parser.{ParseOutcome, parse}
use boost_web_server.Config.Port.{get_listen_port}
use boost_web_server.Config.Paths.{ConfigPath, get_paths, get_root}
use boost_web_server.Server.{FactoryKind, api_handler_factory, Factory, factory_kind, init_server}
use boost_web_server.Sessions.{SessionState, start_accept}

-- A server that waits for its first connection.
pub record Serving (Disk : Type 0) : Type 0 where
  pub port : ℕ
  pub routes : Map Factory
  pub disk : Disk
  pub sessions : List SessionState

pub data MainResult (Disk : Type 0) : Type 0 where
  -- `return` with a code.
  returned : ℤ → MainResult Disk
  serves : Serving Disk → MainResult Disk

-- The exceptions among the faults, which `main` catches.
unfoldable pub is_thrown : Fault → Bool
is_thrown invalid_argument = true
is_thrown out_of_range = true
is_thrown filesystem_error = true
is_thrown network_error = true
is_thrown _ = false

-- An `int` as the `short` that the constructor of `server` takes.
unfoldable pub to_short : ℤ → ℤ
to_short (pos n) =
    if ltb (n % 0x10000) 0x8000 then pos (n % 0x10000) else negsuc (0xffff - n % 0x10000)
to_short (negsuc n) =
    if ltb (n % 0x10000) 0x8000 then negsuc (n % 0x10000) else pos (0xffff - n % 0x10000)

-- A `short` as the `unsigned short` that an endpoint takes.
unfoldable pub to_unsigned_short : ℤ → ℕ
to_unsigned_short (pos n) = n % 0x10000
to_unsigned_short (negsuc n) = 0xffff - n % 0x10000

-- `binds` is whether the acceptor can be opened at a port; it throws otherwise. `num_threads` is
-- what `hardware_concurrency` gives.
module _ (fs : FileSystem) (binds : ℕ → Bool) (num_threads : ℕ) where
  open fs use {Disk, exists, create_directory, read_file}

  -- The constructor of a factory: the one of the API makes its root; an error is only logged.
  unfoldable pub make_root : FactoryKind → List ConfigPath → Bytes → Disk → Disk
  make_root api_handler_factory paths location disk =
      let root_path = get_root paths location in
      if exists disk root_path then disk else (create_directory disk root_path).0
  make_root _ paths location disk = disk

  -- The factories of `init_server`, which are made also for an endpoint that is in the table.
  unfoldable pub make_roots : List ConfigPath → List ConfigPath → Disk → Disk
  unfolding make_root factory_kind
  make_roots config [] disk = disk
  make_roots config (p ∷ ps) disk = make_roots config ps (elim (factory_kind p.type) [
    | none ↦ disk
    | some kind ↦ make_root kind config p.endpoint disk
  ])

  -- The `bool` of `Parse` is false where the file cannot be opened.
  unfoldable pub parse_file : Bytes → Disk → Option (Result ParseOutcome)
  parse_file file_name disk = elim (read_file disk file_name) [
    | none ↦ some (ok (record { valid = false; config = nil }))
    | some text ↦ parse text
  ]

  unfoldable pub open_acceptor : ℕ → Result ℕ
  open_acceptor at = if binds at then ok at else err network_error

  -- The constructor of `server`, `init_server` and `start_accept`.
  unfoldable pub serve : NginxConfig → Disk → Result (Serving Disk)
  unfolding make_roots open_acceptor to_short to_unsigned_short
  serve config disk = do
    port ← get_listen_port config
    at ← open_acceptor (to_unsigned_short (to_short port))
    paths ← get_paths config []
    routes ← init_server config []
    ok (record {
      port = at;
      routes = routes;
      disk = make_roots paths paths disk;
      sessions = start_accept [];
    })

  -- The threads that run the sessions are waited for, which ends at once if there is none.
  unfoldable pub run_threads : Serving Disk → MainResult Disk
  run_threads s = if num_threads == 0 then returned (pos 0) else serves s

  -- What is behind `try`, for an exception.
  unfoldable pub caught : Result (MainResult Disk) → Result (MainResult Disk)
  unfolding is_thrown
  caught (ok r) = ok r
  caught (err e) = if is_thrown e then ok (returned (pos 0)) else err e

  -- `main` behind `Parse`.
  unfoldable pub with_config : NginxConfig → Bool → Disk → Result (MainResult Disk)
  unfolding serve run_threads
  with_config config config_is_valid disk =
      if config_is_valid
      then (serve config disk >>= λ s. ok (run_threads s))
      else ok (returned (negsuc 0))

  -- The arguments are those of `main`; `none` means that the fuel of `parse` ran out.
  unfoldable pub run_main : List Bytes → Disk → Option (Result (MainResult Disk))
  unfolding parse_file with_config caught
  run_main (program ∷ file_name ∷ []) disk = elim (parse_file file_name disk) [
    | none ↦ none
    | some parsed ↦ some (caught (parsed >>= λ p. with_config p.config p.valid disk))
  ]
  run_main _ disk = some (ok (returned (negsuc 0)))
