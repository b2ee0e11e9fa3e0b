-- ===== src/Sessions.antt =====
-- The sessions of a server: `start_accept` and `handle_accept` of src/server.cc, and `start`,
-- `handle_read`, `write_to_socket` and `handle_write` of src/session.cc. Boost.Asio calls each
-- handler that was handed to it once, in any order; a call of a handler is a step. An exception
-- leaves `main`'s threads and ends the program, so there is no step behind a fault.
pub mod Accepting
pub mod Answers
mod Tests
use boost_web_server.Common.{
  ℕ, zero, suc, ◌≡◌, Bool, false, Option, none, some, List, [], ◌∷◌, ◌++◌, if◌then◌else◌, Bytes,
  Map, network_error, Result, ok, err, ◌>>=◌,
}
use boost_web_server.FileSystem.{FileSystem}
use boost_web_server.Http.{HttpRequest, Response}
use boost_web_server.Authentication.{MailServer}
use boost_web_server.Server.{Factory}
use boost_web_server.Service.{World, handle_read}

-- What is left to do for a session object.
pub data SessionState : Type 0 where
  -- The acceptor waits for a connection on its socket.
  accepting : SessionState
  -- A request is being read.
  reading : SessionState
  -- A response was written and the socket was shut down.
  answered : Response → SessionState
  -- The peer was gone before a response was written.
  abandoned : SessionState
  deleted : SessionState

-- The sessions are numbered in the order in which `get_session` made them.
pub record ServerState (Disk : Type 0) : Type 0 where
  pub world : World Disk
  pub sessions : List SessionState

unfoldable pub session_at : ℕ → List SessionState → Option SessionState
session_at i [] = none
session_at zero (x ∷ xs) = some x
session_at (suc i) (x ∷ xs) = session_at i xs

unfoldable pub set_session : ℕ → SessionState → List SessionState → List SessionState
set_session i y [] = []
set_session zero y (x ∷ xs) = y ∷ xs
set_session (suc i) y (x ∷ xs) = x ∷ set_session i y xs

-- `get_session` never gives a null pointer.
unfoldable pub start_accept : List SessionState → List SessionState
start_accept sessions = sessions ++ accepting ∷ []

-- `handle_accept`, with `start` where there is no error.
unfoldable pub handle_accept : ℕ → Bool → List SessionState → List SessionState
unfolding start_accept set_session
handle_accept i error sessions =
    start_accept (set_session i (if error then deleted else reading) sessions)

unfoldable pub handle_write : Bool → Response → SessionState
handle_write error res = if error then deleted else answered res

-- The end of `write_to_socket`. The flag is whether `bhttp::write` succeeds; it throws otherwise.
unfoldable pub written : Bool → Option Response → Result SessionState
unfolding handle_write
written delivered none = ok abandoned
written delivered (some res) = if delivered then ok (handle_write false res) else err network_error

module _ (fs : FileSystem) (hash_pass : Bytes → Bytes) (server : MailServer)
    (write_request : HttpRequest → Bytes) (params : Bytes → List (Bytes × Bytes))
    (routes : Map Factory) where
  open fs use {Disk}

  -- `handle_read` with its error code, where `none` stands for an error.
  unfoldable pub on_read :
      ℕ → Option HttpRequest → Bool → Bool → ServerState Disk → Result (ServerState Disk)
  unfolding written set_session
  on_read i none connected delivered s =
      ok (record s { sessions = set_session i deleted s.sessions })
  on_read i (some req) connected delivered s = do
    o ← handle_read fs hash_pass server write_request params connected routes req s.world
    after ← written delivered o.1
    ok (record { world = o.0; sessions = set_session i after s.sessions })

  -- A handler is called: for a session that waits for it.
  pub data Step (s : ServerState Disk) : ServerState Disk → Type 0 where
    accepts :
        (i : ℕ) (error : Bool)
        → session_at i s.sessions ≡ some accepting
        → Step s (record s { sessions = handle_accept i error s.sessions })
    reads :
        (i : ℕ) (request : Option HttpRequest) (connected delivered : Bool) (t : ServerState Disk)
        → session_at i s.sessions ≡ some reading
        → on_read i request connected delivered s ≡ ok t
        → Step s t

  -- The first call of `start_accept`, and any number of steps behind it.
  pub data Reached (w : World Disk) : ServerState Disk → Type 0 where
    started : Reached w (record { world = w; sessions = start_accept [] })
    then_step : (s t : ServerState Disk) → Reached w s → Step s t → Reached w t
