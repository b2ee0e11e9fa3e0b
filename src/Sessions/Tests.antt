-- ===== src/Sessions/Tests.antt =====
-- Steps of the sessions of src/session.cc at a server with a health handler, and the theorems there.
use boost_web_server.Common.{
  ◌≡◌, refl, true, false, none, some, [], ◌∷◌, codes, find_last_not_of, rfind, Map, map_find,
  map_has, ◌=s=◌,
}
use boost_web_server.Sessions.Answers.{Reached-is_formed}
use boost_web_server.Http.Formed.{is_formed}
use boost_web_server.FileSystem.{FileSystem}
use boost_web_server.FileSystem.Memory.{FileList, files_below}
use boost_web_server.Http.{get, HttpRequest, Response, new_response, respond, text_plain}
use boost_web_server.Http.Reply.{stock_reply}
use boost_web_server.Handlers.{trim_target, stock_page, handle_at, handle_health}
use boost_web_server.Profile.{update_user}
use boost_web_server.Authentication.{MailServer}
use boost_web_server.Server.{health_handler_factory, Factory}
use boost_web_server.Session.{match_loop, match}
use boost_web_server.Service.{
  create_health, create_handler, construct, answer_request, write_to_socket, answer_route,
  handle_read,
}
use boost_web_server.Sessions.{
  accepting, reading, answered, deleted, ServerState, session_at, set_session, start_accept,
  handle_accept, handle_write, written, on_read, Step, accepts, reads, Reached, started, then_step,
}
use boost_web_server.Sessions.Accepting.{accepting_count, Reached-accepting_count}

-- Names once what a run computes with.
sessions_code : Unit {0}
unfolding ◌=s=◌ map_find map_has find_last_not_of rfind match_loop match trim_target stock_page
    stock_reply handle_at handle_health update_user create_health create_handler construct
    answer_request write_to_socket answer_route handle_read session_at set_session start_accept
    handle_accept handle_write written on_read
sessions_code = tt

abbrev fs : FileSystem
fs = files_below (codes "data")

abbrev server : MailServer
server = record { accepts_session = true; accepts_mail = λ m. true }

abbrev routes : Map Factory
routes =
    (
      codes "/health",
      record { kind = health_handler_factory; location_ = codes "/health"; paths = [] },
    )
    ∷ []

abbrev at_start : ServerState FileList
at_start = record {
  world = record { disk = []; counts = []; sent = [] };
  sessions = accepting ∷ [];
}

abbrev connected_once : ServerState FileList
connected_once = record at_start { sessions = reading ∷ accepting ∷ [] }

abbrev healthy : Response
healthy = respond 200 (codes "OK") text_plain new_response

abbrev answered_once : ServerState FileList
answered_once = record at_start { sessions = answered healthy ∷ accepting ∷ [] }

abbrev health_request : HttpRequest
health_request = record { method = get; target = codes "/health/"; cookie = []; body = [] }

abbrev StepHere : ServerState FileList → ServerState FileList → Type 0
StepHere = Step fs (λ s. s) server (λ req. req.target) (λ cookie. []) routes

abbrev ReachedHere : ServerState FileList → Type 0
ReachedHere = Reached fs (λ s. s) server (λ req. req.target) (λ cookie. []) routes at_start.world

accept_step : StepHere at_start connected_once
unfolding sessions_code
accept_step = accepts 0 false refl

read_step : StepHere connected_once answered_once
unfolding sessions_code
read_step = reads 0 (some health_request) true true answered_once refl refl

-- A read that fails deletes the session.
failed_read_step : StepHere connected_once (record at_start { sessions = deleted ∷ accepting ∷ [] })
unfolding sessions_code
failed_read_step =
    reads 0 none true true (record at_start { sessions = deleted ∷ accepting ∷ [] }) refl refl

-- An error of the acceptor deletes the session that was to be connected.
next_accept_step :
    StepHere answered_once
      (record at_start { sessions = answered healthy ∷ deleted ∷ accepting ∷ [] })
unfolding sessions_code
next_accept_step = accepts 1 true refl

reached : ReachedHere answered_once
unfolding sessions_code
reached =
    then_step connected_once answered_once (then_step at_start connected_once started accept_step)
      read_step

Reached-accepting_count_example : accepting_count answered_once.sessions ≡ 1
Reached-accepting_count_example =
    Reached-accepting_count fs (λ s. s) server (λ req. req.target) (λ cookie. []) routes
      at_start.world answered_once reached

first_answered : session_at 0 answered_once.sessions ≡ some (answered healthy)
unfolding sessions_code
first_answered = refl

Reached-is_formed_example : is_formed healthy ≡ true
Reached-is_formed_example =
    Reached-is_formed fs (λ s. s) server (λ req. req.target) (λ cookie. []) routes at_start.world
      answered_once 0 healthy reached first_answered
