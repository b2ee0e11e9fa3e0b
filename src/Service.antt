-- ===== src/Service.antt =====
-- One request through the server: `handle_read` of src/session.cc behind a request that was read,
-- with `create` of the classes in src/handler_factories. What the requests share is the disk, the
-- `path_counts` of each API factory and the mails that went out.
pub mod Access
pub mod Answers
pub mod Liveness
pub mod ReadBack
pub mod Restart
mod Tests
use boost_web_server.Common.{
  Bool, false, Option, none, some, List, [], if◌then◌else◌, Bytes, codes, ℤ, pos, Map, map_find,
  map_set, map_index, null_pointer, Result, ok, err, ◌>>=◌,
}
use boost_web_server.FileSystem.{FileSystem}
use boost_web_server.Http.{HttpRequest, Response, new_response, UserProfile}
use boost_web_server.Handlers.{
  handle_not_found, handle_sleep, handle_health, handle_echo, handle_static, handle_console,
}
use boost_web_server.Api.Scan.{new_api_handler}
use boost_web_server.Api.Handler.{handle_request}
use boost_web_server.Profile.{update_user}
use boost_web_server.Authentication.{AuthenticationHandler, Mail, MailServer, handle_authentication}
use boost_web_server.Config.Paths.{ConfigPath, get_root, get_auth_path_map}
use boost_web_server.Server.{
  FactoryKind, static_handler_factory, echo_handler_factory, api_handler_factory,
  health_handler_factory, sleep_handler_factory, authentication_handler_factory,
  api_console_handler_factory, handler404factory, Factory,
}
use boost_web_server.Session.{match}

pub record World (Disk : Type 0) : Type 0 where
  pub disk : Disk
  pub counts : Map (Map (List ℤ))
  pub sent : List Mail

-- The handler classes with the fields that their answers depend on.
pub data RequestHandler : Type 0 where
  static_files : Bytes → Bytes → RequestHandler
  echo_at : Bytes → RequestHandler
  api_below : Bytes → RequestHandler
  health_at : Bytes → RequestHandler
  sleeper : RequestHandler
  authentication : AuthenticationHandler → RequestHandler
  console_below : Bytes → RequestHandler
  not_found : RequestHandler

-- `path_map[key]`
unfoldable pub path_value : Bytes → Map Bytes → Bytes
path_value key path_map = (map_index [] key path_map).0

unfoldable pub authentication_at : Bytes → Map Bytes → AuthenticationHandler
authentication_at location path_map = record {
  location_ = location;
  root_ = path_value (codes "root") path_map;
  data_path_ = path_value (codes "data_path") path_map;
  signup_ = path_value (codes "signup") path_map;
  login_ = path_value (codes "login") path_map;
  logout_ = path_value (codes "logout") path_map;
}

-- `create` of each factory, on the paths of its configuration.
unfoldable pub create_static : List ConfigPath → Bytes → RequestHandler
create_static paths location = static_files location (get_root paths location)

unfoldable pub create_echo : Bytes → RequestHandler
create_echo location = echo_at location

unfoldable pub create_api : List ConfigPath → Bytes → RequestHandler
create_api paths location = api_below (get_root paths location)

unfoldable pub create_health : Bytes → RequestHandler
create_health location = health_at location

unfoldable pub create_sleep : Bytes → RequestHandler
create_sleep location = sleeper

unfoldable pub create_authentication : List ConfigPath → Bytes → RequestHandler
unfolding authentication_at
create_authentication paths location =
    authentication (authentication_at location (get_auth_path_map paths location))

unfoldable pub create_console : List ConfigPath → Bytes → RequestHandler
unfolding path_value
create_console paths location =
    console_below (path_value (codes "root") (get_auth_path_map paths location))

unfoldable pub create_not_found : Bytes → RequestHandler
create_not_found location = not_found

unfoldable pub create_handler : FactoryKind → List ConfigPath → Bytes → RequestHandler
unfolding create_static create_echo create_api create_health create_sleep create_authentication
    create_console create_not_found
create_handler static_handler_factory paths location = create_static paths location
create_handler echo_handler_factory paths location = create_echo location
create_handler api_handler_factory paths location = create_api paths location
create_handler health_handler_factory paths location = create_health location
create_handler sleep_handler_factory paths location = create_sleep location
create_handler authentication_handler_factory paths location = create_authentication paths location
create_handler api_console_handler_factory paths location = create_console paths location
create_handler handler404factory paths location = create_not_found location

-- `factory->create(location, …)`; the location is the route that was matched.
abbrev pub create : Factory → Bytes → RequestHandler
create f location = create_handler f.kind f.paths location

-- The profile of a new session.
abbrev pub new_user : UserProfile
new_user = record { user_id = pos 0; username = []; email = []; login_status = false }

-- The world behind an answer, and the answer.
abbrev pub Answer : Type 0 → Type 0
Answer Disk = World Disk × Response

-- The world behind a session, and what it wrote.
abbrev pub Outcome : Type 0 → Type 0
Outcome Disk = World Disk × Option Response

-- `path_counts` of the factory at a location, empty at first.
unfoldable pub counts_at {ℓ} : {V : Type ℓ} → Bytes → Map (Map V) → Map V
counts_at location counts = (map_index [] location counts).0

-- `write_request` is how Boost.Beast prints a request, and `params` how it reads a cookie.
module _ (fs : FileSystem) (hash_pass : Bytes → Bytes) (server : MailServer)
    (write_request : HttpRequest → Bytes) (params : Bytes → List (Bytes × Bytes)) where
  open fs use {Disk}

  -- The constructor of a handler: the one of the API scans the disk into the numbers of its
  -- factory.
  unfoldable pub construct : RequestHandler → Bytes → World Disk → Result (World Disk)
  construct (api_below root) location w = do
    counts ← new_api_handler fs w.disk root (counts_at location w.counts)
    ok (record w { counts = map_set location counts w.counts })
  construct _ location w = ok w

  unfoldable pub answer_api :
      Bytes → Bytes → UserProfile → HttpRequest → World Disk → Result (Answer Disk)
  unfolding counts_at
  answer_api location root user req w = do
    t ←
        handle_request fs (record { root_ = root; profile_ = user }) req
          (record { disk = w.disk; path_counts = counts_at location w.counts; res = new_response })
    ok (record w { disk = t.disk; counts = map_set location t.path_counts w.counts }, t.res)

  unfoldable pub answer_authentication :
      AuthenticationHandler → HttpRequest → World Disk → Result (Answer Disk)
  answer_authentication h req w = do
    t ←
        handle_authentication fs hash_pass server h req
          (record { disk = w.disk; sent = w.sent; res = new_response })
    ok (record w { disk = t.disk; sent = t.sent }, t.res)

  -- `handler->handle_request(request_, response_)` with a new response.
  unfoldable pub answer_request :
      RequestHandler → Bytes → UserProfile → HttpRequest → World Disk → Result (Answer Disk)
  unfolding answer_api answer_authentication
  answer_request (static_files location_ root) location user req w = do
    res ← handle_static fs location_ root w.disk req new_response
    ok (w, res)
  answer_request (echo_at location_) location user req w =
      ok (w, handle_echo write_request location_ req new_response)
  answer_request (api_below root) location user req w = answer_api location root user req w
  answer_request (health_at location_) location user req w =
      ok (w, handle_health location_ req new_response)
  answer_request sleeper location user req w = ok (w, handle_sleep new_response)
  answer_request (authentication h) location user req w = answer_authentication h req w
  answer_request (console_below root) location user req w =
      ok (w, handle_console fs root user w.disk new_response)
  answer_request not_found location user req w = ok (w, handle_not_found new_response)

  -- `write_to_socket`: nothing is handled for a peer that is gone.
  unfoldable pub write_to_socket :
      Bool → RequestHandler → Bytes → UserProfile → HttpRequest → World Disk → Result (Outcome Disk)
  unfolding answer_request
  write_to_socket connected handler location user req w =
      if connected
      then (answer_request handler location user req w >>= λ a. ok (a.0, some a.1))
      else ok (w, none)

  -- A route that is not in the table gives a null pointer. The `none` of `match` stands for fuel
  -- that ran out.
  unfoldable pub answer_route :
      Bool
      → Map Factory
      → Option Bytes
      → UserProfile
      → HttpRequest
      → World Disk
      → Result (Outcome Disk)
  unfolding write_to_socket construct create_handler
  answer_route connected routes none user req w = err null_pointer
  answer_route connected routes (some location) user req w = elim (map_find location routes) [
    | none ↦ err null_pointer
    | some f ↦
        construct (create f location) location w
        >>= write_to_socket connected (create f location) location user req
  ]

  -- `handle_read` without an error. The flag is whether the socket still has a peer.
  unfoldable pub handle_read : Bool → Map Factory → HttpRequest → World Disk → Result (Outcome Disk)
  unfolding answer_route
  handle_read connected routes req w = do
    u ← update_user (params req.cookie) new_user
    answer_route connected routes (match routes req.target) u.1 req w
