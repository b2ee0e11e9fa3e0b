-- ===== src/Service/Tests.antt =====
-- Runs of `handle_read` of src/session.cc, and the theorems at a server with a static handler, an
-- API and an authentication handler.
use boost_web_server.Common.{
  ℕ, ◌≡◌, refl, ◌⊎◌, true, false, Option, none, some, List, [], ◌∷◌, Bytes, codes, find_last_not_of,
  rfind, find, isspace, isdigit, stoi, Map, map_find, map_has, map_set, map_emplace, map_index,
  invalid_argument, Result, ok, err, ◌>>=◌, ◌=s=◌,
}
use boost_web_server.FileSystem.{FileSystem}
use boost_web_server.FileSystem.Memory.{FileList, files_below}
use boost_web_server.Http.{Verb, get, post, HttpRequest, Response, new_response}
use boost_web_server.Http.Reply.{stock_reply}
use boost_web_server.Http.Mime.{find_mapping, extension_to_type}
use boost_web_server.Api.Scan.{last_byte, add_file, add_files, new_api_handler}
use boost_web_server.Api.Handler.{
  bad_request, list_body, is_api_target, handle_list, dispatch, handle_request,
}
use boost_web_server.Profile.{cons_first, split_bars, user_of_info, update_user}
use boost_web_server.Authentication.{
  page_of, MailServer, html_page, answer_page, handle_authentication,
}
use boost_web_server.Config.Tree.{NginxConfig, nil, cons, NginxConfigStatement, statement, block}
use boost_web_server.Config.Paths.{
  static_, api, auth, ConfigPath, default_path, token_at, child_statements, trim_slashes, root_loop,
  plain_path, auth_pair, auth_loop, console_path, console_step, console_loop, handler_name,
  add_paths, location_paths, get_paths, get_root, get_auth_path_map,
}
use boost_web_server.Handlers.{
  trim_target, stock_page, handle_not_found, extension_of, regular_file, handle_static,
}
use boost_web_server.Server.{
  FactoryKind, static_handler_factory, api_handler_factory, authentication_handler_factory,
  handler404factory, Factory, factory_kind, add_route, add_routes, init_server,
}
use boost_web_server.Session.{match_loop, match}
use boost_web_server.Service.{
  World, path_value, authentication_at, create_handler, create, new_user, Outcome, counts_at,
  construct, answer_api, answer_authentication, answer_request, write_to_socket, answer_route,
  handle_read,
}
use boost_web_server.Service.Access.{Signup, anonymous_disk}

-- Names once what a run computes with.
service_code : Unit {0}
unfolding isdigit ◌=s=◌ token_at child_statements trim_slashes find_last_not_of root_loop plain_path
    auth_loop console_path console_step console_loop handler_name add_paths location_paths get_paths
    auth_pair get_root get_auth_path_map map_set map_index map_find map_has map_emplace rfind find
    factory_kind add_route add_routes init_server match_loop match trim_target stock_page
    stock_reply find_mapping extension_to_type extension_of regular_file handle_static
    handle_not_found handle_request dispatch is_api_target bad_request handle_list new_api_handler
    add_files add_file last_byte update_user path_value create_handler authentication_at answer_api
    answer_authentication construct counts_at write_to_socket answer_request answer_route
    handle_read list_body page_of html_page answer_page handle_authentication
service_code = tt

abbrev entry : Bytes → Bytes → NginxConfig → NginxConfigStatement
entry location name child = block (codes "location" ∷ location ∷ name ∷ []) child

abbrev key : Bytes → Bytes → NginxConfig → NginxConfig
key name value = cons (statement (name ∷ value ∷ []))

abbrev config : NginxConfig
config =
    cons (entry (codes "/files/") (codes "StaticHandler") (key (codes "root") (codes "data") nil)) (
      cons (entry (codes "/api") (codes "APIHandler") (key (codes "root") (codes "data") nil)) (
        cons
          (entry (codes "/auth") (codes "AuthenticationHandler") (
            key (codes "root") (codes "html") (
              key (codes "data_path") (codes "data") (key (codes "signup") (codes "/signup") nil))))
          nil))

abbrev configured : List ConfigPath
configured =
    record default_path { type = static_; endpoint = codes "/files"; root = codes "data" }
    ∷ record default_path { type = api; endpoint = codes "/api"; root = codes "data" }
    ∷ record {
      type = auth;
      endpoint = codes "/auth";
      root = codes "html";
      config_key_to_path_map =
          (codes "root", codes "html")
          ∷ (codes "data_path", codes "data")
          ∷ (codes "signup", codes "/signup")
          ∷ [];
    }
    ∷ []

abbrev factory : FactoryKind → Bytes → Bytes × Factory
factory kind location = (location, record { kind = kind; location_ = location; paths = configured })

abbrev table : Map Factory
table =
    factory static_handler_factory (codes "/files")
    ∷ factory api_handler_factory (codes "/api")
    ∷ factory authentication_handler_factory (codes "/auth")
    ∷ factory handler404factory (codes "/")
    ∷ []

abbrev fs : FileSystem
fs = files_below (codes "data")

abbrev server : MailServer
server = record { accepts_session = true; accepts_mail = λ m. true }

-- The static handler puts a slash between its root and what follows the location.
abbrev before : World FileList
before = record { disk = (codes "data//a.txt", codes "text") ∷ []; counts = []; sent = [] }

-- Cookies without parameters, a digest that is the password, and requests that print as the target.
abbrev read : HttpRequest → World FileList → Result (Outcome FileList)
read = handle_read fs (λ s. s) server (λ req. req.target) (λ cookie. []) true table

abbrev request : Verb → Bytes → HttpRequest
request verb target = record { method = verb; target = target; cookie = []; body = codes "{}" }

abbrev page_in : Option Response → Option (ℕ × Bytes)
page_in none = none
page_in (some res) = some (res.result, res.body)

abbrev summary : Result (Outcome FileList) → Result (Option (ℕ × Bytes) × FileList)
summary m = m >>= λ a. ok (page_in a.1, a.0.disk)

file_run :
    summary (read (request get (codes "/files/a.txt/")) before)
    ≡ ok (some (200, codes "text"), before.disk)
unfolding service_code
file_run = refl

nobody_asks : update_user [] new_user ≡ ok (false, new_user)
unfolding service_code
nobody_asks = refl

abbrev refused : Response
refused = bad_request new_response

post_run :
    read (request post (codes "/api/things")) before
    ≡ ok (record before { counts = (codes "/api", []) ∷ [] }, some refused)
unfolding service_code
post_run = refl

anonymous_disk_example :
    (before.disk ≡ before.disk)
    ⊎ ((location : Bytes) × (f : Factory) × (match table (codes "/api/things") ≡ some location)
        × (map_find location table ≡ some f)
        × Signup fs
            (λ s. s)
            server
            (λ req. req.target)
            (λ cookie. [])
            (codes "/api/things")
            (create f location))
anonymous_disk_example =
    anonymous_disk fs (λ s. s) server (λ req. req.target) (λ cookie. []) true table
      (request post (codes "/api/things")) before
      (record before { counts = (codes "/api", []) ∷ [] }) (some refused) false new_user nobody_asks
      refl post_run

-- A cookie with a number that does not convert: the fault is an exception that nothing catches.
bad_cookie_run :
    handle_read fs
      (λ s. s)
      server
      (λ req. req.target)
      (λ cookie. (codes "crazyCode", codes "x|a|b") ∷ [])
      true
      table
      (request get (codes "/"))
      before
    ≡ err invalid_argument
unfolding service_code cons_first split_bars user_of_info stoi isspace
bad_cookie_run = refl
