-- ===== src/Service/ReadBack/Tests.antt =====
-- The theorem on a POST and a GET through src/session.cc at a server with an API.
use boost_web_server.Common.{
  ◌≡◌, refl, true, false, some, List, [], ◌∷◌, ◌++◌, Bytes, codes, ◌=s=◌, rfind, find, pos, isspace,
  isdigit, stoi, to_decimal, int_eq, Map, map_find, map_has, map_set, map_index, ok,
}
use boost_web_server.Service.Restart.{handle_read-post_restart}
use boost_web_server.FileSystem.{FileSystem}
use boost_web_server.FileSystem.Memory.{
  FileList, files_below, files_below-FileLaws, files_below-ListingLaws,
}
use boost_web_server.Http.{get, post, HttpRequest, new_response, UserProfile, respond, text_html}
use boost_web_server.Api.{has_id, add_id}
use boost_web_server.Api.Ids.{ids, next_number}
use boost_web_server.Api.Order.{ascending}
use boost_web_server.Api.Scan.{last_byte, add_file, add_files, new_api_handler}
use boost_web_server.Api.Handler.{slash_join}
use boost_web_server.Api.Handler.Post.{IsEntity}
use boost_web_server.Profile.{cons_first, split_bars, user_of_info, update_user}
use boost_web_server.Authentication.{MailServer}
use boost_web_server.Config.Paths.{api, default_path, get_root}
use boost_web_server.Server.{api_handler_factory, Factory}
use boost_web_server.Session.{match_loop, match}
use boost_web_server.Service.{
  World, api_below, create_api, create_handler, create, new_user, counts_at, handle_read,
}
use boost_web_server.Service.ReadBack.{handle_read-post_get}

-- Names once what a run computes with.
read_back_code : Unit {0}
unfolding isdigit isspace stoi to_decimal ◌=s=◌ map_set map_index map_find map_has rfind find int_eq
    cons_first split_bars user_of_info update_user match_loop match get_root create_api
    create_handler counts_at has_id add_id new_api_handler add_files add_file last_byte next_number
read_back_code = tt

abbrev fs : FileSystem
fs = files_below (codes "data/things")

abbrev server : MailServer
server = record { accepts_session = true; accepts_mail = λ m. true }

abbrev api_factory : Factory
api_factory = record {
  kind = api_handler_factory;
  location_ = codes "/api";
  paths = record default_path { type = api; endpoint = codes "/api"; root = codes "data" } ∷ [];
}

abbrev routes : Map Factory
routes = (codes "/api", api_factory) ∷ []

-- Whoever sends a cookie is the user with the number 1.
abbrev params : Bytes → List (Bytes × Bytes)
params [] = []
params (c ∷ cookie) = (codes "crazyCode", codes "1|Ann|a@x") ∷ []

abbrev ann : UserProfile
ann = record { user_id = pos 1; username = codes "Ann"; email = codes "a@x"; login_status = true }

abbrev start : World FileList
start = record { disk = []; counts = []; sent = [] }

abbrev post_request : HttpRequest
post_request = record {
  method = post;
  target = codes "/api/things";
  cookie = codes "c";
  body = codes "{}";
}

abbrev read_request : HttpRequest
read_request = record { method = get; target = codes "/api/things/1"; cookie = []; body = [] }

ann_asks : update_user (params post_request.cookie) new_user ≡ ok (true, ann)
unfolding read_back_code
ann_asks = refl

nobody_asks : update_user (params read_request.cookie) new_user ≡ ok (false, new_user)
unfolding read_back_code
nobody_asks = refl

post_route : match routes post_request.target ≡ some (codes "/api")
unfolding read_back_code
post_route = refl

read_route : match routes read_request.target ≡ some (codes "/api")
unfolding read_back_code
read_route = refl

factory_found : map_find (codes "/api") routes ≡ some api_factory
unfolding read_back_code
factory_found = refl

api_created : create api_factory (codes "/api") ≡ api_below (codes "data")
unfolding read_back_code
api_created = refl

read_target :
    read_request.target
    ≡ codes "/api/" ++ (codes "things" ++ (b'/' ∷ to_decimal (pos (next_number []).1)))
unfolding read_back_code
read_target = refl

things-IsEntity : IsEntity (codes "things")
unfolding read_back_code
things-IsEntity = (λ e. cc, refl)

things_there : FileSystem.exists fs [] (slash_join (codes "data") (codes "things")) ≡ true
unfolding read_back_code
things_there = refl

abbrev file_path : Bytes
file_path =
    slash_join (slash_join (codes "data") (codes "things")) (to_decimal (pos (next_number []).1))

file_writable : (file_path =s= codes "data/things") ≡ false
unfolding read_back_code
file_writable = refl

first_scan : new_api_handler fs [] (codes "data") (counts_at (codes "/api") []) ≡ ok []
unfolding read_back_code
first_scan = refl

no_numbers : (map_index [] (codes "things") []).0 ≡ ids []
unfolding read_back_code
no_numbers = refl

second_scan :
    new_api_handler fs
      (FileSystem.write_file fs [] file_path (codes "{}"))
      (codes "data")
      (map_set (codes "things") (ids (next_number []).0) [])
    ≡ ok ((codes "things", pos 1 ∷ []) ∷ [])
unfolding read_back_code
second_scan = refl

handle_read-post_get_example :
    (w' w'' : World FileList) × (page : Bytes) × (handle_read fs
        (λ s. s)
        server
        (λ req. req.target)
        params
        true
        routes
        post_request
        start
      ≡ ok (w', some (respond 201 page text_html new_response)))
    × (handle_read fs (λ s. s) server (λ req. req.target) params true routes read_request w'
        ≡ ok (w'', some (respond 200 (codes "{}") text_html new_response)))
    × (w''.disk ≡ w'.disk)
handle_read-post_get_example =
    handle_read-post_get fs (λ s. s) server (λ req. req.target) params routes (codes "/api")
      (codes "data") api_factory (files_below-FileLaws (codes "data/things")) post_request
      read_request start (codes "things") [] true false ann new_user []
      ((codes "things", pos 1 ∷ []) ∷ []) ann_asks refl nobody_asks post_route read_route
      factory_found api_created refl refl refl read_target things-IsEntity things_there
      file_writable first_scan no_numbers (ascending tt) tt second_scan

restart_scan :
    new_api_handler fs
      (FileSystem.write_file fs [] file_path (codes "{}"))
      (codes "data")
      (counts_at (codes "/api") [])
    ≡ ok ((codes "things", pos 1 ∷ []) ∷ [])
unfolding read_back_code
restart_scan = refl

handle_read-post_restart_example :
    (w' w'' : World FileList) × (page : Bytes) × (handle_read fs
        (λ s. s)
        server
        (λ req. req.target)
        params
        true
        routes
        post_request
        start
      ≡ ok (w', some (respond 201 page text_html new_response)))
    × (handle_read fs
          (λ s. s)
          server
          (λ req. req.target)
          params
          true
          routes
          read_request
          (record { disk = w'.disk; counts = []; sent = [] })
        ≡ ok (w'', some (respond 200 (codes "{}") text_html new_response)))
    × (w''.disk ≡ w'.disk)
handle_read-post_restart_example =
    handle_read-post_restart fs (λ s. s) server (λ req. req.target) params routes (codes "/api")
      (codes "data") api_factory (files_below-FileLaws (codes "data/things"))
      (files_below-ListingLaws (codes "data/things")) post_request read_request start
      (codes "things") [] true false ann new_user [] ((codes "things", pos 1 ∷ []) ∷ []) [] []
      ann_asks refl nobody_asks post_route read_route factory_found api_created refl refl refl
      read_target things-IsEntity things_there file_writable tt first_scan no_numbers (ascending tt)
      tt restart_scan
