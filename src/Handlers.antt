-- ===== src/Handlers.antt =====
-- The handlers of src/request_echo_handler.cc, src/request_health_handler.cc,
-- src/request_sleep_handler.cc, src/request_404_handler.cc, src/request_error_handler.cc,
-- src/request_static_handler.cc and src/api_console_handler.cc. A handler takes the response and
-- gives the response; its log lines are left out.
pub mod Static
pub mod Answers
mod Tests
use boost_web_server.Common.{
  ℕ, suc, ◌&&◌, Option, none, some, [], ◌∷◌, ◌++◌, ltb, if◌then◌else◌, length, take, drop, Bytes,
  codes, ◌=s=◌, find_last_not_of, rfind, out_of_range, Result, ok, err,
}
use boost_web_server.FileSystem.{FileSystem}
use boost_web_server.Http.{HttpRequest, Response, UserProfile, respond, text_html, text_plain}
use boost_web_server.Http.Reply.{stock_reply}
use boost_web_server.Http.Mime.{extension_to_type}

-- The target without its trailing slashes, or as it is if it has nothing else.
unfoldable pub trim_target : Bytes → Bytes
trim_target target = elim (find_last_not_of b'/' target) [
  | none ↦ target
  | some i ↦ take (suc i) target
]

-- The stock page of a status, as every handler writes it.
unfoldable pub stock_page : ℕ → Response → Response
stock_page code res = respond code (stock_reply code) text_html res

unfoldable pub handle_error : ℕ → Response → Response
unfolding stock_page
handle_error err_code res = stock_page err_code res

unfoldable pub handle_not_found : Response → Response
unfolding stock_page
handle_not_found res = stock_page 404 res

-- The handler sleeps before it answers; the number in the answer is a constant.
unfoldable pub handle_sleep : Response → Response
handle_sleep res = respond 200 (codes "This request slept: 200000 microseconds") text_plain res

-- The echo and the health handler: a location, and the text for it.
unfoldable pub handle_at : Bytes → Bytes → HttpRequest → Response → Response
unfolding trim_target stock_page
handle_at location_ text req res =
    if location_ =s= trim_target req.target
    then respond 200 text text_plain res
    else stock_page 404 res

unfoldable pub handle_health : Bytes → HttpRequest → Response → Response
unfolding handle_at
handle_health location_ req res = handle_at location_ (codes "OK") req res

-- Boost.Beast writes the request into the body; how is a parameter.
unfoldable pub handle_echo : (HttpRequest → Bytes) → Bytes → HttpRequest → Response → Response
unfolding handle_at
handle_echo write_request location_ req res = handle_at location_ (write_request req) req res

-- The text behind the last dot.
unfoldable pub extension_of : Bytes → Bytes
extension_of file_name = elim (rfind b'.' file_name) [ none ↦ [] | some i ↦ drop (suc i) file_name ]

module _ (fs : FileSystem) where
  open fs use {Disk, exists, is_regular_file, read_file}

  -- What a loop of `get` reads from a file that can be opened.
  unfoldable pub regular_file : Disk → Bytes → Option Bytes
  regular_file disk path =
      if exists disk path && is_regular_file disk path then read_file disk path else none

  -- `input.substr(location_.size())` throws where the location is longer than the target.
  unfoldable pub handle_static : Bytes → Bytes → Disk → HttpRequest → Response → Result Response
  unfolding trim_target stock_page regular_file extension_of
  handle_static location_ root_ disk req res =
      let req_input = trim_target req.target in
      let file_name = drop (length location_) req_input in
      if ltb (length req_input) (length location_)
      then err out_of_range
      else ok (elim (regular_file disk (root_ ++ (b'/' ∷ file_name))) [
        | none ↦ stock_page 404 res
        | some reply_body ↦ respond 200 reply_body (extension_to_type (extension_of file_name)) res
      ])

  -- The console page, for a user who is logged in; a page that cannot be read is empty.
  unfoldable pub handle_console : Bytes → UserProfile → Disk → Response → Response
  unfolding stock_page regular_file
  handle_console root_ profile_ disk res =
      if profile_.login_status
      then respond 200
          (elim (regular_file disk (root_ ++ codes "/console.html")) [
            | none ↦ []
            | some page ↦ page
          ])
          text_html res
      else stock_page 401 res
