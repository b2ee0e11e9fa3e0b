-- ===== src/Handlers/Tests.antt =====
-- Runs of the small handlers, and the theorem on static files at a disk with one file.
use boost_web_server.Common.{
  ◌≡◌, refl, true, false, none, some, [], ◌∷◌, ◌++◌, arith, if◌then◌else◌, Bytes, codes, ◌=s=◌,
  find_last_not_of, rfind, ok,
}
use boost_web_server.FileSystem.{FileSystem}
use boost_web_server.Http.{get, HttpRequest, new_response, respond}
use boost_web_server.Http.Reply.{stock_reply}
use boost_web_server.Http.Mime.{find_mapping, extension_to_type}
use boost_web_server.Handlers.{
  trim_target, stock_page, handle_error, handle_not_found, handle_sleep, handle_at, handle_health,
  handle_echo, extension_of, regular_file, handle_static, handle_console,
}
use boost_web_server.Handlers.Static.{handle_static-file}

-- Names once what a run computes with.
pages_code : Unit {0}
unfolding ◌=s=◌ find_last_not_of rfind stock_reply find_mapping extension_to_type trim_target
    stock_page handle_error handle_not_found handle_sleep handle_at handle_health handle_echo
    extension_of regular_file handle_static handle_console
pages_code = tt

abbrev page_path : Bytes
page_path = codes "files/a.html"

-- A disk that holds one file and never changes.
abbrev one_page : FileSystem
one_page = record {
  Disk = Unit {0};
  exists = λ disk path. path =s= page_path;
  is_directory = λ disk path. false;
  is_regular_file = λ disk path. path =s= page_path;
  read_file = λ disk path. if path =s= page_path then some (codes "<p>") else none;
  write_file = λ disk path text. disk;
  append_file = λ disk path text. disk;
  create_directory = λ disk path. (disk, false);
  remove = λ disk path. ok (disk, false);
  entries = λ disk path. ok (page_path ∷ []);
  absolute = λ disk path. path;
  stem = λ path. path;
}

abbrev page_request : Bytes → HttpRequest
page_request target = record { method = get; target = target; cookie = []; body = [] }

health_run :
    (handle_health (codes "/health") (page_request (codes "/health//")) new_response).result ≡ 200
unfolding pages_code
health_run = refl

echo_run :
    (handle_echo
      (λ req. req.target)
      (codes "/echo")
      (page_request (codes "/other"))
      new_response).result
    ≡ 404
unfolding pages_code
echo_run = refl

missing_run :
    handle_static one_page
      (codes "/static/")
      (codes "files")
      tt
      (page_request (codes "/static/b.html"))
      new_response
    ≡ ok (handle_not_found new_response)
unfolding pages_code
missing_run = refl

page_there :
    FileSystem.exists one_page tt (codes "files" ++ (b'/' ∷ (codes "a.htm" ++ b'l' ∷ []))) ≡ true
unfolding pages_code
page_there = refl

page_regular :
    FileSystem.is_regular_file one_page tt (codes "files" ++ (b'/' ∷ (codes "a.htm" ++ b'l' ∷ [])))
    ≡ true
unfolding pages_code
page_regular = refl

page_content :
    FileSystem.read_file one_page tt (codes "files" ++ (b'/' ∷ (codes "a.htm" ++ b'l' ∷ [])))
    ≡ some (codes "<p>")
unfolding pages_code
page_content = refl

handle_static-file_example :
    handle_static one_page
      (codes "/static/")
      (codes "files")
      tt
      (page_request (codes "/static/a.html//"))
      new_response
    ≡ ok
        (respond 200 (codes "<p>") (extension_to_type (extension_of (codes "a.html"))) new_response)
handle_static-file_example =
    handle_static-file one_page (codes "/static/") (codes "files") tt
      (page_request (codes "/static/a.html//")) new_response (codes "a.htm") b'l' 2 (codes "<p>")
      (omega arith) refl page_there page_regular page_content
