-- ===== src/Api/Handler/Tests.antt =====
-- The theorems on the handlers of src/request_api_handler.cc at concrete inputs: a disk that is
-- a list of files below the one directory `root/posts`.
use boost_web_server.Common.{
  ℕ, ◌≡◌, refl, Bool, true, false, List, [], ◌∷◌, arith, Bytes, codes, ◌=s=◌, rfind, find, ℤ, pos,
  stoi, to_decimal, increment, int_eq, int_lt, Map, map_find, map_has, map_set, map_index, Result,
  ok, ◌>>=◌,
}
use boost_web_server.FileSystem.{FileSystem}
use boost_web_server.FileSystem.Memory.{FileList, files_below}
use boost_web_server.Http.{
  Verb, get, post, put, delete_, HttpRequest, new_response, UserProfile, respond, text_html,
}
use boost_web_server.Http.Reply.{stock_reply}
use boost_web_server.Api.{run_length, insert_at, id_at, next_in_run, next_id, has_id, erase_id}
use boost_web_server.Api.Ids.{ids}
use boost_web_server.Api.Order.{ascending, IsNext}
use boost_web_server.Api.Handler.{
  ApiState, ApiHandler, slash_join, bad_request, with_commas, replace_last, list_body, get_next_id,
  created_page, is_api_target, post_file, handle_post, with_file, erase_number, handle_delete,
  handle_get, handle_list, handle_put, dispatch, handle_request,
}
use boost_web_server.Api.Handler.Access.{by_delete, handle_request-refused}
use boost_web_server.Api.Handler.Post.{IsEntity, handle_request-post}

abbrev posts_directory : Bytes
posts_directory = codes "root/posts"

abbrev disk_of_posts : FileSystem
disk_of_posts = files_below posts_directory

-- Names once what a run computes with.
handler_code : Unit {0}
unfolding ◌=s=◌ stock_reply run_length insert_at id_at next_in_run next_id has_id erase_id increment
    int_eq int_lt is_api_target handle_request dispatch handle_post post_file handle_get handle_put
    handle_delete handle_list erase_number with_file get_next_id created_page list_body with_commas
    replace_last bad_request find rfind stoi to_decimal map_find map_has map_set map_index
handler_code = tt

abbrev user : Bool → UserProfile
user logged_in = record {
  user_id = pos 1;
  username = codes "u";
  email = codes "u@x";
  login_status = logged_in;
}

abbrev handler : Bool → ApiHandler
handler logged_in = record { root_ = codes "root"; profile_ = user logged_in }

abbrev request : Verb → Bytes → Bytes → HttpRequest
request verb target body = record { method = verb; target = target; cookie = []; body = body }

abbrev one_post : ApiState FileList
one_post = record {
  disk = (codes "root/posts/1", codes "first") ∷ [];
  path_counts = (codes "posts", pos 1 ∷ []) ∷ [];
  res = new_response;
}

-- The status and the body of the answer.
abbrev answer : Result (ApiState FileList) → Result (ℕ × Bytes)
answer m = m >>= λ s. ok (s.res.result, s.res.body)

get_run :
    answer (
      handle_request disk_of_posts (handler false) (request get (codes "/api/posts/1") []) one_post)
    ≡ ok (200, codes "first")
unfolding handler_code
get_run = refl

list_run :
    answer
      (handle_request disk_of_posts (handler false) (request get (codes "/api/posts") []) one_post)
    ≡ ok (200, codes "[1]")
unfolding handler_code
list_run = refl

put_run :
    (handle_request disk_of_posts
        (handler true)
        (request put (codes "/api/posts/1") (codes "new"))
        one_post
      >>= λ s. ok s.disk)
    ≡ ok ((codes "root/posts/1", codes "new") ∷ [])
unfolding handler_code
put_run = refl

abbrev kept : Result (ApiState FileList) → Result (FileList × Map (List ℤ))
kept m = m >>= λ s. ok (s.disk, s.path_counts)

delete_run :
    kept (
      handle_request disk_of_posts
        (handler true)
        (request delete_ (codes "/api/posts/1") [])
        one_post)
    ≡ ok ([], (codes "posts", []) ∷ [])
unfolding handler_code
delete_run = refl

handle_request-refused_example :
    handle_request disk_of_posts
      (handler false)
      (request delete_ (codes "/api/posts/1") [])
      one_post
    ≡ ok (record one_post { res = bad_request new_response })
handle_request-refused_example =
    handle_request-refused disk_of_posts (handler false) (request delete_ (codes "/api/posts/1") [])
      one_post refl by_delete

posts-IsEntity : IsEntity (codes "posts")
unfolding handler_code
posts-IsEntity = (λ e. cc, refl)

posts_there :
    FileSystem.exists disk_of_posts one_post.disk (slash_join (codes "root") (codes "posts")) ≡ true
unfolding handler_code
posts_there = refl

posts_numbers : (map_index [] (codes "posts") one_post.path_counts).0 ≡ ids (1 ∷ [])
unfolding handler_code
posts_numbers = refl

handle_request-post_example :
    (n : ℕ) × (ms : List ℕ) × (handle_request disk_of_posts
        (handler true)
        (request post (codes "/api/posts") (codes "second"))
        one_post
      ≡ ok (record {
        disk =
            map_set
              (slash_join (slash_join (codes "root") (codes "posts")) (to_decimal (pos n)))
              (codes "second")
              one_post.disk;
        path_counts = map_set (codes "posts") (ids ms) one_post.path_counts;
        res =
            respond 201
              (created_page (slash_join (codes "root") (codes "posts")) (pos n))
              text_html
              new_response;
      }))
    × IsNext (1 ∷ []) ms n
handle_request-post_example =
    handle_request-post disk_of_posts (handler true)
      (request post (codes "/api/posts") (codes "second")) one_post (codes "posts") (1 ∷ []) refl
      refl refl posts-IsEntity posts_there posts_numbers (ascending (omega arith, tt))
      (omega arith, tt)

posts_writable :
    (n : ℕ)
    → (slash_join (slash_join (codes "root") (codes "posts")) (to_decimal (pos n))
        =s= posts_directory)
      ≡ false
unfolding ◌=s=◌
posts_writable n = refl

abbrev second_post : HttpRequest
second_post = request post (codes "/api/posts") (codes "second")
