-- ===== src/Api/Handler/Life/Tests.antt =====
-- A PUT, a GET, a DELETE and a GET at src/request_api_handler.cc.
use boost_web_server.Common.{
  ◌≡◌, refl, true, false, [], ◌∷◌, ◌++◌, arith, Bytes, codes, ◌=s=◌, pos, to_decimal, int_eq,
  map_find, map_has, map_index, ok,
}
use boost_web_server.FileSystem.{FileSystem}
use boost_web_server.FileSystem.Memory.{
  FileList, files_below, files_below-FileLaws, files_below-RemovalLaws,
}
use boost_web_server.Http.{
  Verb, get, put, delete_, HttpRequest, new_response, UserProfile, respond, text_html,
}
use boost_web_server.Api.{has_id}
use boost_web_server.Api.Handler.{ApiState, ApiHandler, bad_request, handle_request}
use boost_web_server.Api.Handler.Life.{number_text, text_path, handle_request-life}

life_code : Unit {0}
unfolding ◌=s=◌ to_decimal map_find map_has map_index has_id int_eq
life_code = tt

abbrev fs : FileSystem
fs = files_below (codes "root/posts")

abbrev ann : UserProfile
ann = record { user_id = pos 1; username = codes "Ann"; email = codes "a@x"; login_status = true }

abbrev nobody : UserProfile
nobody = record { user_id = pos 0; username = []; email = []; login_status = false }

abbrev handler : UserProfile → ApiHandler
handler user = record { root_ = codes "root"; profile_ = user }

abbrev at_one : Verb → Bytes → HttpRequest
at_one verb body = record { method = verb; target = codes "/api/posts/1"; cookie = []; body = body }

abbrev one_post : ApiState FileList
one_post = record {
  disk = (codes "root/posts/1", codes "first") ∷ [];
  path_counts = (codes "posts", pos 1 ∷ []) ∷ [];
  res = new_response;
}

one_target : codes "/api/posts/1" ≡ codes "/api/" ++ number_text (codes "posts") 1
unfolding life_code
one_target = refl

abbrev one_path : Bytes
one_path = text_path fs (handler ann) (codes "posts") 1

one_writable : (one_path =s= codes "root/posts") ≡ false
unfolding life_code
one_writable = refl

one_there : FileSystem.exists fs one_post.disk one_path ≡ true
unfolding life_code
one_there = refl

one_known : map_has (codes "posts") one_post.path_counts ≡ true
unfolding life_code
one_known = refl

one_used : has_id (pos 1) (map_index [] (codes "posts") one_post.path_counts).0 ≡ true
unfolding life_code
one_used = refl

handle_request-life_example :
    (t u : ApiState FileList) × (handle_request fs (handler ann) (at_one put (codes "new")) one_post
      ≡ ok t)
    × (t.res.result ≡ 200)
    × (handle_request fs (handler nobody) (at_one get []) (record t { res = new_response })
        ≡ ok (record t { res = respond 200 (codes "new") text_html new_response }))
    × (handle_request fs (handler ann) (at_one delete_ []) (record t { res = new_response }) ≡ ok u)
    × (u.res.result ≡ 200)
    × (handle_request fs (handler nobody) (at_one get []) (record u { res = new_response })
        ≡ ok (record u { res = bad_request new_response }))
handle_request-life_example =
    handle_request-life fs (files_below-FileLaws (codes "root/posts"))
      (files_below-RemovalLaws (codes "root/posts")) (handler ann) (codes "posts") 1
      (at_one put (codes "new")) (at_one get []) (at_one delete_ []) one_post nobody new_response
      refl (omega arith) refl one_target refl one_target refl one_target one_writable one_writable
      one_there one_writable one_known one_used
