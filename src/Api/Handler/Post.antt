-- ===== src/Api/Handler/Post.antt =====
-- `POST` of src/request_api_handler.cc: the new file has a number that was not in use.
use boost_web_server.Common.{
  ℕ, ◌≡◌, refl, ◌≢◌, true, none, List, [], ◌∷◌, ◌++◌, Bytes, codes, find, pos, to_decimal, map_set,
  map_index, ok, ◌=s=◌,
}
use boost_web_server.FileSystem.{FileSystem}
use boost_web_server.Http.{post, HttpRequest, respond, text_html}
use boost_web_server.Api.{next_id}
use boost_web_server.Api.Ids.{ids, IsBounded}
use boost_web_server.Api.Order.{IsOrdered, IsNext, next_id-IsNext}
use boost_web_server.Api.Handler.{
  ApiState, ApiHandler, slash_join, get_next_id, created_page, is_api_target, post_file,
  handle_post, dispatch, handle_request,
}

-- A text behind `/api/`, not empty and without a slash.
abbrev pub IsEntity : Bytes → Type 0
IsEntity directory = (directory ≢ []) × (find b'/' directory ≡ none)

is_api_target-entity :
    (directory : Bytes) → directory ≢ [] → is_api_target (codes "/api/" ++ directory) ≡ true
unfolding is_api_target ◌=s=◌
is_api_target-entity [] h = absurd (h refl)
is_api_target-entity (c ∷ s) h = refl

module _ (fs : FileSystem) (h : ApiHandler) (req : HttpRequest) (s : ApiState (FileSystem.Disk fs))
    (directory : Bytes) where
  open fs use {Disk, exists, write_file}

  -- What a POST leaves behind, for the number that `getNextID` gives.
  abbrev pub posted : List ℕ → ℕ → ApiState Disk
  posted ms n = record {
    disk =
        write_file s.disk (slash_join (slash_join h.root_ directory) (to_decimal (pos n))) req.body;
    path_counts = map_set directory (ids ms) s.path_counts;
    res = respond 201 (created_page (slash_join h.root_ directory) (pos n)) text_html s.res;
  }

  pub request-posted :
      (ns ms : List ℕ) (n : ℕ)
      → h.profile_.login_status ≡ true
      → req.method ≡ post
      → req.target ≡ codes "/api/" ++ directory
      → IsEntity directory
      → exists s.disk (slash_join h.root_ directory) ≡ true
      → (map_index [] directory s.path_counts).0 ≡ ids ns
      → next_id (ids ns) ≡ ok (ids ms, pos n)
      → handle_request fs h req s ≡ ok (posted ms n)
  unfolding handle_request dispatch handle_post post_file get_next_id find to_decimal map_set
      created_page
  request-posted ns ms n login verb target entity there numbers got =
      rw (
        verb,
        target,
        is_api_target-entity directory entity.0,
        entity.1,
        login,
        there,
        numbers,
        got,
      )

  -- A POST to an entity that has a name without a slash and whose directory exists, by a user who is
  -- logged in, is answered by 201, writes the request's body to a file named by a number and changes
  -- nothing else on the disk, and adds that number to those of the entity. The number was not in
  -- use, and the list of numbers keeps its order, if the numbers are in the server's order before and
  -- each has a successor in `int`.
  pub handle_request-post :
      (ns : List ℕ)
      → h.profile_.login_status ≡ true
      → req.method ≡ post
      → req.target ≡ codes "/api/" ++ directory
      → IsEntity directory
      → exists s.disk (slash_join h.root_ directory) ≡ true
      → (map_index [] directory s.path_counts).0 ≡ ids ns
      → IsOrdered ns
      → IsBounded ns
      → (n : ℕ) × (ms : List ℕ) × (handle_request fs h req s
          ≡ ok (record {
            disk =
                write_file s.disk
                  (slash_join (slash_join h.root_ directory) (to_decimal (pos n)))
                  req.body;
            path_counts = map_set directory (ids ms) s.path_counts;
            res = respond 201 (created_page (slash_join h.root_ directory) (pos n)) text_html s.res;
          }))
        × IsNext ns ms n
  handle_request-post ns login verb target entity there numbers o b =
      let (ms, n, got, is_next) = next_id-IsNext ns o b in
      (n, ms, request-posted ns ms n login verb target entity there numbers got, is_next)
