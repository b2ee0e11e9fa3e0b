-- ===== src/Api/Handler.antt =====
-- The handlers of src/request_api_handler.cc.
pub mod Access
pub mod Listing
pub mod Post
pub mod Answers
pub mod ReadBack
pub mod Life
mod Tests
use boost_web_server.Common.{
  ℕ, Bool, true, false, not, ◌&&◌, none, some, List, [], ◌∷◌, ◌++◌, if◌then◌else◌, take, drop,
  Bytes, codes, ◌=s=◌, rfind, find, before_at, after_at, ℤ, stoi, to_decimal, Map, map_has, map_set,
  map_index, Result, ok, err, ◌>>=◌,
}
use boost_web_server.FileSystem.{FileSystem, content}
use boost_web_server.Http.{
  Verb, get, post, put, delete_, other, HttpRequest, Response, UserProfile, respond, text_html,
}
use boost_web_server.Http.Reply.{stock_reply}
use boost_web_server.Api.{next_id, has_id, erase_id}

-- What a request reads and changes: the disk, the factory's `path_counts`, and the response.
pub record ApiState (Disk : Type 0) : Type 0 where
  pub disk : Disk
  pub path_counts : Map (List ℤ)
  pub res : Response

-- The fields of the handler that its answers depend on.
pub record ApiHandler : Type 0 where
  pub root_ : Bytes
  pub profile_ : UserProfile

abbrev pub slash_join : Bytes → Bytes → Bytes
slash_join a b = a ++ (b'/' ∷ b)

unfoldable pub bad_request : Response → Response
unfolding stock_reply
bad_request res = respond 400 (stock_reply 400) text_html res

-- The text of a list of numbers: a bracket, each number with a comma, and then a bracket over the
-- last byte.
unfoldable pub with_commas : List ℤ → Bytes
with_commas [] = []
with_commas (i ∷ is) = to_decimal i ++ (b',' ∷ with_commas is)

unfoldable pub replace_last : ℕ → Bytes → Bytes
replace_last c [] = c ∷ []
replace_last c (x ∷ []) = c ∷ []
replace_last c (x ∷ y ∷ s) = x ∷ replace_last c (y ∷ s)

unfoldable pub list_body : List ℤ → Bytes
unfolding with_commas replace_last
list_body is = replace_last b']' (b'[' ∷ with_commas is)

-- `getNextID`
unfoldable pub get_next_id : Bytes → Map (List ℤ) → Result (Map (List ℤ) × ℤ)
get_next_id directory counts = do
  r ← next_id (map_index [] directory counts).0
  ok (map_set directory r.0 counts, r.1)

-- The page that `handle_post` writes.
unfoldable pub created_page : Bytes → ℤ → Bytes
created_page path id =
    codes "<html><head><title>Created</title></head><body><h1>201 Created file at "
    ++ (path ++ (codes " with ID " ++ (to_decimal id ++ codes "</h1></body></html>")))

-- The page that `handle_delete` writes.
abbrev pub deleted_page : Bytes
deleted_page =
    codes "<html><head><title>Deleted</title></head><body><h1>File Deleted.</h1></body></html>"

unfoldable pub is_api_target : Bytes → Bool
is_api_target target = (take 5 target =s= codes "/api/") && not (target =s= codes "/api/")

abbrev pub has_slash : Bytes → Bool
has_slash s = elim (find b'/' s) [ none ↦ false | some _ ↦ true ]

module _ (fs : FileSystem) where
  open fs use {Disk, exists, is_directory, read_file, write_file, create_directory, remove}

  module _ (h : ApiHandler) where
    abbrev pub send_bad_request : ApiState Disk → Result (ApiState Disk)
    send_bad_request s = ok (record s { res = bad_request s.res })

    -- `handle_post` behind the creation of the directory.
    unfoldable pub post_file : Bytes → Bytes → Bytes → ApiState Disk → Result (ApiState Disk)
    post_file path directory body s = do
      r ← get_next_id directory s.path_counts
      ok (record {
        disk = write_file s.disk (slash_join path (to_decimal r.1)) body;
        path_counts = r.0;
        res = respond 201 (created_page path r.1) text_html s.res;
      })

    unfoldable pub handle_post : Bytes → Bytes → ApiState Disk → Result (ApiState Disk)
    handle_post directory body s =
        let path = slash_join h.root_ directory in
        let made = create_directory s.disk path in
        if exists s.disk path
        then post_file path directory body s
        else if made.1
        then post_file path directory body (record s { disk = made.0 })
        else send_bad_request (record s { disk = made.0 })

    -- `GET`, `PUT` and `DELETE` of a file begin alike: the path must exist and not be a
    -- directory, and the text behind its last slash must convert to a number.
    unfoldable pub with_file :
        Bytes → (Bytes → ℤ → Result (ApiState Disk)) → ApiState Disk → Result (ApiState Disk)
    with_file directory go s =
        let found = rfind b'/' directory in
        let path = slash_join h.root_ directory in
        if not (exists s.disk path)
        then send_bad_request s
        else if is_directory s.disk path
        then send_bad_request s
        else elim (stoi (after_at found directory)) [
          | err _ ↦ send_bad_request s
          | ok id ↦ go (before_at found directory) id
        ]

    -- `handle_delete` behind the removal of the file.
    unfoldable pub erase_number : Bytes → ℤ → ApiState Disk → Result (ApiState Disk)
    erase_number entity id s =
        let numbers = (map_index [] entity s.path_counts).0 in
        if has_id id numbers
        then ok (record s {
          path_counts = map_set entity (erase_id id numbers) s.path_counts;
          res = respond 200 deleted_page text_html s.res;
        })
        else send_bad_request s

    unfoldable pub handle_delete : Bytes → ApiState Disk → Result (ApiState Disk)
    unfolding with_file erase_number
    handle_delete directory s =
        with_file directory
          (λ entity id.
            if map_has entity s.path_counts
            then (remove s.disk (slash_join h.root_ directory) >>= λ removed.
                if removed.1
                then erase_number entity id (record s { disk = removed.0 })
                else send_bad_request (record s { disk = removed.0 }))
            else send_bad_request s)
          s

    unfoldable pub handle_get : Bytes → ApiState Disk → Result (ApiState Disk)
    unfolding with_file
    handle_get directory s =
        with_file directory
          (λ entity id.
            if map_has entity s.path_counts && has_id id (map_index [] entity s.path_counts).0
            then ok (record s {
              res =
                  respond 200 (content (read_file s.disk (slash_join h.root_ directory))) text_html
                    s.res;
            })
            else send_bad_request s)
          s

    unfoldable pub handle_list : Bytes → ApiState Disk → Result (ApiState Disk)
    handle_list directory s =
        let entity = before_at (rfind b'/' directory) directory in
        if not (is_directory s.disk (slash_join h.root_ directory))
        then send_bad_request s
        else if map_has entity s.path_counts
        then ok (record s {
          res = respond 200 (list_body (map_index [] entity s.path_counts).0) text_html s.res;
        })
        else send_bad_request s

    unfoldable pub handle_put : Bytes → Bytes → ApiState Disk → Result (ApiState Disk)
    unfolding with_file
    handle_put directory body s =
        with_file directory
          (λ entity id. ok (record s {
            disk = write_file s.disk (slash_join h.root_ directory) body;
            res = respond 200 body text_html s.res;
          }))
          s

    -- The `switch` of `handle_request`; the flag is `directory.find("/") != -1`.
    unfoldable pub dispatch : Verb → Bool → Bytes → Bytes → ApiState Disk → Result (ApiState Disk)
    dispatch post slash directory body s =
        if slash
        then send_bad_request s
        else if not h.profile_.login_status
        then send_bad_request s
        else handle_post directory body s
    dispatch get slash directory body s =
        if slash then handle_get directory s else handle_list directory s
    dispatch put slash directory body s =
        if not slash
        then send_bad_request s
        else if not h.profile_.login_status
        then send_bad_request s
        else handle_put directory body s
    dispatch delete_ slash directory body s =
        if not slash
        then send_bad_request s
        else if not h.profile_.login_status
        then send_bad_request s
        else handle_delete directory s
    dispatch other slash directory body s = send_bad_request s

    unfoldable pub handle_request : HttpRequest → ApiState Disk → Result (ApiState Disk)
    unfolding dispatch
    handle_request req s =
        let directory = drop 5 req.target in
        if is_api_target req.target
        then dispatch req.method (has_slash directory) directory req.body s
        else send_bad_request s
