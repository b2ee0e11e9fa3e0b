-- ===== src/Api/Handler/ReadBack.antt =====
-- A file that a POST to src/request_api_handler.cc made can be read by a GET.
use boost_web_server.Common.{
  ℕ, ◌<◌, ◌≡◌, refl, sym, ◌∙◌, true, false, some, List, [], ◌∷◌, ◌++◌, append_assoc, arith, Bytes,
  codes, =s=_refl, find, ℤ, pos, to_decimal, int_eq, stoi-to_decimal, Map, map_has, map_set,
  map_index, map_find-set, ok, rfind-last, take_front, drop_front, number-NoSlash, ◌=s=◌,
}
use boost_web_server.Common.{◌=s=◌}
use boost_web_server.Api.{has_id}
use boost_web_server.Api.Ids.{ids, IsBounded, next_number, next_id-eq-next_number, next_number-lt}
use boost_web_server.Api.Handler.{
  ApiState, ApiHandler, slash_join, is_api_target, has_slash, with_file, handle_get, dispatch,
  handle_request,
}
use boost_web_server.FileSystem.{FileSystem}
use boost_web_server.Http.{get, post, HttpRequest, Response, UserProfile, respond, text_html}
use boost_web_server.FileSystem.Laws.{FileLaws}
use boost_web_server.Api.Order.{IsOrdered, next_number-IsNext}
use boost_web_server.Api.Handler.Post.{IsEntity, posted, request-posted}

pub has_slash-path : (a b : Bytes) → has_slash (a ++ (b'/' ∷ b)) ≡ true
unfolding find
has_slash-path [] b = refl
has_slash-path (c ∷ a) b = ground (arith, has_slash-path a b)

pub has_id-front :
    (n : ℕ) (front behind : List ℕ) → has_id (pos n) (ids (front ++ (n ∷ behind))) ≡ true
unfolding has_id int_eq
has_id-front n [] behind = ground arith
has_id-front n (m ∷ front) behind = ground (arith, has_id-front n front behind)

pub is_api_target-path : (a b : Bytes) → is_api_target (codes "/api/" ++ (a ++ (b'/' ∷ b))) ≡ true
unfolding is_api_target ◌=s=◌
is_api_target-path [] b = refl
is_api_target-path (c ∷ a) b = refl

pub map_index-set :
    (k : Bytes) (v : List ℤ) (m : Map (List ℤ)) → (map_index [] k (map_set k v m)).0 ≡ v
unfolding map_index
map_index-set k v m = rw (map_find-set k k v m, =s=_refl k, map_index)

pub map_has-set : (k : Bytes) (v : List ℤ) (m : Map (List ℤ)) → map_has k (map_set k v m) ≡ true
unfolding map_has
map_has-set k v m = ground (arith, map_find-set k k v m, =s=_refl k)

module _ (fs : FileSystem) (h : ApiHandler) (s : ApiState (FileSystem.Disk fs)) (directory : Bytes)
    (n : ℕ) (text : Bytes) where
  open fs use {Disk, exists, is_directory, read_file}

  abbrev pub file_path : Bytes
  file_path = slash_join h.root_ (directory ++ (b'/' ∷ to_decimal (pos n)))

  -- A GET of a file with a number in use.
  pub get_number :
      n < 0x80000000
      → exists s.disk file_path ≡ true
      → is_directory s.disk file_path ≡ false
      → read_file s.disk file_path ≡ some text
      → map_has directory s.path_counts ≡ true
      → has_id (pos n) (map_index [] directory s.path_counts).0 ≡ true
      → handle_get fs h (directory ++ (b'/' ∷ to_decimal (pos n))) s
        ≡ ok (record s { res = respond 200 text text_html s.res })
  unfolding handle_get with_file
  get_number b there file found known used =
      let last = rfind-last directory (to_decimal (pos n)) (number-NoSlash n) in
      let front = take_front directory (b'/' ∷ to_decimal (pos n)) in
      let behind = drop_front directory (to_decimal (pos n)) b'/' in
      rw (
        last,
        there,
        file,
        behind,
        stoi-to_decimal n b,
        last,
        front,
        known,
        used,
        found,
        handle_get,
        with_file,
      )

  pub request_number :
      (req : HttpRequest)
      → req.method ≡ get
      → req.target ≡ codes "/api/" ++ (directory ++ (b'/' ∷ to_decimal (pos n)))
      → handle_request fs h req s ≡ handle_get fs h (directory ++ (b'/' ∷ to_decimal (pos n))) s
  unfolding handle_request dispatch
  request_number req verb target = rw (
    verb,
    target,
    is_api_target-path directory (to_decimal (pos n)),
    has_slash-path directory (to_decimal (pos n)),
    handle_request,
    dispatch,
  )

-- The request to read the file with a number.
abbrev pub get_request : Bytes → Bytes → Bytes → ℕ → HttpRequest
get_request directory cookie body n = record {
  method = get;
  target = codes "/api/" ++ (directory ++ (b'/' ∷ to_decimal (pos n)));
  cookie = cookie;
  body = body;
}

module _ (fs : FileSystem) (laws : FileLaws fs) (h : ApiHandler) (req : HttpRequest)
    (s : ApiState (FileSystem.Disk fs)) (directory : Bytes) where
  open fs use {Disk, exists}
  open laws use {IsWritable, read-write, exists-write, is_directory-write}

  -- A POST to an entity whose directory exists, by a user who is logged in, is answered by 201, and
  -- a GET of the number that it gave out, by anyone, is then answered by 200 with the body of the
  -- POST, and changes nothing. The numbers of the entity are in the server's order and small
  -- enough, and a file can be written at each number's path.
  pub handle_request-post_get :
      (ns : List ℕ) (reader : UserProfile) (cookie body : Bytes) (res : Response)
      → h.profile_.login_status ≡ true
      → req.method ≡ post
      → req.target ≡ codes "/api/" ++ directory
      → IsEntity directory
      → exists s.disk (slash_join h.root_ directory) ≡ true
      → ((n : ℕ)
          → IsWritable s.disk (slash_join (slash_join h.root_ directory) (to_decimal (pos n))))
      → (map_index [] directory s.path_counts).0 ≡ ids ns
      → IsOrdered ns
      → IsBounded ns
      → (n : ℕ) × (t : ApiState Disk) × (handle_request fs h req s ≡ ok t)
        × (t.res.result ≡ 201)
        × (handle_request fs
              (record h { profile_ = reader })
              (get_request directory cookie body n)
              (record t { res = res })
            ≡ ok (record t { res = respond 200 req.body text_html res }))
  handle_request-post_get ns reader cookie body res login verb target entity there writable numbers
        o b =
      let ms = (next_number ns).0 in
      let n = (next_number ns).1 in
      let t = posted fs h req s directory ms n in
      let h' = record h { profile_ = reader } in
      let can = writable n in
      let path = slash_join (slash_join h.root_ directory) (to_decimal (pos n)) in
      let same : file_path fs h' (record t { res = res }) directory n req.body ≡ path =
        sym (append_assoc h.root_ (b'/' ∷ directory) (b'/' ∷ to_decimal (pos n))) in
      let inserted = (next_number-IsNext ns o).inserted in
      (
        n,
        t,
        request-posted fs h req s directory ns ms n login verb target entity there numbers
            (next_id-eq-next_number ns b),
        refl,
        request_number fs h' (record t { res = res }) directory n req.body
              (get_request directory cookie body n) refl refl
            ∙ get_number fs h' (record t { res = res }) directory n req.body (next_number-lt ns b)
                (rw same (exists-write s.disk path req.body can))
                (rw same (is_directory-write s.disk path req.body can))
                (rw same (read-write s.disk path req.body can))
                (map_has-set directory (ids ms) s.path_counts)
                (rw (map_index-set directory (ids ms) s.path_counts)
                  (rw inserted.after_lem (has_id-front n inserted.front inserted.behind))),
      )
