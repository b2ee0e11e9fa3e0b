-- ===== src/Service/ReadBack.antt =====
-- A POST and then a GET through the whole of src/session.cc: the second handler scans the disk that
-- the first one wrote.
mod Tests
use boost_web_server.Common.{
  ℕ, ◌<◌, ◌≡◌, refl, sym, ◌∙◌, Bool, true, some, List, [], ◌∷◌, ◌++◌, append_assoc, Bytes, codes,
  =s=_refl, ℤ, pos, to_decimal, Map, map_find, map_set, map_index, map_find-set, ok,
}
use boost_web_server.FileSystem.{FileSystem}
use boost_web_server.FileSystem.Laws.{FileLaws}
use boost_web_server.Http.{get, post, HttpRequest, new_response, UserProfile, respond, text_html}
use boost_web_server.Api.{has_id}
use boost_web_server.Api.Ids.{ids, IsBounded, next_number, next_id-eq-next_number, next_number-lt}
use boost_web_server.Api.Order.{IsOrdered, next_number-IsNext}
use boost_web_server.Api.Rescan.{is_used, is_used-map_has, new_api_handler-is_used}
use boost_web_server.Api.Scan.{new_api_handler}
use boost_web_server.Api.Handler.{ApiState, ApiHandler, slash_join, handle_request}
use boost_web_server.Api.Handler.Post.{IsEntity, posted, request-posted}
use boost_web_server.Api.Handler.ReadBack.{
  has_id-front, map_index-set, file_path, get_number, request_number,
}
use boost_web_server.Profile.{update_user}
use boost_web_server.Authentication.{MailServer}
use boost_web_server.Server.{Factory}
use boost_web_server.Session.{match}
use boost_web_server.Service.{
  World, api_below, create, new_user, counts_at, construct, answer_api, answer_request,
  write_to_socket, answer_route, handle_read,
}

pub counts_at-set {ℓ} :
    {V : Type ℓ} (location : Bytes) (numbers : Map V) (counts : Map (Map V))
    → counts_at location (map_set location numbers counts) ≡ numbers
unfolding counts_at map_index
counts_at-set location numbers counts =
    rw (map_find-set location location numbers counts, =s=_refl location, counts_at, map_index)

module _ (fs : FileSystem) (hash_pass : Bytes → Bytes) (server : MailServer)
    (write_request : HttpRequest → Bytes) (params : Bytes → List (Bytes × Bytes))
    (routes : Map Factory) (location root : Bytes) (f : Factory) where
  open fs use {Disk, exists, write_file}

  -- A request to an API route: the handler scans the disk and answers.
  pub api_read :
      (req : HttpRequest) (w : World Disk) (found : Bool) (user : UserProfile)
      (counts : Map (List ℤ)) (t : ApiState Disk)
      → update_user (params req.cookie) new_user ≡ ok (found, user)
      → match routes req.target ≡ some location
      → map_find location routes ≡ some f
      → create f location ≡ api_below root
      → new_api_handler fs w.disk root (counts_at location w.counts) ≡ ok counts
      → handle_request fs
          (record { root_ = root; profile_ = user })
          req
          (record { disk = w.disk; path_counts = counts; res = new_response })
        ≡ ok t
      → handle_read fs hash_pass server write_request params true routes req w
        ≡ ok (
          record {
            disk = t.disk;
            counts = map_set location t.path_counts (map_set location counts w.counts);
            sent = w.sent;
          },
          some t.res,
        )
  unfolding handle_read answer_route construct write_to_socket answer_request answer_api
  api_read req w found user counts t who at known is_api scanned run = rw (
    who,
    handle_read,
    at,
    answer_route,
    known,
    is_api,
    construct,
    scanned,
    write_to_socket,
    answer_request,
    answer_api,
    counts_at-set location counts w.counts,
    run,
  )

  module _ (laws : FileLaws fs) where
    open laws use {IsWritable, read-write, exists-write, is_directory-write}

    -- A GET of a number in use whose file was written.
    pub get_posted :
        (get_req : HttpRequest) (disk : Disk) (directory body : Bytes) (n : ℕ)
        (reader : UserProfile) (counts : Map (List ℤ))
        → get_req.method ≡ get
        → get_req.target ≡ codes "/api/" ++ (directory ++ (b'/' ∷ to_decimal (pos n)))
        → n < 0x80000000
        → IsWritable disk (slash_join (slash_join root directory) (to_decimal (pos n)))
        → is_used directory (pos n) counts ≡ true
        → handle_request fs
            (record { root_ = root; profile_ = reader })
            get_req
            (record {
              disk =
                  write_file disk
                    (slash_join (slash_join root directory) (to_decimal (pos n)))
                    body;
              path_counts = counts;
              res = new_response;
            })
          ≡ ok (record {
            disk =
                write_file disk (slash_join (slash_join root directory) (to_decimal (pos n))) body;
            path_counts = counts;
            res = respond 200 body text_html new_response;
          })
    get_posted get_req disk directory body n reader counts is_get get_target small can used =
        let path = slash_join (slash_join root directory) (to_decimal (pos n)) in
        let h : ApiHandler = record { root_ = root; profile_ = reader } in
        let s : ApiState Disk = record {
          disk = write_file disk path body;
          path_counts = counts;
          res = new_response;
        } in
        let same : file_path fs h s directory n body ≡ path =
          sym (append_assoc root (b'/' ∷ directory) (b'/' ∷ to_decimal (pos n))) in
        request_number fs h s directory n body get_req is_get get_target
        ∙ get_number fs h s directory n body small (rw same (exists-write disk path body can))
            (rw same (is_directory-write disk path body can))
            (rw same (read-write disk path body can))
            (is_used-map_has directory (pos n) counts used) used

    -- A POST by a user who is logged in, to an entity of an API route that has a name without a
    -- slash and whose directory exists, is answered by 201, and a GET of the number that it gave
    -- out is then answered by 200 with the body of the POST, whoever asks, and leaves the disk as
    -- it is: the number and the file survive the scan that the handler of the GET makes. Both
    -- scans succeed, and the first finds numbers that are in the server's order, each with a
    -- successor in `int`; the file can be written.
    pub handle_read-post_get :
        (post_req get_req : HttpRequest) (w : World Disk) (directory : Bytes) (ns : List ℕ)
        (found found' : Bool) (user reader : UserProfile) (counts counts' : Map (List ℤ))
        → update_user (params post_req.cookie) new_user ≡ ok (found, user)
        → user.login_status ≡ true
        → update_user (params get_req.cookie) new_user ≡ ok (found', reader)
        → match routes post_req.target ≡ some location
        → match routes get_req.target ≡ some location
        → map_find location routes ≡ some f
        → create f location ≡ api_below root
        → post_req.method ≡ post
        → post_req.target ≡ codes "/api/" ++ directory
        → get_req.method ≡ get
        → get_req.target
          ≡ codes "/api/" ++ (directory ++ (b'/' ∷ to_decimal (pos (next_number ns).1)))
        → IsEntity directory
        → exists w.disk (slash_join root directory) ≡ true
        → IsWritable w.disk
            (slash_join (slash_join root directory) (to_decimal (pos (next_number ns).1)))
        → new_api_handler fs w.disk root (counts_at location w.counts) ≡ ok counts
        → (map_index [] directory counts).0 ≡ ids ns
        → IsOrdered ns
        → IsBounded ns
        → new_api_handler fs
            (write_file w.disk
              (slash_join (slash_join root directory) (to_decimal (pos (next_number ns).1)))
              post_req.body)
            root
            (map_set directory (ids (next_number ns).0) counts)
          ≡ ok counts'
        → (w' w'' : World Disk) × (page : Bytes) × (handle_read fs hash_pass server write_request
              params true routes post_req w
            ≡ ok (w', some (respond 201 page text_html new_response)))
          × (handle_read fs hash_pass server write_request params true routes get_req w'
              ≡ ok (w'', some (respond 200 post_req.body text_html new_response)))
          × (w''.disk ≡ w'.disk)
    handle_read-post_get post_req get_req w directory ns found found' user reader counts counts' who
          logged_in who' at at' known is_api is_post post_target is_get get_target entity there can
          scanned numbers o b scanned' =
        let n = (next_number ns).1 in
        let ms = (next_number ns).0 in
        let h : ApiHandler = record { root_ = root; profile_ = user } in
        let s : ApiState Disk = record {
          disk = w.disk;
          path_counts = counts;
          res = new_response;
        } in
        let t = posted fs h post_req s directory ms n in
        let w' : World Disk = record {
          disk = t.disk;
          counts = map_set location t.path_counts (map_set location counts w.counts);
          sent = w.sent;
        } in
        let inserted = (next_number-IsNext ns o).inserted in
        let in_list : has_id (pos n) (ids ms) ≡ true =
          rw inserted.after_lem (has_id-front n inserted.front inserted.behind) in
        (
          w',
          _,
          _,
          api_read post_req w found user counts t who at known is_api scanned (
              request-posted fs h post_req s directory ns ms n logged_in is_post post_target entity
                there numbers (next_id-eq-next_number ns b)),
          api_read get_req w' found' reader counts' _ who' at' known is_api
              (rw (counts_at-set location t.path_counts (map_set location counts w.counts))
                scanned')
              (get_posted get_req w.disk directory post_req.body n reader counts' is_get get_target
                (next_number-lt ns b) can
                (new_api_handler-is_used fs t.disk root directory (pos n) t.path_counts counts'
                  scanned' (rw (map_index-set directory (ids ms) counts) in_list))),
          refl,
        )
