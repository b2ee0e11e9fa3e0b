-- ===== src/Service/Restart.antt =====
-- A POST to src/session.cc, and then a GET to a server that was started anew on the same disk.
use boost_web_server.Common.{
  ℕ, ◌≡◌, refl, Bool, true, some, List, [], ◌∷◌, ◌++◌, Bytes, codes, ℤ, pos, to_decimal, Map,
  map_find, map_index, ok, find-NoSlash,
}
use boost_web_server.Authentication.{Mail, MailServer}
use boost_web_server.FileSystem.{FileSystem}
use boost_web_server.FileSystem.Laws.{FileLaws, ListingLaws}
use boost_web_server.Http.{get, post, HttpRequest, new_response, UserProfile, respond, text_html}
use boost_web_server.Api.Ids.{ids, IsBounded, next_number, next_id-eq-next_number, next_number-lt}
use boost_web_server.Api.Order.{IsOrdered}
use boost_web_server.Api.Written.{written-is_used}
use boost_web_server.Api.Scan.{new_api_handler}
use boost_web_server.Api.Handler.{ApiState, ApiHandler, slash_join}
use boost_web_server.Api.Handler.Post.{IsEntity, posted, request-posted}
use boost_web_server.Profile.{update_user}
use boost_web_server.Server.{Factory}
use boost_web_server.Session.{match}
use boost_web_server.Service.{World, api_below, create, new_user, counts_at, handle_read}
use boost_web_server.Service.ReadBack.{api_read, get_posted}

module _ (fs : FileSystem) (hash_pass : Bytes → Bytes) (server : MailServer)
    (write_request : HttpRequest → Bytes) (params : Bytes → List (Bytes × Bytes))
    (routes : Map Factory) (location root : Bytes) (f : Factory) where
  open fs use {Disk, exists, write_file}

  module _ (laws : FileLaws fs) (listing : ListingLaws fs) where
    open laws use {IsWritable}
    open listing use {IsBelow}

    -- A POST by a user who is logged in, to an entity of an API route that has a name without a
    -- slash and whose directory exists, is answered by 201, and a GET of the number that it gave
    -- out is answered by 200 with the body of the POST by any server that has the disk that the
    -- POST left, whatever numbers this server remembers and whoever asks: by a restarted one in
    -- particular. Both scans succeed, and the first finds numbers that are in the server's order,
    -- each with a successor in `int`; the file can be written below the root, where the iterator
    -- finds it.
    pub handle_read-post_restart :
        (post_req get_req : HttpRequest) (w : World Disk) (directory : Bytes) (ns : List ℕ)
        (found found' : Bool) (user reader : UserProfile) (counts counts' : Map (List ℤ))
        (remembered : Map (Map (List ℤ))) (mails : List Mail)
        → update_user (params post_req.cookie) new_user ≡ ok (found, user)
        → user.login_status ≡ true
        → update_user (params get_req.cookie) new_user ≡ ok (found', reader)
        → match routes post_req.target ≡ some location
        → match routes get_req.target ≡ some location
        → map_find location routes ≡ some f
        → create f location ≡ api_below root
        → post_req.method ≡ post
        → post_req.target ≡ codes "/api/" ++ directory
        → get_req.method ≡ get
        → get_req.target
          ≡ codes "/api/" ++ (directory ++ (b'/' ∷ to_decimal (pos (next_number ns).1)))
        → IsEntity directory
        → exists w.disk (slash_join root directory) ≡ true
        → IsWritable w.disk
            (slash_join (slash_join root directory) (to_decimal (pos (next_number ns).1)))
        → IsBelow w.disk root
            (slash_join (slash_join root directory) (to_decimal (pos (next_number ns).1)))
        → new_api_handler fs w.disk root (counts_at location w.counts) ≡ ok counts
        → (map_index [] directory counts).0 ≡ ids ns
        → IsOrdered ns
        → IsBounded ns
        → new_api_handler fs
            (write_file w.disk
              (slash_join (slash_join root directory) (to_decimal (pos (next_number ns).1)))
              post_req.body)
            root
            (counts_at location remembered)
          ≡ ok counts'
        → (w' w'' : World Disk) × (page : Bytes) × (handle_read fs hash_pass server write_request
              params true routes post_req w
            ≡ ok (w', some (respond 201 page text_html new_response)))
          × (handle_read fs hash_pass server write_request params true routes get_req
                (record { disk = w'.disk; counts = remembered; sent = mails })
              ≡ ok (w'', some (respond 200 post_req.body text_html new_response)))
          × (w''.disk ≡ w'.disk)
    handle_read-post_restart post_req get_req w directory ns found found' user reader counts counts'
          remembered mails who logged_in who' at at' known is_api is_post post_target is_get
          get_target entity there can below scanned numbers o b scanned' =
        let n = (next_number ns).1 in
        let ms = (next_number ns).0 in
        let h : ApiHandler = record { root_ = root; profile_ = user } in
        let s : ApiState Disk = record {
          disk = w.disk;
          path_counts = counts;
          res = new_response;
        } in
        let t = posted fs h post_req s directory ms n in
        let small = next_number-lt ns b in
        (
          _,
          _,
          _,
          api_read fs hash_pass server write_request params routes location root f post_req w found
              user counts t who at known is_api scanned
              (request-posted fs h post_req s directory ns ms n logged_in is_post post_target entity
                there numbers (next_id-eq-next_number ns b)),
          api_read fs hash_pass server write_request params routes location root f get_req
              (record { disk = t.disk; counts = remembered; sent = mails }) found' reader counts' _
              who' at' known is_api scanned'
              (get_posted fs hash_pass server write_request params routes location root f laws
                get_req w.disk directory post_req.body n reader counts' is_get get_target small can
                (written-is_used fs listing w.disk root directory post_req.body n
                  (counts_at location remembered) counts' small (find-NoSlash directory entity.1)
                  below scanned')),
          refl,
        )
