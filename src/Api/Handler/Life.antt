-- ===== src/Api/Handler/Life.antt =====
-- The file of a number from a PUT to its DELETE in src/request_api_handler.cc.
mod Tests
use boost_web_server.Common.{
  ℕ, ◌<◌, ◌≡◌, refl, ◌∙◌, true, false, [], ◌∷◌, ◌++◌, if◌then◌else◌, Bytes, codes, ℤ, pos,
  to_decimal, stoi-to_decimal, map_has, map_set, map_index, Result, ok, ◌>>=◌, rfind-last,
  take_front, drop_front, number-NoSlash,
}
use boost_web_server.FileSystem.{FileSystem}
use boost_web_server.FileSystem.Laws.{FileLaws, RemovalLaws}
use boost_web_server.Http.{
  get, put, delete_, HttpRequest, Response, UserProfile, respond, text_html,
}
use boost_web_server.Api.{has_id, erase_id}
use boost_web_server.Api.Handler.{
  ApiState, ApiHandler, slash_join, bad_request, deleted_page, send_bad_request, with_file,
  erase_number, handle_delete, handle_get, handle_put, dispatch, handle_request,
}
use boost_web_server.Api.Handler.ReadBack.{
  has_slash-path, is_api_target-path, get_number, request_number,
}

-- A number behind its entity, as in a target.
abbrev pub number_text : Bytes → ℕ → Bytes
number_text directory n = directory ++ (b'/' ∷ to_decimal (pos n))

module _ (fs : FileSystem) (h : ApiHandler) (directory : Bytes) (n : ℕ) where
  open fs use {Disk, exists, is_directory, read_file, write_file, remove}

  abbrev pub text_path : Bytes
  text_path = slash_join h.root_ (number_text directory n)

  request-dispatch :
      (req : HttpRequest) (s : ApiState Disk)
      → req.target ≡ codes "/api/" ++ number_text directory n
      → handle_request fs h req s
        ≡ dispatch fs h req.method true (number_text directory n) req.body s
  unfolding handle_request
  request-dispatch req s target = rw (
    target,
    is_api_target-path directory (to_decimal (pos n)),
    has_slash-path directory (to_decimal (pos n)),
    handle_request,
  )

  with_file-number :
      (go : Bytes → ℤ → Result (ApiState Disk)) (s : ApiState Disk)
      → n < 0x80000000
      → exists s.disk text_path ≡ true
      → is_directory s.disk text_path ≡ false
      → with_file fs h (number_text directory n) go s ≡ go directory (pos n)
  unfolding with_file
  with_file-number go s small there file =
      let last = rfind-last directory (to_decimal (pos n)) (number-NoSlash n) in
      let front = take_front directory (b'/' ∷ to_decimal (pos n)) in
      let behind = drop_front directory (to_decimal (pos n)) b'/' in
      rw (last, there, file, behind, stoi-to_decimal n small, last, front, with_file)

  put-number :
      (body : Bytes) (s : ApiState Disk)
      → h.profile_.login_status ≡ true
      → n < 0x80000000
      → exists s.disk text_path ≡ true
      → is_directory s.disk text_path ≡ false
      → dispatch fs h put true (number_text directory n) body s
        ≡ ok (record s {
          disk = write_file s.disk text_path body;
          res = respond 200 body text_html s.res;
        })
  unfolding dispatch handle_put
  put-number body s logged_in small there file =
      let found =
        with_file-number
          (λ entity id. ok (record s {
            disk = write_file s.disk text_path body;
            res = respond 200 body text_html s.res;
          }))
          s small there file in
      rw logged_in found

  abbrev erased : ApiState Disk → Disk → ApiState Disk
  erased s disk' = record s {
    disk = disk';
    path_counts =
        map_set directory (erase_id (pos n) (map_index [] directory s.path_counts).0) s.path_counts;
    res = respond 200 deleted_page text_html s.res;
  }

  erase-number :
      (s : ApiState Disk) (disk' : Disk)
      → has_id (pos n) (map_index [] directory s.path_counts).0 ≡ true
      → erase_number fs h directory (pos n) (record s { disk = disk' }) ≡ ok (erased s disk')
  unfolding erase_number
  erase-number s disk' used = rw used

  delete-number :
      (body : Bytes) (s : ApiState Disk) (disk' : Disk)
      → h.profile_.login_status ≡ true
      → n < 0x80000000
      → exists s.disk text_path ≡ true
      → is_directory s.disk text_path ≡ false
      → map_has directory s.path_counts ≡ true
      → has_id (pos n) (map_index [] directory s.path_counts).0 ≡ true
      → remove s.disk text_path ≡ ok (disk', true)
      → dispatch fs h delete_ true (number_text directory n) body s ≡ ok (erased s disk')
  unfolding dispatch handle_delete
  delete-number body s disk' logged_in small there file known used gone =
      let found =
        with_file-number
          (λ entity id.
            if map_has entity s.path_counts
            then (remove s.disk (slash_join h.root_ (number_text directory n)) >>= λ removed.
                if removed.1
                then erase_number fs h entity id (record s { disk = removed.0 })
                else send_bad_request fs h (record s { disk = removed.0 }))
            else send_bad_request fs h s)
          s small there file in
      rw logged_in (found ∙ rw (known, gone) (erase-number s disk' used))

  get-gone :
      (s : ApiState Disk)
      → exists s.disk text_path ≡ false
      → handle_get fs h (number_text directory n) s ≡ ok (record s { res = bad_request s.res })
  unfolding handle_get with_file
  get-gone s gone = rw (gone, handle_get, with_file)

module _ (fs : FileSystem) (laws : FileLaws fs) (removal : RemovalLaws fs) (h : ApiHandler)
    (directory : Bytes) (n : ℕ) where
  open fs use {Disk, exists, is_directory, write_file}
  open laws use {IsWritable, read-write, exists-write, is_directory-write}
  open removal use {IsRemovable, IsRemovable-write, remove-exists}

  -- A PUT to the file of a number in use, by a user who is logged in, is answered by 200, and a GET by
  -- anyone then by 200 with the body of the PUT. A DELETE by the user is then answered by 200, and a
  -- GET after it by the page for 400. The file can be written and removed.
  pub handle_request-life :
      (put_req get_req delete_req : HttpRequest) (s : ApiState Disk) (reader : UserProfile)
      (res : Response)
      → h.profile_.login_status ≡ true
      → n < 0x80000000
      → put_req.method ≡ put
      → put_req.target ≡ codes "/api/" ++ number_text directory n
      → get_req.method ≡ get
      → get_req.target ≡ codes "/api/" ++ number_text directory n
      → delete_req.method ≡ delete_
      → delete_req.target ≡ codes "/api/" ++ number_text directory n
      → IsWritable s.disk (text_path fs h directory n)
      → IsRemovable s.disk (text_path fs h directory n)
      → exists s.disk (text_path fs h directory n) ≡ true
      → is_directory s.disk (text_path fs h directory n) ≡ false
      → map_has directory s.path_counts ≡ true
      → has_id (pos n) (map_index [] directory s.path_counts).0 ≡ true
      → (t u : ApiState Disk) × (handle_request fs h put_req s ≡ ok t)
        × (t.res.result ≡ 200)
        × (handle_request fs (record h { profile_ = reader }) get_req (record t { res = res })
            ≡ ok (record t { res = respond 200 put_req.body text_html res }))
        × (handle_request fs h delete_req (record t { res = res }) ≡ ok u)
        × (u.res.result ≡ 200)
        × (handle_request fs (record h { profile_ = reader }) get_req (record u { res = res })
            ≡ ok (record u { res = bad_request res }))
  handle_request-life put_req get_req delete_req s reader res logged_in small is_put put_target
        is_get get_target is_delete delete_target can removable there file known used =
      let h' = record h { profile_ = reader } in
      let path = text_path fs h directory n in
      let t : ApiState Disk = record {
        disk = write_file s.disk path put_req.body;
        path_counts = s.path_counts;
        res = respond 200 put_req.body text_html s.res;
      } in
      let there' = exists-write s.disk path put_req.body can in
      let file' = is_directory-write s.disk path put_req.body can in
      let (disk', removed, gone) =
        remove-exists t.disk path (IsRemovable-write s.disk path put_req.body removable) there' in
      let u = erased fs h directory n (record t { res = res }) disk' in
      (
        t,
        u,
        request-dispatch fs h directory n put_req s put_target
            ∙ (rw is_put (put-number fs h directory n put_req.body s logged_in small there file)),
        refl,
        request_number fs h' (record t { res = res }) directory n put_req.body get_req is_get
              get_target
            ∙ get_number fs h' (record t { res = res }) directory n put_req.body small there' file'
                (read-write s.disk path put_req.body can) known used,
        request-dispatch fs h directory n delete_req (record t { res = res }) delete_target
            ∙ (rw is_delete (
                delete-number fs h directory n delete_req.body (record t { res = res }) disk'
                  logged_in small there' file' known used removed)),
        refl,
        request_number fs h' (record u { res = res }) directory n put_req.body get_req is_get
              get_target
            ∙ get-gone fs h' directory n (record u { res = res }) gone,
      )
