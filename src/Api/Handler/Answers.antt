-- ===== src/Api/Handler/Answers.antt =====
-- The form of the answers of src/request_api_handler.cc.
use boost_web_server.Common.{
  ◌≡◌, inl, inr, Bool, true, false, [], arith, if◌then◌else◌, Bool-cases, drop, Bytes, rfind,
  before_at, after_at, ℤ, stoi, map_index, Result, ok, err, Result-cases, ◌>>=◌,
}
use boost_web_server.FileSystem.{FileSystem, content}
use boost_web_server.Http.{Verb, get, post, put, delete_, other, HttpRequest, respond, text_html}
use boost_web_server.Http.Reply.{stock_reply}
use boost_web_server.Http.Formed.{is_formed, is_formed-respond, ok_known, created_known, bad_known}
use boost_web_server.Api.{has_id}
use boost_web_server.Api.Handler.{
  ApiState, ApiHandler, slash_join, bad_request, list_body, get_next_id, created_page, has_slash,
  send_bad_request, post_file, handle_post, with_file, erase_number, handle_delete, handle_get,
  handle_list, handle_put, dispatch, handle_request,
}

module _ (fs : FileSystem) (h : ApiHandler) (s : ApiState (FileSystem.Disk fs)) where
  open fs use {Disk, read_file, create_directory, remove}

  -- An answer of the API is formed.
  abbrev pub Forms : Result (ApiState Disk) → Type 0
  Forms (ok t) = is_formed t.res ≡ true
  Forms (err _) = Unit

  bad-formed : is_formed (bad_request s.res) ≡ true
  unfolding bad_request
  bad-formed = is_formed-respond 400 (stock_reply 400) text_html s.res bad_known

  good-formed : (text : Bytes) → is_formed (respond 200 text text_html s.res) ≡ true
  good-formed text = is_formed-respond 200 text text_html s.res ok_known

  get-Forms : (directory : Bytes) → Forms (handle_get fs h directory s)
  unfolding handle_get with_file
  get-Forms directory =
      ground
        (arith, bad-formed, good-formed (content (read_file s.disk (slash_join h.root_ directory))))

  list-Forms : (directory : Bytes) → Forms (handle_list fs h directory s)
  unfolding handle_list
  list-Forms directory = ground (
    arith,
    bad-formed,
    good-formed
        (list_body (map_index [] (before_at (rfind b'/' directory) directory) s.path_counts).0),
  )

  put-Forms : (directory body : Bytes) → Forms (handle_put fs h directory body s)
  unfolding handle_put with_file
  put-Forms directory body = ground (arith, bad-formed, good-formed body)

  erase-Forms :
      (entity : Bytes) (id : ℤ) (disk : Disk)
      → Forms (erase_number fs h entity id (record s { disk = disk }))
  unfolding erase_number
  erase-Forms entity id disk = elim (Bool-cases (has_id id (map_index [] entity s.path_counts).0)) [
    | inl used ↦ rw used (good-formed _)
    | inr unused ↦ rw unused bad-formed
  ]

  removed-Forms :
      (entity : Bytes) (id : ℤ) (removed : Result (Disk × Bool))
      → Forms (
          removed >>= λ r.
          if r.1
          then erase_number fs h entity id (record s { disk = r.0 })
          else send_bad_request fs h (record s { disk = r.0 }))
  removed-Forms entity id (err fault) = tt
  removed-Forms entity id (ok (disk, true)) = erase-Forms entity id disk
  removed-Forms entity id (ok (disk, false)) = bad-formed

  delete-Forms : (directory : Bytes) → Forms (handle_delete fs h directory s)
  unfolding handle_delete with_file
  delete-Forms directory =
      let found = rfind b'/' directory in
      elim (Result-cases (stoi (after_at found directory))) [
        | inl (id, read) ↦ ground (
          arith,
          bad-formed,
          removed-Forms (before_at found directory) id
              (remove s.disk (slash_join h.root_ directory)),
        )
        | inr (fault, read) ↦ ground (arith, bad-formed)
      ]

  post_file-Forms :
      (path directory body : Bytes) (disk : Disk)
      → Forms (post_file fs h path directory body (record s { disk = disk }))
  unfolding post_file
  post_file-Forms path directory body disk =
      elim (Result-cases (get_next_id directory s.path_counts)) [
        | inl ((counts, id), got) ↦
            rw got (is_formed-respond 201 (created_page path id) text_html s.res created_known)
        | inr (fault, got) ↦ rw got tt
      ]

  post-Forms : (directory body : Bytes) → Forms (handle_post fs h directory body s)
  unfolding handle_post
  post-Forms directory body =
      let path = slash_join h.root_ directory in
      ground (
        arith,
        bad-formed,
        post_file-Forms path directory body s.disk,
        post_file-Forms path directory body (create_directory s.disk path).0,
      )

  dispatch-Forms :
      (v : Verb) (slash : Bool) (directory body : Bytes)
      → Forms (dispatch fs h v slash directory body s)
  unfolding dispatch
  dispatch-Forms post slash directory body = ground (arith, bad-formed, post-Forms directory body)
  dispatch-Forms get slash directory body =
      ground (arith, get-Forms directory, list-Forms directory)
  dispatch-Forms put slash directory body = ground (arith, bad-formed, put-Forms directory body)
  dispatch-Forms delete_ slash directory body = ground (arith, bad-formed, delete-Forms directory)
  dispatch-Forms other slash directory body = bad-formed

  pub request-Forms : (req : HttpRequest) → Forms (handle_request fs h req s)
  unfolding handle_request
  request-Forms req = ground (
    arith,
    bad-formed,
    dispatch-Forms req.method (has_slash (drop 5 req.target)) (drop 5 req.target) req.body,
  )
