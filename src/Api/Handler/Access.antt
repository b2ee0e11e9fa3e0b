-- ===== src/Api/Handler/Access.antt =====
-- What a request to src/request_api_handler.cc may change, and who may change it.
use boost_web_server.Common.{
  ◌≡◌, refl, sym, ap, ◌∙◌, ◌⊎◌, inl, inr, Bool, false, arith, Bool-cases, drop, Bytes, Result, ok,
  err,
}
use boost_web_server.FileSystem.{FileSystem}
use boost_web_server.Http.{Verb, get, post, put, delete_, other, HttpRequest}
use boost_web_server.Api.Handler.{
  ApiState, ApiHandler, bad_request, is_api_target, has_slash, handle_get, handle_list, dispatch,
  handle_request,
}

-- The requests that only a user who is logged in may make.
pub data Changes : Verb → Type 0 where
  by_post : Changes post
  by_put : Changes put
  by_delete : Changes delete_

module _ (fs : FileSystem) (h : ApiHandler) (req : HttpRequest)
    (s : ApiState (FileSystem.Disk fs)) where
  dispatch-refused :
      {v : Verb} (slash : Bool) (directory : Bytes)
      → h.profile_.login_status ≡ false
      → Changes v
      → dispatch fs h v slash directory req.body s ≡ ok (record s { res = bad_request s.res })
  unfolding dispatch
  dispatch-refused slash directory out by_post = ground arith
  dispatch-refused slash directory out by_put = ground arith
  dispatch-refused slash directory out by_delete = ground arith

  -- A request to post, put or delete by a user who is not logged in is answered by the page for
  -- 400, whatever its target and body, and changes neither the disk nor the numbers.
  pub handle_request-refused :
      h.profile_.login_status ≡ false
      → Changes req.method
      → handle_request fs h req s ≡ ok (record s { res = bad_request s.res })
  unfolding handle_request
  handle_request-refused out c = elim (Bool-cases (is_api_target req.target)) [
    | inl e ↦ rw e (dispatch-refused (has_slash (drop 5 req.target)) (drop 5 req.target) out c)
    | inr e ↦ rw e
  ]

  -- The disk and the numbers are as before.
  abbrev IsUnchanged : Result (ApiState (FileSystem.Disk fs)) → Type 0
  IsUnchanged (ok t) = (t.disk ≡ s.disk) × (t.path_counts ≡ s.path_counts)
  IsUnchanged (err _) = ⊥

  get-IsUnchanged : (directory : Bytes) → IsUnchanged (handle_get fs h directory s)
  unfolding handle_get
  get-IsUnchanged directory = ground arith

  list-IsUnchanged : (directory : Bytes) → IsUnchanged (handle_list fs h directory s)
  unfolding handle_list
  list-IsUnchanged directory = ground arith

  request-IsUnchanged : req.method ≡ get → IsUnchanged (handle_request fs h req s)
  unfolding handle_request dispatch
  request-IsUnchanged e =
      rw e
        (ground (arith, get-IsUnchanged (drop 5 req.target), list-IsUnchanged (drop 5 req.target)))

  answered :
      (m : Result (ApiState (FileSystem.Disk fs)))
      → IsUnchanged m
      → (t : ApiState (FileSystem.Disk fs)) × (m ≡ ok t)
        × (t.disk ≡ s.disk)
        × (t.path_counts ≡ s.path_counts)
  answered (ok t) u = (t, refl, u.0, u.1)
  answered (err e) u = absurd u

  -- A GET request always gets an answer, and changes neither the disk nor the numbers.
  pub handle_request-get :
      req.method ≡ get
      → (t : ApiState (FileSystem.Disk fs)) × (handle_request fs h req s ≡ ok t)
        × (t.disk ≡ s.disk)
        × (t.path_counts ≡ s.path_counts)
  handle_request-get e = answered (handle_request fs h req s) (request-IsUnchanged e)

  Changes-or_not : (v : Verb) → Changes v ⊎ ((v ≡ get) ⊎ (v ≡ other))
  Changes-or_not get = inr (inl refl)
  Changes-or_not post = inl by_post
  Changes-or_not put = inl by_put
  Changes-or_not delete_ = inl by_delete
  Changes-or_not other = inr (inr refl)

  other_refused :
      req.method ≡ other → handle_request fs h req s ≡ ok (record s { res = bad_request s.res })
  unfolding handle_request dispatch
  other_refused o = elim (Bool-cases (is_api_target req.target)) [
    | inl e ↦ rw (o, e, handle_request, dispatch)
    | inr e ↦ rw (o, e, handle_request)
  ]

  -- Whatever a user who is not logged in asks for, the disk stays as it is.
  pub logged_out-disk :
      (t : ApiState (FileSystem.Disk fs))
      → h.profile_.login_status ≡ false
      → handle_request fs h req s ≡ ok t
      → t.disk ≡ s.disk
  unfolding handle_request
  logged_out-disk t out e = elim (Changes-or_not req.method) [
    | inl c ↦ ap disk_of (sym e ∙ handle_request-refused out c)
    | inr (inl g) ↦ let (t', run, kept, _) = handle_request-get g in ap disk_of (sym e ∙ run) ∙ kept
    | inr (inr o) ↦ ap disk_of (sym e ∙ other_refused o)
  ]
    where
      disk_of : Result (ApiState (FileSystem.Disk fs)) → FileSystem.Disk fs
      disk_of (ok u) = u.disk
      disk_of (err _) = s.disk
