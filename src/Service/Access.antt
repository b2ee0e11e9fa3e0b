-- ===== src/Service/Access.antt =====
-- What a request by nobody may change on the disk of src/.
use boost_web_server.Common.{
  ◌≡◌, refl, sym, ◌∙◌, ◌≢◌, ◌⊎◌, inl, inr, Bool, true, false, Option, some, List, arith,
  Option-cases, Bytes, Map, map_find, ok, ◌>>=◌, >>=-eq-ok,
}
use boost_web_server.FileSystem.{FileSystem}
use boost_web_server.Http.{HttpRequest, Response, new_response, UserProfile}
use boost_web_server.Api.Scan.{new_api_handler}
use boost_web_server.Api.Handler.{ApiState, ApiHandler, handle_request}
use boost_web_server.Api.Handler.Access.{logged_out-disk}
use boost_web_server.Profile.{signup, update_user}
use boost_web_server.Authentication.{
  AuthenticationHandler, Page, login_page, login_submit, logout_page, signup_page, signup_submit,
  send_verification, no_page, page_of, MailServer, AuthenticationState, handle_authentication,
}
use boost_web_server.Authentication.Access.{handle_authentication-IsSent}
use boost_web_server.Server.{Factory}
use boost_web_server.Session.{match}
use boost_web_server.Service.{
  World, RequestHandler, static_files, echo_at, api_below, health_at, sleeper, authentication,
  console_below, not_found, create, new_user, counts_at, construct, answer_api,
  answer_authentication, answer_request, write_to_socket, answer_route, handle_read,
}

module _ (fs : FileSystem) (hash_pass : Bytes → Bytes) (server : MailServer)
    (write_request : HttpRequest → Bytes) (params : Bytes → List (Bytes × Bytes)) where
  open fs use {Disk}

  -- A handler to which the target submits a signup.
  pub data Signup (target : Bytes) (handler : RequestHandler) : Type 0 where
    submits :
        (h : AuthenticationHandler)
        → handler ≡ authentication h
        → page_of h target ≡ signup_submit
        → Signup target handler

  submits_or_not : (p : Page) → (p ≡ signup_submit) ⊎ (p ≢ signup_submit)
  submits_or_not signup_submit = inl refl
  submits_or_not login_page = inr (λ e. cc)
  submits_or_not login_submit = inr (λ e. cc)
  submits_or_not logout_page = inr (λ e. cc)
  submits_or_not signup_page = inr (λ e. cc)
  submits_or_not send_verification = inr (λ e. cc)
  submits_or_not no_page = inr (λ e. cc)

  module _ (user : UserProfile) (req : HttpRequest) (w w' : World (FileSystem.Disk fs))
      (res : Response) where
    api-disk :
        (location root : Bytes)
        → user.login_status ≡ false
        → answer_api fs hash_pass server write_request params location root user req w
          ≡ ok (w', res)
        → w'.disk ≡ w.disk
    unfolding answer_api
    api-disk location root out e =
        let h : ApiHandler = record { root_ = root; profile_ = user } in
        let s : ApiState Disk = record {
          disk = w.disk;
          path_counts = counts_at location w.counts;
          res = new_response;
        } in
        let (t, run, last) = >>=-eq-ok (handle_request fs h req s) _ e in
        let same : t.disk ≡ w'.disk = ground arith in
        sym same ∙ logged_out-disk fs h req s t out run

    authentication-disk :
        (h : AuthenticationHandler)
        → answer_authentication fs hash_pass server write_request params h req w ≡ ok (w', res)
        → (w'.disk ≡ w.disk) ⊎ Signup req.target (authentication h)
    unfolding answer_authentication
    authentication-disk h e = elim (submits_or_not (page_of h req.target)) [
      | inl p ↦ inr (submits h refl p)
      | inr p ↦
          let s : AuthenticationState Disk = record {
            disk = w.disk;
            sent = w.sent;
            res = new_response;
          } in
          let (t, run, last) = >>=-eq-ok (handle_authentication fs hash_pass server h req s) _ e in
          let same : t.disk ≡ w'.disk = ground arith in
          inl (sym same ∙ (handle_authentication-IsSent fs hash_pass server h req s t run p).0)
    ]

    answer-disk :
        (handler : RequestHandler) (location : Bytes)
        → user.login_status ≡ false
        → answer_request fs hash_pass server write_request params handler location user req w
          ≡ ok (w', res)
        → (w'.disk ≡ w.disk) ⊎ Signup req.target handler
    unfolding answer_request
    answer-disk (static_files location_ root) location out e = inl (ground arith)
    answer-disk (echo_at location_) location out e = inl (ground arith)
    answer-disk (api_below root) location out e = inl (api-disk location root out e)
    answer-disk (health_at location_) location out e = inl (ground arith)
    answer-disk sleeper location out e = inl (ground arith)
    answer-disk (authentication h) location out e = authentication-disk h e
    answer-disk (console_below root) location out e = inl (ground arith)
    answer-disk not_found location out e = inl (ground arith)

  construct-disk :
      (handler : RequestHandler) (location : Bytes) (w w' : World Disk)
      → construct fs hash_pass server write_request params handler location w ≡ ok w'
      → w'.disk ≡ w.disk
  unfolding construct
  construct-disk (api_below root) location w w' e =
      let (counts, _, last) =
        >>=-eq-ok (new_api_handler fs w.disk root (counts_at location w.counts)) _ e in
      ground arith
  construct-disk (static_files location_ root) location w w' e = ground arith
  construct-disk (echo_at location_) location w w' e = ground arith
  construct-disk (health_at location_) location w w' e = ground arith
  construct-disk sleeper location w w' e = ground arith
  construct-disk (authentication h) location w w' e = ground arith
  construct-disk (console_below root) location w w' e = ground arith
  construct-disk not_found location w w' e = ground arith

  write-disk :
      (connected : Bool) (handler : RequestHandler) (location : Bytes) (user : UserProfile)
      (req : HttpRequest) (w w' : World Disk) (written : Option Response)
      → user.login_status ≡ false
      → write_to_socket fs hash_pass server write_request params connected handler location user req
          w
        ≡ ok (w', written)
      → (w'.disk ≡ w.disk) ⊎ Signup req.target handler
  unfolding write_to_socket
  write-disk true handler location user req w w' written out e =
      let (a, run, last) =
        >>=-eq-ok
          (answer_request fs hash_pass server write_request params handler location user req w) _
          e in
      let same : a.0 ≡ w' = ground arith in
      rw (← same) (answer-disk user req w a.0 a.1 handler location out run)
  write-disk false handler location user req w w' written out e = inl (ground arith)

  -- A request whose cookie gives no user who is logged in changes nothing on the disk, whether its
  -- peer is still there or not, unless it goes to the route of an authentication handler and submits
  -- a signup there.
  pub anonymous_disk :
      (connected : Bool) (routes : Map Factory) (req : HttpRequest) (w w' : World Disk)
      (written : Option Response) (found : Bool) (user : UserProfile)
      → update_user (params req.cookie) new_user ≡ ok (found, user)
      → user.login_status ≡ false
      → handle_read fs hash_pass server write_request params connected routes req w
        ≡ ok (w', written)
      → (w'.disk ≡ w.disk)
        ⊎ ((location : Bytes) × (f : Factory) × (match routes req.target ≡ some location)
            × (map_find location routes ≡ some f)
            × Signup req.target (create f location))
  unfolding handle_read answer_route
  anonymous_disk connected routes req w w' written found user who out e =
      elim (Option-cases (match routes req.target)) [
        | inl lost ↦ absurd (ground arith)
        | inr (location, at) ↦ elim (Option-cases (map_find location routes)) [
          | inl missing ↦ absurd (ground arith)
          | inr (f, known) ↦
              let run : (construct fs hash_pass server write_request params (create f location)
                      location w
                    >>= write_to_socket fs hash_pass server write_request params connected
                        (create f location) location user req)
                  ≡ ok (w', written) =
                rw (who, at, known, handle_read, answer_route) at e in
              let (made, constructed, wrote) =
                >>=-eq-ok
                  (construct fs hash_pass server write_request params (create f location) location
                    w)
                  _ run in
              let kept = construct-disk (create f location) location w made constructed in
              elim (write-disk connected (create f location) location user req made w' written out
                wrote) [
                  | inl still ↦ inl (still ∙ kept)
                  | inr signup ↦ inr (location, f, at, known, signup)
                ]
        ]
      ]
