-- ===== src/Authentication/Access.antt =====
-- What a request to src/request_authentication_handler.cc may change.
use boost_web_server.Common.{
  ◌≡◌, refl, ◌≢◌, inl, inr, false, [], ◌∷◌, ◌++◌, arith, Bool-cases, Option-cases, Bytes, ok,
}
use boost_web_server.FileSystem.{FileSystem}
use boost_web_server.Http.{HttpRequest}
use boost_web_server.Profile.{email_exists}
use boost_web_server.Profile.Store.{database}
use boost_web_server.Authentication.{
  AuthenticationHandler, Page, login_page, login_submit, logout_page, signup_page, signup_submit,
  send_verification, no_page, page_of, Mail, MailServer, AuthenticationState, mail_fields,
  verification_mail, users_path, submit_login, submit_signup, send_mail, submit_mail, answer_page,
  handle_authentication,
}

module _ (fs : FileSystem) (hash_pass : Bytes → Bytes) (server : MailServer)
    (h : AuthenticationHandler) where
  open fs use {Disk}

  -- Every page but the submission of a signup leaves the disk as it is.
  answer_page-disk :
      (p : Page) (body : Bytes) (s t : AuthenticationState Disk)
      → answer_page fs hash_pass server h p body s ≡ ok t
      → p ≢ signup_submit
      → t.disk ≡ s.disk
  unfolding answer_page
  answer_page-disk login_page body s t e h = ground arith
  answer_page-disk login_submit body s t e h = unfold submit_login in ground arith
  answer_page-disk logout_page body s t e h = ground arith
  answer_page-disk signup_page body s t e h = ground arith
  answer_page-disk signup_submit body s t e h = absurd (h refl)
  answer_page-disk send_verification body s t e h = unfold submit_mail send_mail in ground arith
  answer_page-disk no_page body s t e h = ground arith

  -- What may have gone out by mail.
  pub data IsSent (s t : AuthenticationState (FileSystem.Disk fs)) (p : Page) : Type 0 where
    nothing : t.sent ≡ s.sent → IsSent s t p
    one :
        (m : Mail)
        → t.sent ≡ s.sent ++ m ∷ []
        → p ≡ send_verification
        → email_exists (database fs hash_pass (users_path fs hash_pass server h) s.disk) m.recipient
          ≡ false
        → IsSent s t p

  send_mail-IsSent :
      (fields : Bytes × Bytes × Bytes) (s : AuthenticationState Disk)
      → IsSent s (send_mail fs hash_pass server h fields s) send_verification
  unfolding send_mail
  send_mail-IsSent fields s =
      let path = users_path fs hash_pass server h in
      elim (Bool-cases (email_exists (database fs hash_pass path s.disk) fields.0)) [
        | inl known ↦ nothing (rw (known, send_mail))
        | inr fresh ↦ elim (Bool-cases (server.accepts_mail (verification_mail fields))) [
          | inl taken ↦
              one (verification_mail fields) (rw (fresh, taken, send_mail)) refl
                (unfold verification_mail in fresh)
          | inr lost ↦ nothing (rw (fresh, lost, send_mail))
        ]
      ]

  submit_mail-IsSent :
      (body : Bytes) (s t : AuthenticationState Disk)
      → submit_mail fs hash_pass server h body s ≡ ok t
      → IsSent s t send_verification
  unfolding submit_mail
  submit_mail-IsSent body s t e = elim (Option-cases (mail_fields body)) [
    | inl no_fields ↦ nothing (ground arith)
    | inr (fields, got) ↦
        let same : send_mail fs hash_pass server h fields s ≡ t = ground arith in
        rw same at (send_mail-IsSent fields s)
  ]

  answer_page-IsSent :
      (p : Page) (body : Bytes) (s t : AuthenticationState Disk)
      → answer_page fs hash_pass server h p body s ≡ ok t
      → IsSent s t p
  unfolding answer_page
  answer_page-IsSent login_page body s t e = nothing (ground arith)
  answer_page-IsSent login_submit body s t e = nothing (unfold submit_login in ground arith)
  answer_page-IsSent logout_page body s t e = nothing (ground arith)
  answer_page-IsSent signup_page body s t e = nothing (ground arith)
  answer_page-IsSent signup_submit body s t e = nothing (unfold submit_signup in ground arith)
  answer_page-IsSent send_verification body s t e = submit_mail-IsSent body s t e
  answer_page-IsSent no_page body s t e = nothing (ground arith)

  -- A request that does not submit a signup leaves the disk as it is. At most one mail goes out, only
  -- where one was asked for, and only to an email that no user has.
  pub handle_authentication-IsSent :
      (req : HttpRequest) (s t : AuthenticationState Disk)
      → handle_authentication fs hash_pass server h req s ≡ ok t
      → page_of h req.target ≢ signup_submit
      → (t.disk ≡ s.disk) × IsSent s t (page_of h req.target)
  unfolding handle_authentication
  handle_authentication-IsSent req s t e p = (
    answer_page-disk (page_of h req.target) req.body s t e p,
    answer_page-IsSent (page_of h req.target) req.body s t e,
  )
