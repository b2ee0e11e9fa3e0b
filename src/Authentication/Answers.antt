-- ===== src/Authentication/Answers.antt =====
-- The form of the answers of src/request_authentication_handler.cc.
use boost_web_server.Common.{
  ◌≡◌, inl, inr, Bool, true, false, [], ◌∷◌, arith, Option-cases, Bytes, codes, ok, >>=-eq-ok,
}
use boost_web_server.FileSystem.{FileSystem}
use boost_web_server.Http.{text_html}
use boost_web_server.Http.Reply.{stock_reply}
use boost_web_server.Http.Formed.{
  is_status, is_formed, is_formed-respond, is_formed-result, ok_known, bad_known, missing_known,
}
use boost_web_server.Handlers.{stock_page}
use boost_web_server.Profile.{update_cookie}
use boost_web_server.Profile.Store.{database, signup_string_on}
use boost_web_server.Authentication.{
  AuthenticationHandler, Page, login_page, login_submit, logout_page, signup_page, signup_submit,
  send_verification, no_page, MailServer, AuthenticationState, answer_cookie, answer_logout,
  answer_signup, mail_fields, users_path, html_page, submit_login, submit_signup, send_mail,
  submit_mail, answer_page,
}

-- The branches of an authentication handler.
module _ (fs : FileSystem) (hash_pass : Bytes → Bytes) (server : MailServer)
    (h : AuthenticationHandler) (s t : AuthenticationState (FileSystem.Disk fs))
    (before : is_formed s.res ≡ true) where
  cookie-formed : (cookie : Bytes) → is_formed (answer_cookie cookie s.res) ≡ true
  unfolding answer_cookie is_formed is_status
  cookie-formed [] = ground arith
  cookie-formed (c ∷ cookie) = ground arith

  signup-formed : (fine : Bool) → is_formed (answer_signup fine s.res) ≡ true
  unfolding answer_signup stock_page
  signup-formed false = is_formed-respond 400 (stock_reply 400) text_html s.res bad_known
  signup-formed true = unfold is_formed is_status in ground arith

  logout-formed : is_formed (answer_logout s.res) ≡ true
  unfolding answer_logout is_formed is_status
  logout-formed = ground arith

  page-formed :
      (name : Bytes) (disk : FileSystem.Disk fs)
      → is_formed (html_page fs hash_pass server h name disk s.res) ≡ true
  unfolding html_page
  page-formed name disk = is_formed-respond 200 _ text_html s.res ok_known

  sent-formed :
      (fields : Bytes × Bytes × Bytes)
      → is_formed (send_mail fs hash_pass server h fields s).res ≡ true
  unfolding send_mail stock_page
  sent-formed fields = ground (
    arith,
    is_formed-respond 400 (stock_reply 400) text_html s.res bad_known,
    is_formed-result 200 s.res ok_known before,
    is_formed-result 400 s.res bad_known before,
  )

  mail-formed :
      (body : Bytes) → submit_mail fs hash_pass server h body s ≡ ok t → is_formed t.res ≡ true
  unfolding submit_mail
  mail-formed body e = elim (Option-cases (mail_fields body)) [
    | inl no_fields ↦ ground (arith, is_formed-result 400 s.res bad_known before)
    | inr (fields, got) ↦ ground (arith, sent-formed fields)
  ]

  login-formed :
      (body : Bytes) → submit_login fs hash_pass server h body s ≡ ok t → is_formed t.res ≡ true
  unfolding submit_login
  login-formed body e =
      let (cookie, made, last) =
        >>=-eq-ok
          (update_cookie hash_pass (database fs hash_pass (users_path fs hash_pass server h) s.disk)
            body)
          _ e in
      ground (arith, cookie-formed cookie)

  pub answer_page-formed :
      (p : Page) (body : Bytes)
      → answer_page fs hash_pass server h p body s ≡ ok t
      → is_formed t.res ≡ true
  unfolding answer_page
  answer_page-formed login_page body e = ground (arith, page-formed (codes "login.html") s.disk)
  answer_page-formed login_submit body e = login-formed body e
  answer_page-formed logout_page body e = ground (arith, logout-formed)
  answer_page-formed signup_page body e = ground (arith, page-formed (codes "signup.html") s.disk)
  answer_page-formed signup_submit body e =
      unfold submit_signup in
      ground (
        arith,
        signup-formed
            (signup_string_on fs hash_pass (users_path fs hash_pass server h) body s.disk).1,
      )
  answer_page-formed send_verification body e = mail-formed body e
  answer_page-formed no_page body e =
      unfold stock_page in
      ground (arith, is_formed-respond 404 (stock_reply 404) text_html s.res missing_known)
