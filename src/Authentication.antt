-- ===== src/Authentication.antt =====
-- src/request_authentication_handler.cc: the pages and the submissions for signup, login and
-- logout. The database of the users is the file of src/profile_manager.cc on the disk. The mail
-- server, which Poco reaches, is a parameter.
pub mod Signup
pub mod Access
pub mod Answers
mod Tests
use boost_web_server.Common.{
  Bool, true, false, Option, none, some, List, [], ◌∷◌, ◌++◌, if◌then◌else◌, length, Bytes, codes,
  ◌=s=◌, network_error, Result, ok, err, ◌>>=◌,
}
use boost_web_server.FileSystem.{FileSystem, content}
use boost_web_server.Http.{HttpRequest, Response, respond, text_html}
use boost_web_server.Handlers.{stock_page, regular_file}
use boost_web_server.Profile.{cut_bar, before_bar, email_exists, update_cookie}
use boost_web_server.Profile.Store.{data_path, database, signup_string_on}

-- The fields that the answers depend on.
pub record AuthenticationHandler : Type 0 where
  pub location_ : Bytes
  pub root_ : Bytes
  pub data_path_ : Bytes
  pub signup_ : Bytes
  pub login_ : Bytes
  pub logout_ : Bytes

-- The branches of `handle_request`.
pub data Page : Type 0 where
  login_page login_submit logout_page signup_page signup_submit send_verification no_page : Page

unfoldable pub page_of : AuthenticationHandler → Bytes → Page
page_of h input =
    if (h.location_ ++ h.login_) =s= input
    then login_page
    else if (h.location_ ++ (h.login_ ++ codes "-submit")) =s= input
    then login_submit
    else if (h.location_ ++ h.logout_) =s= input
    then logout_page
    else if (h.location_ ++ h.signup_) =s= input
    then signup_page
    else if (h.location_ ++ (h.signup_ ++ codes "-submit")) =s= input
    then signup_submit
    else if (h.location_ ++ (h.signup_ ++ codes "-send-verification")) =s= input
    then send_verification
    else no_page

-- A mail as it is handed to `sendMessage`.
pub record Mail : Type 0 where
  pub recipient : Bytes
  pub text : Bytes

-- The mail server: whether a session can be opened, and whether it takes a mail.
pub record MailServer : Type 0 where
  pub accepts_session : Bool
  pub accepts_mail : Mail → Bool

-- What a request reads and changes: the disk, the mails that went out, and the response.
pub record AuthenticationState (Disk : Type 0) : Type 0 where
  pub disk : Disk
  pub sent : List Mail
  pub res : Response

-- The value of the field `Set-Cookie` behind a login.
unfoldable pub login_cookie : Bytes → Bytes
login_cookie new_cookie = codes "crazyCode=" ++ (new_cookie ++ codes "; Path=/")

-- Before the body, only its length is set.
unfoldable pub answer_cookie : Bytes → Response → Response
unfolding login_cookie
answer_cookie [] res = record res { result = 400; content_length = some (length res.body) }
answer_cookie (c ∷ cookie) res = record res {
  result = 200;
  set_cookie = some (login_cookie (c ∷ cookie));
}

unfoldable pub answer_logout : Response → Response
answer_logout res = record res {
  result = 200;
  set_cookie = some (codes "crazyCode=; Path=/; Max-Age=0");
}

unfoldable pub answer_signup : Bool → Response → Response
unfolding stock_page
answer_signup false res = stock_page 400 res
answer_signup true res = record res {
  result = 200;
  body = res.body ++ codes "OK";
  content_length = some (length (res.body ++ codes "OK"));
}

-- The email, the username and the verification code in the body of a request for a mail; without
-- a third bar the code goes to the end.
unfoldable pub mail_fields : Bytes → Option (Bytes × Bytes × Bytes)
mail_fields data_ = elim (cut_bar data_) [
  | none ↦ none
  | some parts ↦ elim (cut_bar parts.1) [
    | none ↦ none
    | some more ↦ some (parts.0, more.0, before_bar more.1)
  ]
]

unfoldable pub verification_mail : Bytes × Bytes × Bytes → Mail
verification_mail (email, username, verification_code) = record {
  recipient = email;
  text =
      codes "Hello "
      ++ (username
          ++ (codes
                ",\n\nPlease enter the following verification code in the Crazy Code website:\n\n"
              ++ verification_code));
}

module _ (fs : FileSystem) (hash_pass : Bytes → Bytes) (server : MailServer)
    (h : AuthenticationHandler) where
  open fs use {Disk}

  -- The file of `profile_manager manager(data_path_ + "/")`.
  abbrev pub users_path : Bytes
  users_path = data_path (h.data_path_ ++ b'/' ∷ [])

  -- `login.html` and `signup.html`; a page that cannot be read is empty.
  unfoldable pub html_page : Bytes → Disk → Response → Response
  unfolding regular_file
  html_page file_name disk res =
      respond 200 (content (regular_file fs disk (h.root_ ++ (b'/' ∷ file_name)))) text_html res

  unfoldable pub submit_login : Bytes → AuthenticationState Disk → Result (AuthenticationState Disk)
  unfolding answer_cookie
  submit_login body s = do
    new_cookie ← update_cookie hash_pass (database fs hash_pass users_path s.disk) body
    ok (record s { res = answer_cookie new_cookie s.res })

  unfoldable pub submit_signup : Bytes → AuthenticationState Disk → AuthenticationState Disk
  unfolding answer_signup
  submit_signup body s =
      let done = signup_string_on fs hash_pass users_path body s.disk in
      record s { disk = done.0; res = answer_signup done.1 s.res }

  unfoldable pub send_mail :
      Bytes × Bytes × Bytes → AuthenticationState Disk → AuthenticationState Disk
  unfolding verification_mail stock_page
  send_mail fields s =
      let mail = verification_mail fields in
      if email_exists (database fs hash_pass users_path s.disk) fields.0
      then record s { res = stock_page 400 s.res }
      else if server.accepts_mail mail
      then record s { sent = s.sent ++ mail ∷ []; res = record s.res { result = 200 } }
      else record s { res = record s.res { result = 400 } }

  -- The session with the mail server is opened first; that may throw.
  unfoldable pub submit_mail : Bytes → AuthenticationState Disk → Result (AuthenticationState Disk)
  unfolding send_mail mail_fields
  submit_mail body s =
      if server.accepts_session
      then ok (elim (mail_fields body) [
        | none ↦ record s { res = record s.res { result = 400 } }
        | some fields ↦ send_mail fields s
      ])
      else err network_error

  unfoldable pub answer_page :
      Page → Bytes → AuthenticationState Disk → Result (AuthenticationState Disk)
  unfolding html_page submit_login submit_signup submit_mail answer_logout stock_page
  answer_page login_page body s =
      ok (record s { res = html_page (codes "login.html") s.disk s.res })
  answer_page login_submit body s = submit_login body s
  answer_page logout_page body s = ok (record s { res = answer_logout s.res })
  answer_page signup_page body s =
      ok (record s { res = html_page (codes "signup.html") s.disk s.res })
  answer_page signup_submit body s = ok (submit_signup body s)
  answer_page send_verification body s = submit_mail body s
  answer_page no_page body s = ok (record s { res = stock_page 404 s.res })

  unfoldable pub handle_authentication :
      HttpRequest → AuthenticationState Disk → Result (AuthenticationState Disk)
  unfolding answer_page page_of
  handle_authentication req s = answer_page (page_of h req.target) req.body s
