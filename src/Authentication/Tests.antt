-- ===== src/Authentication/Tests.antt =====
-- Runs of src/request_authentication_handler.cc, and the theorems at a disk with one user.
use boost_web_server.Common.{
  ℕ, ◌≡◌, refl, ◌≢◌, true, Option, none, some, [], ◌∷◌, Bytes, codes, ◌=s=◌, stoi, to_decimal,
  map_find, map_set, Result, ok, ◌>>=◌,
}
use boost_web_server.Profile.SampleDigest.{digest}
use boost_web_server.FileSystem.{FileSystem}
use boost_web_server.FileSystem.Memory.{FileList, files_below}
use boost_web_server.Http.{post, HttpRequest, new_response}
use boost_web_server.Http.Reply.{stock_reply}
use boost_web_server.Handlers.{stock_page, regular_file}
use boost_web_server.Profile.{
  cons_first, lines, cut_bar, split_bars, db_email, email_in, email_exists, count_users,
  name_fields, line_fields, check_user, login_lines, login, user_line, user_cookie, cookie_info,
  update_cookie, user_of_info, update_user,
}
use boost_web_server.Profile.Store.{database, signup_on, signup_info_on, signup_string_on}
use boost_web_server.Authentication.{
  AuthenticationHandler, signup_submit, page_of, MailServer, AuthenticationState, login_cookie,
  answer_cookie, answer_logout, answer_signup, mail_fields, verification_mail, html_page,
  submit_login, submit_signup, send_mail, submit_mail, answer_page, handle_authentication,
}
use boost_web_server.Authentication.Access.{IsSent, handle_authentication-IsSent}

-- Names once what a run computes with.
pages_code : Unit {0}
unfolding cons_first lines cut_bar split_bars db_email email_in email_exists count_users name_fields
    line_fields check_user login_lines login user_line user_cookie cookie_info update_cookie
    user_of_info update_user stoi to_decimal ◌=s=◌ map_find map_set database signup_on
    signup_info_on signup_string_on page_of login_cookie answer_cookie answer_logout answer_signup
    mail_fields verification_mail html_page submit_login submit_signup send_mail submit_mail
    answer_page handle_authentication stock_page stock_reply regular_file
pages_code = tt

abbrev fs : FileSystem
fs = files_below (codes "data")

abbrev server : MailServer
server = record { accepts_session = true; accepts_mail = λ m. true }

abbrev handler : AuthenticationHandler
handler = record {
  location_ = codes "/auth";
  root_ = codes "html";
  data_path_ = codes "data";
  signup_ = codes "/signup";
  login_ = codes "/login";
  logout_ = codes "/logout";
}

abbrev before : AuthenticationState FileList
before = record {
  disk = (codes "data/user_database.txt", codes "note\n") ∷ [];
  sent = [];
  res = new_response;
}

abbrev request : Bytes → Bytes → HttpRequest
request target body = record { method = post; target = target; cookie = []; body = body }

abbrev answer : Result (AuthenticationState FileList) → Result (ℕ × Bytes × Option Bytes)
answer m = m >>= λ t. ok (t.res.result, t.res.body, t.res.set_cookie)

abbrev handle : HttpRequest → AuthenticationState FileList → Result (AuthenticationState FileList)
handle = handle_authentication fs digest server handler

logout_run :
    answer (handle (request (codes "/auth/logout") []) before)
    ≡ ok (200, [], some (codes "crazyCode=; Path=/; Max-Age=0"))
unfolding pages_code
logout_run = refl

no_user_run :
    answer (handle (request (codes "/auth/login-submit") (codes "crazyCode|a@x|pw")) before)
    ≡ ok (400, [], none)
unfolding pages_code
no_user_run = refl

mail_run :
    (handle (request (codes "/auth/signup-send-verification") (codes "a@x|Ann")) before >>= λ t.
    ok t.sent)
    ≡ ok []
unfolding pages_code
mail_run = refl

abbrev after_mail : AuthenticationState FileList
after_mail = record before {
  sent =
      record {
        recipient = codes "a@x";
        text =
            codes
              "Hello Ann,\n\nPlease enter the following verification code in the Crazy Code website:\n\n123";
      }
      ∷ [];
  res = record new_response { result = 200 };
}

one_mail_run :
    handle (request (codes "/auth/signup-send-verification") (codes "a@x|Ann|123")) before
    ≡ ok after_mail
unfolding pages_code
one_mail_run = refl

send_page : page_of handler (codes "/auth/signup-send-verification") ≢ signup_submit
unfolding pages_code
send_page e = cc

handle_authentication-IsSent_example :
    (after_mail.disk ≡ before.disk)
    × IsSent fs digest server handler before after_mail
        (page_of handler (codes "/auth/signup-send-verification"))
handle_authentication-IsSent_example =
    handle_authentication-IsSent fs digest server handler
      (request (codes "/auth/signup-send-verification") (codes "a@x|Ann|123")) before after_mail
      one_mail_run send_page
