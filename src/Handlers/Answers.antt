-- ===== src/Handlers/Answers.antt =====
-- The form of the answers of the small handlers of src/.
use boost_web_server.Common.{
  ◌≡◌, inl, inr, true, ◌∷◌, ◌++◌, arith, Bool-cases, Option-cases, length, drop, Bytes, ◌=s=◌, ok,
}
use boost_web_server.FileSystem.{FileSystem}
use boost_web_server.Http.{HttpRequest, Response, UserProfile, text_html, text_plain}
use boost_web_server.Http.Reply.{stock_reply}
use boost_web_server.Http.Mime.{extension_to_type}
use boost_web_server.Http.Formed.{
  is_formed, is_formed-respond, ok_known, unauthorized_known, missing_known,
}
use boost_web_server.Handlers.{
  trim_target, stock_page, handle_at, extension_of, regular_file, handle_static, handle_console,
}

pub handle_at-formed :
    (location text : Bytes) (req : HttpRequest) (res : Response)
    → is_formed (handle_at location text req res) ≡ true
unfolding handle_at stock_page
handle_at-formed location text req res = elim (Bool-cases (location =s= trim_target req.target)) [
  | inl here ↦ rw here (is_formed-respond 200 text text_plain res ok_known)
  | inr there ↦ rw there (is_formed-respond 404 (stock_reply 404) text_html res missing_known)
]

module _ (fs : FileSystem) where
  open fs use {Disk}

  pub handle_static-formed :
      (location root : Bytes) (disk : Disk) (req : HttpRequest) (res res' : Response)
      → handle_static fs location root disk req res ≡ ok res'
      → is_formed res' ≡ true
  unfolding handle_static stock_page
  handle_static-formed location root disk req res res' e =
      let req_input = trim_target req.target in
      let file_name = drop (length location) req_input in
      elim (Option-cases (regular_file fs disk (root ++ (b'/' ∷ file_name)))) [
        | inl none_of ↦
            ground (arith, is_formed-respond 404 (stock_reply 404) text_html res missing_known)
        | inr (text, found) ↦ ground (
          arith,
          is_formed-respond 200 text (extension_to_type (extension_of file_name)) res ok_known,
        )
      ]

  pub handle_console-formed :
      (root : Bytes) (user : UserProfile) (disk : Disk) (res : Response)
      → is_formed (handle_console fs root user disk res) ≡ true
  unfolding handle_console stock_page
  handle_console-formed root user disk res = elim (Bool-cases user.login_status) [
    | inl known ↦ rw known (is_formed-respond 200 _ text_html res ok_known)
    | inr unknown ↦
        rw unknown (is_formed-respond 401 (stock_reply 401) text_html res unauthorized_known)
  ]
