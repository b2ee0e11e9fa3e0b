-- ===== src/Http.antt =====
-- The requests and responses that the handlers of src/ see, as far as they use them: the parts
-- of Boost.Beast's `request` that are read, and those of its `response` that are written. With
-- them src/reply.cc, src/mime_types.cc and include/user_profile.h.
pub mod Reply
pub mod Formed
pub mod Mime
use boost_web_server.Common.{ℕ, Bool, Option, none, some, [], ◌++◌, length, Bytes, codes, ℤ}

pub data Verb : Type 0 where
  get post put delete_ other : Verb

pub record HttpRequest : Type 0 where
  pub method : Verb
  pub target : Bytes
  pub cookie : Bytes
  pub body : Bytes

-- A field that is not set is `none`; `result` is the number of the status.
pub record Response : Type 0 where
  pub result : ℕ
  pub body : Bytes
  pub content_length : Option ℕ
  pub content_type : Option Bytes
  pub set_cookie : Option Bytes

-- A new response has the status 200 and nothing else.
abbrev pub new_response : Response
new_response = record {
  result = 200;
  body = [];
  content_length = none;
  content_type = none;
  set_cookie = none;
}

pub record UserProfile : Type 0 where
  pub user_id : ℤ
  pub username : Bytes
  pub email : Bytes
  pub login_status : Bool

-- The status, the body with its length, and the type: the lines that the handlers share. The
-- length is that of the body before the handler's text with the text behind it.
abbrev pub respond : ℕ → Bytes → Bytes → Response → Response
respond code text type res = record res {
  result = code;
  body = res.body ++ text;
  content_length = some (length (res.body ++ text));
  content_type = some type;
}

abbrev pub text_html : Bytes
text_html = codes "text/html"

abbrev pub text_plain : Bytes
text_plain = codes "text/plain"
