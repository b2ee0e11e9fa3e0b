-- ===== src/Http/Formed.antt =====
-- What the answers of src/ have in common: a known status, and a content length that is the length of
-- the body where it is set.
use boost_web_server.Common.{
  ℕ, ◌≡◌, refl, Bool, true, ◌&&◌, ◌||◌, Option, none, some, arith, ◌==◌, length, Bytes,
}
use boost_web_server.Http.{Response, respond}

unfoldable pub is_status : ℕ → Bool
is_status code = code == 200 || (code == 201 || (code == 400 || (code == 401 || code == 404)))

abbrev has_length : Option ℕ → ℕ → Bool
has_length none n = true
has_length (some m) n = m == n

unfoldable pub is_formed : Response → Bool
unfolding is_status
is_formed res = is_status res.result && has_length res.content_length (length res.body)

pub is_formed-respond :
    (code : ℕ) (text type : Bytes) (res : Response)
    → is_status code ≡ true
    → is_formed (respond code text type res) ≡ true
unfolding is_formed
is_formed-respond code text type res known = ground arith

pub is_formed-result :
    (code : ℕ) (res : Response)
    → is_status code ≡ true
    → is_formed res ≡ true
    → is_formed (record res { result = code }) ≡ true
unfolding is_formed
is_formed-result code res known formed = ground arith

pub ok_known : is_status 200 ≡ true
unfolding is_status
ok_known = refl

pub created_known : is_status 201 ≡ true
unfolding is_status
created_known = refl

pub bad_known : is_status 400 ≡ true
unfolding is_status
bad_known = refl

pub unauthorized_known : is_status 401 ≡ true
unfolding is_status
unauthorized_known = refl

pub missing_known : is_status 404 ≡ true
unfolding is_status
missing_known = refl
