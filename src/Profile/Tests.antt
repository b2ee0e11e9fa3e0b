-- ===== src/Profile/Tests.antt =====
-- Runs of src/profile_manager.cc, and the theorems at a concrete file.
use boost_web_server.Common.{
  ℕ, ◌≤◌, ◌<◌, ◌≡◌, refl, true, false, ◌||◌, some, [], ◌++◌, arith, if◌then◌else◌, Bytes, codes,
  ◌=s=◌, pos, stoi, to_decimal, ok,
}
use boost_web_server.Profile.Emails.{signup_adds_email}
use boost_web_server.Profile.SampleDigest.{digest, digest-IsDigest}
use boost_web_server.Profile.{
  cons_first, lines, cut_bar, split_bars, db_email, email_in, email_exists, count_users,
  name_fields, line_fields, LoginResult, refused, check_user, login_lines, login, user_line, signup,
  signup_info, signup_string, user_cookie, cookie_info, update_cookie, user_of_info, update_user,
}
use boost_web_server.Profile.Lines.{HasNo, IsClosed, empty, line, HasNo-append}
use boost_web_server.Profile.Login.{IsField, signup-login}

-- Names once what a run computes with.
profile_code : Unit {0}
unfolding cons_first lines cut_bar split_bars db_email email_in email_exists count_users name_fields
    line_fields check_user login_lines login user_line signup signup_info signup_string user_cookie
    cookie_info update_cookie user_of_info update_user stoi to_decimal ◌=s=◌
profile_code = tt

abbrev one_user : Bytes
one_user = codes "1|a@x|Ann|" ++ (digest (codes "pw") ++ codes "\n")

abbrev two_users : Bytes
two_users = one_user ++ (codes "2|b@x|Bob|" ++ (digest (codes "secret") ++ codes "\n"))

signup_run :
    signup digest (some one_user) (codes "b@x") (codes "Bob") (codes "secret")
    ≡ (some two_users, true)
unfolding profile_code
signup_run = refl

signup_twice : (signup digest (some two_users) (codes "a@x") (codes "Eve") (codes "p")).1 ≡ false
unfolding profile_code
signup_twice = refl

signup_string_run :
    signup_string digest (some one_user) (codes "Bob|secret|b@x") ≡ (some two_users, true)
unfolding profile_code
signup_string_run = refl

abbrev bob : LoginResult
bob = record {
  found = true;
  profile = record {
    user_id = pos 2;
    username = codes "Bob";
    email = codes "b@x";
    login_status = true;
  };
}

cookie_run :
    update_cookie digest (some two_users) (codes "crazyCode|b@x|secret")
    ≡ ok (codes "\"2|Bob|b@x\"")
unfolding profile_code
cookie_run = refl

one_user-IsClosed : IsClosed one_user
unfolding profile_code
one_user-IsClosed =
    line (codes "1|a@x|Ann|" ++ digest (codes "pw")) []
      (HasNo-append b'\n' (codes "1|a@x|Ann|") (digest (codes "pw")) line_start
        (digest-IsDigest.digest_bytes (codes "pw")))
      (empty refl) refl
  where
    line_start : HasNo b'\n' (codes "1|a@x|Ann|")
    line_start = (
      omega arith,
      (
        omega arith,
        (
          omega arith,
          (
            omega arith,
            (
              omega arith,
              (omega arith, (omega arith, (omega arith, (omega arith, (omega arith, tt))))),
            ),
          ),
        ),
      ),
    )

bob_email : IsField (codes "b@x")
bob_email = (
  (omega arith, (omega arith, (omega arith, tt))),
  (omega arith, (omega arith, (omega arith, tt))),
)

bob_name : IsField (codes "Bob")
bob_name = (
  (omega arith, (omega arith, (omega arith, tt))),
  (omega arith, (omega arith, (omega arith, tt))),
)

signup-login_example :
    (n : ℕ) × (1 ≤ n)
    × (n < 0x80000000)
    × (login digest (some two_users) (codes "b@x") (codes "terces")
        ≡ ok (
            if digest (codes "terces") =s= digest (codes "secret")
            then record {
              found = true;
              profile = record {
                user_id = pos n;
                username = codes "Bob";
                email = codes "b@x";
                login_status = true;
              };
            }
            else refused []))
unfolding profile_code
signup-login_example =
    signup-login digest digest-IsDigest (codes "b@x") (codes "Bob") (codes "secret") bob_email
      bob_name (some one_user) two_users (codes "terces") one_user-IsClosed (omega arith) signup_run

signup_adds_email_example :
    IsClosed two_users
    × (email_exists (some two_users) (codes "c@x")
        ≡ (email_exists (some one_user) (codes "c@x") || (codes "c@x" =s= codes "b@x")))
unfolding profile_code
signup_adds_email_example =
    signup_adds_email digest digest-IsDigest (codes "b@x") (codes "Bob") (codes "secret") bob_email
      bob_name (some one_user) two_users (codes "c@x") one_user-IsClosed (omega arith) signup_run
