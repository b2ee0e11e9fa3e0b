-- ===== src/Profile/Store/Tests.antt =====
-- A run of `signup` of src/profile_manager.cc on a disk, and the theorem on it there.
use boost_web_server.Common.{
  ◌≡◌, refl, true, [], ◌∷◌, ◌++◌, Bytes, codes, to_decimal, map_find, map_set, ◌=s=◌,
}
use boost_web_server.FileSystem.{FileSystem}
use boost_web_server.FileSystem.Memory.{FileList, files_below}
use boost_web_server.Profile.{
  cons_first, lines, cut_bar, split_bars, db_email, email_in, email_exists, count_users, user_line,
  signup,
}
use boost_web_server.Profile.Store.{
  data_path, database, signup_on, signup_info_on, signup_string_on,
}

-- Names once what a run computes with.
store_code : Unit {0}
unfolding map_find map_set cons_first lines cut_bar split_bars email_in email_exists db_email
    count_users user_line signup to_decimal ◌=s=◌ database signup_on signup_info_on signup_string_on
store_code = tt

abbrev fs : FileSystem
fs = files_below (codes "data")

abbrev path : Bytes
path = data_path (codes "data/")

abbrev one_user : Bytes
one_user = codes "1|a@x|Ann|pw\n"

abbrev before : FileList
before = (path, one_user) ∷ []

abbrev two_users : Bytes
two_users = one_user ++ codes "2|b@x|Bob|secret\n"

signup_on_run :
    signup_string_on fs (λ s. s) path (codes "Bob|secret|b@x") before
    ≡ ((path, two_users) ∷ [], true)
unfolding store_code
signup_on_run = refl

first_user_run :
    signup_on fs (λ s. s) path (codes "a@x") (codes "Ann") (codes "pw") []
    ≡ ((path, codes "1|a@x|Ann|pw\n") ∷ [], true)
unfolding store_code
first_user_run = refl
