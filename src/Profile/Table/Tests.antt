-- ===== src/Profile/Table/Tests.antt =====
-- The theorems on the table of users of src/profile_manager.cc at a table of one user.
use boost_web_server.Common.{◌≡◌, refl, true, some, [], ◌∷◌, arith, codes, ok, ◌=s=◌}
use boost_web_server.Profile.SampleDigest.{digest, digest-IsDigest}
use boost_web_server.Profile.{login, signup}
use boost_web_server.Profile.Login.{IsField}
use boost_web_server.Profile.Table.{
  User, add_user, IsTable, text_of, user_profile, table_login, signup-add_user, login-table_login,
}

abbrev ann : User
ann = record { id = 1; email = codes "a@x"; name = codes "Ann"; password = codes "pw" }

three-IsField : IsField (codes "a@x")
three-IsField = (
  (omega arith, (omega arith, (omega arith, tt))),
  (omega arith, (omega arith, (omega arith, tt))),
)

ann-IsField : IsField (codes "Ann")
ann-IsField = (
  (omega arith, (omega arith, (omega arith, tt))),
  (omega arith, (omega arith, (omega arith, tt))),
)

bob-IsField : IsField (codes "b@x")
bob-IsField = (
  (omega arith, (omega arith, (omega arith, tt))),
  (omega arith, (omega arith, (omega arith, tt))),
)

ann-IsTable : IsTable 1 (ann ∷ [])
ann-IsTable = (three-IsField, ann-IsField, refl, refl, tt)

signup-add_user_example :
    IsTable 1 (add_user (ann ∷ []) (codes "b@x") (codes "Ann") (codes "secret")).0
    × (signup digest (some (text_of digest (ann ∷ []))) (codes "b@x") (codes "Ann") (codes "secret")
        ≡ (
          some
              (text_of digest (add_user (ann ∷ []) (codes "b@x") (codes "Ann") (codes "secret")).0),
          (add_user (ann ∷ []) (codes "b@x") (codes "Ann") (codes "secret")).1,
        ))
signup-add_user_example =
    signup-add_user digest digest-IsDigest (some (text_of digest (ann ∷ []))) (ann ∷ [])
      (codes "b@x") (codes "Ann") (codes "secret") refl ann-IsTable bob-IsField ann-IsField
      (omega arith)

table_run :
    table_login digest (ann ∷ []) (codes "a@x") (codes "wp")
    ≡ record { found = true; profile = user_profile digest ann }
unfolding ◌=s=◌
table_run = refl

login-table_login_example :
    login digest (some (text_of digest (ann ∷ []))) (codes "a@x") (codes "wp")
    ≡ ok (table_login digest (ann ∷ []) (codes "a@x") (codes "wp"))
login-table_login_example =
    login-table_login digest digest-IsDigest (ann ∷ []) (codes "a@x") (codes "wp") ann-IsTable
      (omega arith)
