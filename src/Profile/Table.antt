-- ===== src/Profile/Table.antt =====
-- What src/profile_manager.cc promises: a table of users with distinct emails, numbered from 1 in the
-- order of their signups, and its methods as operations on that table.

mod Tests
use boost_web_server.Common.{
  ℕ, suc, ◌+◌, ◌≤◌, ◌<◌, ◌≡◌, refl, ap, ◌∙◌, inl, inr, Bool, true, false, ◌||◌, Option, none, some,
  List, [], ◌∷◌, ◌++◌, append_assoc, arith, if◌then◌else◌, Bool-cases, length, Bytes, codes, ◌=s=◌,
  =s=_iff, pos, to_decimal, stoi-to_decimal, ok,
}
use boost_web_server.Common.{◌∷◌}
use boost_web_server.FileSystem.{content}
use boost_web_server.Profile.Login.{
  IsField, IsDigest, user_line-HasNo, user_line-fields, signup-content,
}
use boost_web_server.Http.{UserProfile}
use boost_web_server.Profile.{
  lines, count_users, line_fields, LoginResult, refused, check_user, login_lines, login, user_line,
  signup,
}
use boost_web_server.Profile.Lines.{lines_cons, line_fields-email}

-- A user with the password of the signup, of which the file only has the digest.
pub record User : Type 0 where
  pub id : ℕ
  pub email : Bytes
  pub name : Bytes
  pub password : Bytes

abbrev pub has_email : Bytes → List User → Bool
has_email email [] = false
has_email email (u ∷ us) = (u.email =s= email) || has_email email us

-- A new email joins the table with the next number; one that is there is refused.
abbrev pub add_user : List User → Bytes → Bytes → Bytes → List User × Bool
add_user us email name password = if has_email email us then (us, false) else (
  us ++ record { id = length us + 1; email = email; name = name; password = password } ∷ [],
  true,
)

-- The users from a number on: the fields fit a line, the numbers follow each other, and no email
-- stands twice.
abbrev pub IsTable : ℕ → List User → Type 0
IsTable n [] = Unit
IsTable n (u ∷ us) =
    IsField u.email
    × IsField u.name
    × (u.id ≡ n)
    × (has_email u.email us ≡ false)
    × IsTable (n + 1) us

has_email-append :
    (email : Bytes) (us vs : List User)
    → has_email email (us ++ vs) ≡ (has_email email us || has_email email vs)
has_email-append email [] vs = refl
has_email-append email (u ∷ us) vs = ground (arith, has_email-append email us vs)

IsTable-append :
    (n : ℕ) (us : List User) (email name password : Bytes)
    → IsTable n us
    → has_email email us ≡ false
    → IsField email
    → IsField name
    → IsTable n
        (us ++ record { id = n + length us; email = email; name = name; password = password } ∷ [])
IsTable-append n [] email name password _ new e m = (e, m, omega arith, refl, tt)
IsTable-append n (u ∷ us) email name password (ue, un, number, single, rest) new e m =
    let new_id : (n + 1) + length us ≡ n + suc (length us) = omega arith in
    let others : has_email email us ≡ false = ground arith in
    (
      ue,
      un,
      number,
      rw (has_email-append u.email us _, single)
          (ground (arith, =s=_iff u.email email, =s=_iff email u.email)),
      rw new_id at (IsTable-append (n + 1) us email name password rest others e m),
    )

add_user-IsTable :
    (us : List User) (email name password : Bytes)
    → IsTable 1 us
    → IsField email
    → IsField name
    → IsTable 1 (add_user us email name password).0
add_user-IsTable us email name password t e m = elim (Bool-cases (has_email email us)) [
  | inl known ↦ rw known t
  | inr new ↦
      let next : 1 + length us ≡ length us + 1 = omega arith in
      rw new (rw next at (IsTable-append 1 us email name password t new e m))
]

module _ (hash_pass : Bytes → Bytes) where
  -- The file of a table.
  abbrev line_of : User → Bytes
  line_of u = user_line hash_pass u.id u.email u.name u.password

  abbrev pub text_of : List User → Bytes
  text_of [] = []
  text_of (u ∷ us) = line_of u ++ (b'\n' ∷ text_of us)

  abbrev lines_of : List User → List Bytes
  lines_of [] = []
  lines_of (u ∷ us) = line_of u ∷ lines_of us

  text_of-append :
      (us : List User) (u : User) → text_of (us ++ u ∷ []) ≡ text_of us ++ (line_of u ++ b'\n' ∷ [])
  text_of-append [] u = refl
  text_of-append (v ∷ us) u = rw (text_of-append us u) (simp append_assoc)

  -- What `login` answers for a user.
  abbrev pub user_profile : User → UserProfile
  user_profile u = record {
    user_id = pos u.id;
    username = u.name;
    email = u.email;
    login_status = true;
  }

  abbrev pub table_login : List User → Bytes → Bytes → LoginResult
  table_login [] email attempt = refused (codes "Email address not present within database")
  table_login (u ∷ us) email attempt =
      if u.email =s= email
      then if hash_pass attempt =s= hash_pass u.password
        then record { found = true; profile = user_profile u }
        else refused []
      else table_login us email attempt

  module _ (digest : IsDigest hash_pass) where
    lines-text_of : (n : ℕ) (us : List User) → IsTable n us → lines (text_of us) ≡ lines_of us
    unfolding lines
    lines-text_of n [] t = refl
    lines-text_of n (u ∷ us) (e, m, _, _, rest) =
        lines_cons (line_of u) (text_of us)
          (user_line-HasNo hash_pass digest u.email u.name u.password e m u.id)
        ∙ ap (◌∷◌ (line_of u)) (lines-text_of (n + 1) us rest)

    line_of-fields :
        (u : User)
        → IsField u.email
        → IsField u.name
        → line_fields (line_of u)
          ≡ some (record {
            id = to_decimal (pos u.id);
            email = u.email;
            name = u.name;
            password = hash_pass u.password;
          })
    line_of-fields u e m = user_line-fields hash_pass digest u.email u.name u.password e m u.id

    count_users-lines_of :
        (email : Bytes) (count n : ℕ) (us : List User)
        → IsTable n us
        → count_users email count (lines_of us)
          ≡ (if has_email email us then none else some (count + length us))
    unfolding count_users
    count_users-lines_of email count n [] t = ap some (omega arith)
    count_users-lines_of email count n (u ∷ us) (e, m, _, _, rest) =
        let got = line_fields-email (line_of u) _ (line_of-fields u e m) in
        let next : (count + 1) + length us ≡ count + suc (length us) = omega arith in
        elim (Bool-cases (u.email =s= email)) [
          | inl same ↦ rw (got, same, count_users)
          | inr differs ↦
              rw (got, differs, count_users)
                (count_users-lines_of email (count + 1) (n + 1) us rest ∙ rw next)
        ]

    signup-text_of :
        (us : List User) (email name password : Bytes)
        → IsTable 1 us
        → IsField email
        → IsField name
        → IsTable 1 (add_user us email name password).0
          × (signup hash_pass (some (text_of us)) email name password ≡ (
            some (text_of (add_user us email name password).0),
            (add_user us email name password).1,
          ))
    unfolding signup
    signup-text_of us email name password t e m =
        let none_before : 0 + length us ≡ length us = omega arith in
        let counted =
          count_users-lines_of email 0 1 us t
          ∙ ap (λ n. if has_email email us then none else some n) none_before in
        (
          add_user-IsTable us email name password t e m,
          rw (lines-text_of 1 us t, counted, signup)
              (elim (Bool-cases (has_email email us)) [
                | inl known ↦ rw known
                | inr new ↦ rw new (
                    rw (
                      text_of-append us (record {
                        id = length us + 1;
                        email = email;
                        name = name;
                        password = password;
                      })))
              ]),
        )

    -- On the file of a table, or without a file where the table is empty, `signup` does what
    -- `add_user` does to the table, which stays one, and returns the same. Email and name have no bar
    -- and no line break, and an `int` can count the users.
    pub signup-add_user :
        (database : Option Bytes) (us : List User) (email name password : Bytes)
        → content database ≡ text_of us
        → IsTable 1 us
        → IsField email
        → IsField name
        → length us + 1 < 0x80000000
        → IsTable 1 (add_user us email name password).0
          × (signup hash_pass database email name password ≡ (
            some (text_of (add_user us email name password).0),
            (add_user us email name password).1,
          ))
    signup-add_user database us email name password file t e m _ =
        let (table, added) = signup-text_of us email name password t e m in
        (
          table,
          signup-content hash_pass digest email name password e m database
              ∙ ap (λ text. signup hash_pass (some text) email name password) file
              ∙ added,
        )

    login_lines-lines_of :
        (email attempt : Bytes) (n : ℕ) (us : List User)
        → IsTable n us
        → n + length us ≤ 0x80000000
        → login_lines hash_pass email attempt (lines_of us) ≡ ok (table_login us email attempt)
    unfolding login_lines check_user
    login_lines-lines_of email attempt n [] t b = refl
    login_lines-lines_of email attempt n (u ∷ us) (e, m, number, _, rest) b =
        let got = line_of-fields u e m in
        let small : u.id < 0x80000000 = omega arith in
        elim (Bool-cases (u.email =s= email)) [
          | inr differs ↦
              rw (got, differs, login_lines)
                (login_lines-lines_of email attempt (n + 1) us rest (omega arith))
          | inl same ↦ elim (Bool-cases (hash_pass attempt =s= hash_pass u.password)) [
            | inl right ↦ rw (got, same, right, stoi-to_decimal u.id small, login_lines)
            | inr wrong ↦ rw (got, same, wrong, login_lines)
          ]
        ]

    -- On the file of a table of users that an `int` can count, `login` finds the user with the email,
    -- and lets in whoever gives a password with the digest of the one at the signup.
    pub login-table_login :
        (us : List User) (email attempt : Bytes)
        → IsTable 1 us
        → length us < 0x80000000
        → login hash_pass (some (text_of us)) email attempt ≡ ok (table_login us email attempt)
    unfolding login
    login-table_login us email attempt t b =
        rw (lines-text_of 1 us t) (login_lines-lines_of email attempt 1 us t (omega arith))
