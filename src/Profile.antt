-- ===== src/Profile.antt =====
-- src/profile_manager.cc: users with their passwords, in one text file with a line for each user,
-- and the part of src/session.cc that takes a user from a cookie. The file at `data_path` is the
-- only state; it is `none` as long as it does not exist. A field of a line is what stands between
-- two bars. The digest of OpenSSL is a parameter.
pub mod Lines
pub mod Login
pub mod Emails
pub mod Cookie
pub mod Store
pub mod Signups
pub mod Table
pub mod SampleDigest
mod Tests
use boost_web_server.Common.{
  ℕ, ◌+◌, Bool, true, false, Option, none, some, List, [], ◌∷◌, ◌++◌, ◌==◌, if◌then◌else◌, take,
  Bytes, codes, ◌=s=◌, pos, negsuc, stoi, to_decimal, Result, ok, ◌>>=◌,
}
use boost_web_server.Http.{UserProfile}

-- The lines that `std::getline` reads one after the other.
unfoldable pub cons_first : ℕ → List Bytes → List Bytes
cons_first c [] = (c ∷ []) ∷ []
cons_first c (l ∷ ls) = (c ∷ l) ∷ ls

unfoldable pub lines : Bytes → List Bytes
unfolding cons_first
lines [] = []
lines (c ∷ cs) = let rest = lines cs in if c == b'\n' then [] ∷ rest else cons_first c rest

-- What stands before the first bar, and what stands behind it.
unfoldable pub cut_bar : Bytes → Option (Bytes × Bytes)
cut_bar [] = none
cut_bar (c ∷ cs) =
    let later = cut_bar cs in
    if c == b'|'
    then some ([], cs)
    else elim later [ none ↦ none | some parts ↦ some (c ∷ parts.0, parts.1) ]

-- The `info` of `signup_string`, `update_cookie` and `update_user`: the pieces between bars. An
-- empty piece at the end is left out.
unfoldable pub split_bars : Bytes → List Bytes
unfolding cons_first
split_bars [] = []
split_bars (c ∷ cs) = let rest = split_bars cs in if c == b'|' then [] ∷ rest else cons_first c rest

-- The email of a line, as `email_exists` and `signup` read it: up to the second bar, or to the
-- end of the line.
abbrev pub before_bar : Bytes → Bytes
before_bar rest = elim (cut_bar rest) [ none ↦ rest | some parts ↦ parts.0 ]

unfoldable pub db_email : Bytes → Option Bytes
db_email line = elim (cut_bar line) [ none ↦ none | some parts ↦ some (before_bar parts.1) ]

unfoldable pub email_in : Bytes → List Bytes → Bool
email_in email [] = false
email_in email (l ∷ ls) =
    let later = email_in email ls in
    elim (db_email l) [ none ↦ later | some e ↦ if email =s= e then true else later ]

unfoldable pub email_exists : Option Bytes → Bytes → Bool
unfolding email_in
email_exists none email = false
email_exists (some text) email = email_in email (lines text)

-- The loop of `signup`: `num_users` at its end, or `none` where the email is found.
unfoldable pub count_users : Bytes → ℕ → List Bytes → Option ℕ
count_users email num_users [] = some num_users
count_users email num_users (l ∷ ls) = elim (db_email l) [
  | none ↦ count_users email num_users ls
  | some e ↦ if e =s= email then none else count_users email (num_users + 1) ls
]

-- The fields that `login` reads from a line. Without a third bar `name_end` is `npos`, and the
-- password is looked for at the start of the line.
pub record Fields : Type 0 where
  pub id : Bytes
  pub email : Bytes
  pub name : Bytes
  pub password : Bytes

unfoldable pub name_fields : Bytes → Bytes → Bytes → Bytes → Fields
name_fields line id email rest = elim (cut_bar rest) [
  | none ↦ record { id = id; email = email; name = rest; password = take 64 line }
  | some parts ↦ record { id = id; email = email; name = parts.0; password = take 64 parts.1 }
]

unfoldable pub line_fields : Bytes → Option Fields
unfolding name_fields
line_fields line = elim (cut_bar line) [
  | none ↦ none
  | some parts ↦ elim (cut_bar parts.1) [
    | none ↦ none
    | some more ↦ some (name_fields line parts.0 more.0 more.1)
  ]
]

-- A profile of no user, with the text that `login` leaves as its name.
abbrev pub nobody : Bytes → UserProfile
nobody text = record { user_id = negsuc 0; username = text; email = []; login_status = false }

-- The result of `login`, and the profile behind its reference.
pub record LoginResult : Type 0 where
  pub found : Bool
  pub profile : UserProfile

abbrev pub refused : Bytes → LoginResult
refused text = record { found = false; profile = nobody text }

module _ (hash_pass : Bytes → Bytes) where
  unfoldable pub check_user : Bytes → Fields → Result LoginResult
  check_user password f =
      if hash_pass password =s= f.password
      then (stoi f.id >>= λ id. ok (record {
        found = true;
        profile = record { user_id = id; username = f.name; email = f.email; login_status = true };
      }))
      else ok (refused [])

  unfoldable pub login_lines : Bytes → Bytes → List Bytes → Result LoginResult
  unfolding check_user
  login_lines email password [] = ok (refused (codes "Email address not present within database"))
  login_lines email password (l ∷ ls) = elim (line_fields l) [
    | none ↦ login_lines email password ls
    | some f ↦ if f.email =s= email then check_user password f else login_lines email password ls
  ]

  unfoldable pub login : Option Bytes → Bytes → Bytes → Result LoginResult
  unfolding login_lines
  login none email password = ok (refused (codes "Database file does not exist"))
  login (some text) email password = login_lines email password (lines text)

  -- The line of a new user.
  unfoldable pub user_line : ℕ → Bytes → Bytes → Bytes → Bytes
  user_line id email name password =
      to_decimal (pos id) ++ (b'|' ∷ (email ++ (b'|' ∷ (name ++ (b'|' ∷ hash_pass password)))))

  -- The file behind the call, and what the call returns.
  unfoldable pub signup : Option Bytes → Bytes → Bytes → Bytes → Option Bytes × Bool
  unfolding user_line
  signup none email name password = (some (user_line 1 email name password ++ b'\n' ∷ []), true)
  signup (some text) email name password = elim (count_users email 0 (lines text)) [
    | none ↦ (some text, false)
    | some num_users ↦
        (some (text ++ (user_line (num_users + 1) email name password ++ b'\n' ∷ [])), true)
  ]

  unfoldable pub signup_info : Option Bytes → List Bytes → Option Bytes × Bool
  signup_info database (name ∷ password ∷ email ∷ []) = signup database email name password
  signup_info database _ = (database, false)

  unfoldable pub signup_string : Option Bytes → Bytes → Option Bytes × Bool
  unfolding signup_info
  signup_string database data_ = signup_info database (split_bars data_)

  -- The cookie that stands for a user, in quotes.
  unfoldable pub user_cookie : LoginResult → Bytes
  user_cookie r =
      if r.found
      then b'"'
        ∷ (to_decimal r.profile.user_id
            ++ (b'|' ∷ (r.profile.username ++ (b'|' ∷ (r.profile.email ++ b'"' ∷ [])))))
      else []

  unfoldable pub cookie_info : Option Bytes → List Bytes → Result Bytes
  unfolding user_cookie
  cookie_info database (kind ∷ email ∷ password ∷ []) =
      if kind =s= codes "crazyCode"
      then (login database email password >>= λ r. ok (user_cookie r))
      else ok []
  cookie_info database _ = ok []

  unfoldable pub update_cookie : Option Bytes → Bytes → Result Bytes
  unfolding cookie_info
  update_cookie database cookie_string = cookie_info database (split_bars cookie_string)

-- `session::update_user` on the parameters that `param_list` of Boost.Beast finds in the cookie:
-- what it returns, and the user behind its reference.
unfoldable pub user_of_info : List Bytes → UserProfile → Result (Bool × UserProfile)
user_of_info (id ∷ name ∷ email ∷ []) user = do
  n ← stoi id
  ok (true, record { user_id = n; username = name; email = email; login_status = true })
user_of_info _ user = ok (false, user)

unfoldable pub update_user : List (Bytes × Bytes) → UserProfile → Result (Bool × UserProfile)
unfolding user_of_info
update_user [] user = ok (false, user)
update_user ((name, value) ∷ params) user =
    let later = update_user params user in
    if name =s= codes "crazyCode" then user_of_info (split_bars value) user else later
