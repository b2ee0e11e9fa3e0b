-- ===== src/Profile/Login.antt =====
-- Who can log in by src/profile_manager.cc after a signup.
use boost_web_server.Common.{
  ℕ, suc, ◌+◌, ◌≤◌, ◌<◌, ◌≡◌, refl, sym, ◌∙◌, inl, inr, true, false, Option, none, some, List, [],
  ◌∷◌, ◌++◌, arith, if◌then◌else◌, Bool-cases, Option-cases, length, take, take-length, Bytes,
  ◌=s=◌, =s=_refl, pos, isdigit, to_decimal, digits_of-IsDigits, stoi-to_decimal, ok,
}
use boost_web_server.FileSystem.{content}
use boost_web_server.Profile.{
  lines, db_email, count_users, name_fields, line_fields, refused, check_user, login_lines, login,
  user_line, signup,
}
use boost_web_server.Profile.Lines.{
  HasNo, IsClosed, lines-append, lines_one, cut_bar-field, HasNo-append, digits-HasNo,
  line_fields-email,
}

-- A text that fits between two bars of a line.
abbrev pub IsField : Bytes → Type 0
IsField s = HasNo b'|' s × HasNo b'\n' s

-- What the digest is relied on for: 64 bytes without a line break.
pub record IsDigest (hash_pass : Bytes → Bytes) : Type 0 where
  pub digest_length : (s : Bytes) → length (hash_pass s) ≡ 64
  pub digest_bytes : (s : Bytes) → HasNo b'\n' (hash_pass s)

-- The lines in which `signup` does not find the email are those that `login` skips.
skipped :
    (hash_pass : Bytes → Bytes) (email password : Bytes) (n m : ℕ) (ls more : List Bytes)
    → count_users email n ls ≡ some m
    → login_lines hash_pass email password (ls ++ more) ≡ login_lines hash_pass email password more
unfolding login_lines count_users
skipped hash_pass email password n m [] more e = refl
skipped hash_pass email password n m (l ∷ ls) more e = elim (Option-cases (line_fields l)) [
  | inl none_of ↦ elim (Option-cases (db_email l)) [
    | inl no_email ↦
        rw (none_of, login_lines) (skipped hash_pass email password n m ls more (ground arith))
    | inr (found_email, got) ↦
        rw (none_of, login_lines)
          (skipped hash_pass email password (n + 1) m ls more (ground arith))
  ]
  | inr (f, got) ↦
      let same = line_fields-email l f got in
      let differs : (f.email =s= email) ≡ false = ground arith in
      rw (got, differs, login_lines)
        (skipped hash_pass email password (n + 1) m ls more (ground arith))
]

counted :
    (email : Bytes) (n m : ℕ) (ls : List Bytes)
    → count_users email n ls ≡ some m
    → m ≤ n + length ls
unfolding count_users
counted email n m [] e = ground arith
counted email n m (l ∷ ls) e = elim (Option-cases (db_email l)) [
  | inl no_email ↦ omega (arith, counted email n m ls (ground arith))
  | inr (found_email, got) ↦ omega (arith, counted email (n + 1) m ls (ground arith))
]

module _ (hash_pass : Bytes → Bytes) (digest : IsDigest hash_pass) (email name password : Bytes)
    (email_field : IsField email) (name_field : IsField name) where
  pub user_line-HasNo : (id : ℕ) → HasNo b'\n' (user_line hash_pass id email name password)
  unfolding user_line to_decimal isdigit
  user_line-HasNo id =
      HasNo-append b'\n' (to_decimal (pos id)) _
        (digits-HasNo b'\n' (to_decimal (pos id)) (unfold isdigit in refl)
          (digits_of-IsDigits (suc id) id))
        (
          omega arith,
          HasNo-append b'\n' email _ email_field.1 (
            omega arith,
            HasNo-append b'\n' name _ name_field.1 (omega arith, digest.digest_bytes password),
          ),
        )

  four_fields :
      (id : Bytes)
      → HasNo b'|' id
      → line_fields (id ++ (b'|' ∷ (email ++ (b'|' ∷ (name ++ (b'|' ∷ hash_pass password))))))
        ≡ some (record { id = id; email = email; name = name; password = hash_pass password })
  unfolding line_fields name_fields
  four_fields id h =
      let whole : take 64 (hash_pass password) ≡ hash_pass password =
        rw digest.digest_length at (take-length (hash_pass password)) in
      rw (
        cut_bar-field id (email ++ (b'|' ∷ (name ++ (b'|' ∷ hash_pass password)))) h,
        cut_bar-field email (name ++ (b'|' ∷ hash_pass password)) email_field.0,
        cut_bar-field name (hash_pass password) name_field.0,
        whole,
        line_fields,
        name_fields,
      )

  pub user_line-fields :
      (id : ℕ)
      → line_fields (user_line hash_pass id email name password)
        ≡ some (record {
          id = to_decimal (pos id);
          email = email;
          name = name;
          password = hash_pass password;
        })
  unfolding user_line
  user_line-fields id = four_fields (to_decimal (pos id)) (
      digits-HasNo b'|' (to_decimal (pos id)) (unfold isdigit in refl)
        (unfold to_decimal in digits_of-IsDigits (suc id) id))

  -- The new line alone.
  login_new :
      (attempt : Bytes) (n : ℕ)
      → n < 0x80000000
      → login_lines hash_pass email attempt (user_line hash_pass n email name password ∷ [])
        ≡ ok (
            if hash_pass attempt =s= hash_pass password
            then record {
              found = true;
              profile = record {
                user_id = pos n;
                username = name;
                email = email;
                login_status = true;
              };
            }
            else refused [])
  unfolding login_lines check_user
  login_new attempt n b = elim (Bool-cases (hash_pass attempt =s= hash_pass password)) [
    | inl e ↦ rw (user_line-fields n, =s=_refl email, e, stoi-to_decimal n b, login_lines)
    | inr e ↦ rw (user_line-fields n, =s=_refl email, e, login_lines)
  ]

  -- Without a file `signup` does what it does with an empty one.
  pub signup-content :
      (database : Option Bytes)
      → signup hash_pass database email name password
        ≡ signup hash_pass (some (content database)) email name password
  unfolding signup lines count_users
  signup-content none = refl
  signup-content (some text) = refl

  login_signed :
      (text text' attempt : Bytes)
      → IsClosed text
      → length (lines text) + 1 < 0x80000000
      → signup hash_pass (some text) email name password ≡ (some text', true)
      → (n : ℕ) × (1 ≤ n)
        × (n < 0x80000000)
        × (login hash_pass (some text') email attempt
            ≡ ok (
                if hash_pass attempt =s= hash_pass password
                then record {
                  found = true;
                  profile = record {
                    user_id = pos n;
                    username = name;
                    email = email;
                    login_status = true;
                  };
                }
                else refused []))
  unfolding signup login
  login_signed text text' attempt closed b signed =
      elim (Option-cases (count_users email 0 (lines text))) [
        | inl known ↦ ground arith
        | inr (m, fresh) ↦
            let few = counted email 0 m (lines text) fresh in
            let l = user_line hash_pass (m + 1) email name password in
            let grown : text' ≡ text ++ (l ++ b'\n' ∷ []) = ground arith in
            (
              m + 1,
              omega arith,
              omega arith,
              rw
                  (
                    grown,
                    lines-append (l ++ b'\n' ∷ []) closed,
                    lines_one l (user_line-HasNo (m + 1)),
                  )
                  (skipped hash_pass email attempt 0 m (lines text) (l ∷ []) fresh
                    ∙ login_new attempt (m + 1) (omega arith)),
            )
      ]

  -- A user who was signed up, as the first one or a later one, can log in with every password that
  -- has the digest of the one given at the signup, and with no other: the profile has the name and
  -- the email of the signup and a positive number that fits an `int`. The file, if there is one,
  -- consists of complete lines, fewer than an `int` can count, name and email have no bar and no
  -- line break, and a digest is 64 bytes without a line break.
  pub signup-login :
      (database : Option Bytes) (text' attempt : Bytes)
      → IsClosed (content database)
      → length (lines (content database)) + 1 < 0x80000000
      → signup hash_pass database email name password ≡ (some text', true)
      → (n : ℕ) × (1 ≤ n)
        × (n < 0x80000000)
        × (login hash_pass (some text') email attempt
            ≡ ok (
                if hash_pass attempt =s= hash_pass password
                then record {
                  found = true;
                  profile = record {
                    user_id = pos n;
                    username = name;
                    email = email;
                    login_status = true;
                  };
                }
                else refused []))
  signup-login database text' attempt closed b signed =
      login_signed (content database) text' attempt closed b
        (sym (signup-content database) ∙ signed)
