-- ===== src/Profile/Emails.antt =====
-- The emails in the file of src/profile_manager.cc.
use boost_web_server.Common.{
  ℕ, ◌+◌, ◌<◌, ◌≡◌, refl, sym, ◌∙◌, ◌⊎◌, inl, inr, true, false, ◌||◌, Option, none, some, List, [],
  ◌∷◌, ◌++◌, arith, Bool-cases, Option-cases, length, Bytes, ◌=s=◌, =s=_iff,
}
use boost_web_server.Profile.Login.{
  IsField, IsDigest, user_line-HasNo, user_line-fields, signup-content,
}
use boost_web_server.FileSystem.{content}
use boost_web_server.Profile.{
  lines, db_email, email_in, email_exists, count_users, user_line, signup,
}
use boost_web_server.Profile.Lines.{
  IsClosed, lines-append, lines_one, IsClosed-append, line_fields-email,
}

-- The loop of `signup` and that of `email_exists` agree.
count_users-email_in :
    (email : Bytes) (n : ℕ) (ls : List Bytes)
    → ((count_users email n ls ≡ none) × (email_in email ls ≡ true))
      ⊎ ((m : ℕ) × (count_users email n ls ≡ some m) × (email_in email ls ≡ false))
unfolding count_users email_in
count_users-email_in email n [] = inr (n, refl, refl)
count_users-email_in email n (l ∷ ls) = elim (Option-cases (db_email l)) [
  | inl no_email ↦ rw (no_email, count_users, email_in) (count_users-email_in email n ls)
  | inr (e, got) ↦ elim (Bool-cases (e =s= email)) [
    | inl same ↦ inl (ground arith, ground (arith, =s=_iff e email, =s=_iff email e))
    | inr differs ↦ elim (count_users-email_in email (n + 1) ls) [
      | inl known ↦ inl (ground (arith, known.0), ground (arith, known.1))
      | inr (m, fresh, unknown) ↦
          inr (m, ground (arith, fresh), ground (arith, unknown, =s=_iff e email, =s=_iff email e))
    ]
  ]
]

-- The text behind a signup with a new email.
pub signup_fresh :
    (hash_pass : Bytes → Bytes) (text email name password : Bytes)
    → email_exists (some text) email ≡ false
    → (text' : Bytes) × (signup hash_pass (some text) email name password ≡ (some text', true))
unfolding signup email_exists
signup_fresh hash_pass text email name password h =
    elim (count_users-email_in email 0 (lines text)) [
      | inl known ↦ absurd (ground (arith, known.1))
      | inr (m, fresh, unknown) ↦ (
        text ++ (user_line hash_pass (m + 1) email name password ++ b'\n' ∷ []),
        rw (fresh, signup),
      )
    ]

email_in-append :
    (email : Bytes) (ls ms : List Bytes)
    → email_in email (ls ++ ms) ≡ (email_in email ls || email_in email ms)
unfolding email_in
email_in-append email [] ms = refl
email_in-append email (l ∷ ls) ms = ground (arith, email_in-append email ls ms)

module _ (hash_pass : Bytes → Bytes) (digest : IsDigest hash_pass) (email name password : Bytes)
    (email_field : IsField email) (name_field : IsField name) where
  email_in-user_line :
      (other_email : Bytes) (id : ℕ)
      → email_in other_email (user_line hash_pass id email name password ∷ [])
        ≡ other_email =s= email
  unfolding email_in
  email_in-user_line other_email id =
      let read = user_line-fields hash_pass digest email name password email_field name_field id in
      let got = line_fields-email (user_line hash_pass id email name password) _ read in
      ground (arith, got)

  adds_email :
      (text text' other_email : Bytes)
      → IsClosed text
      → signup hash_pass (some text) email name password ≡ (some text', true)
      → IsClosed text'
        × (email_exists (some text') other_email
            ≡ (email_exists (some text) other_email || (other_email =s= email)))
  unfolding signup email_exists
  adds_email text text' other_email closed signed =
      elim (Option-cases (count_users email 0 (lines text))) [
        | inl known ↦ ground arith
        | inr (m, fresh) ↦
            let l = user_line hash_pass (m + 1) email name password in
            let whole =
              user_line-HasNo hash_pass digest email name password email_field name_field (m + 1) in
            let grown : text' ≡ text ++ (l ++ b'\n' ∷ []) = ground arith in
            (
              rw grown (IsClosed-append l whole closed),
              rw (grown, lines-append (l ++ b'\n' ∷ []) closed, lines_one l whole)
                  (email_in-append other_email (lines text) (l ∷ [])
                    ∙ rw (email_in-user_line other_email (m + 1))),
            )
      ]

  -- After a signup that succeeds, the first one or a later one, the file consists of complete lines
  -- as before, and the emails that `email_exists` finds are those found before and the new one. The
  -- lines before are fewer than an `int` can count, email and name have no bar and no line break, and
  -- a digest is 64 bytes without a line break.
  pub signup_adds_email :
      (database : Option Bytes) (text' other_email : Bytes)
      → IsClosed (content database)
      → length (lines (content database)) + 1 < 0x80000000
      → signup hash_pass database email name password ≡ (some text', true)
      → IsClosed text'
        × (email_exists (some text') other_email
            ≡ (email_exists database other_email || (other_email =s= email)))
  unfolding email_exists lines email_in
  signup_adds_email none text' other_email closed _ signed =
      adds_email [] text' other_email closed (
        sym (signup-content hash_pass digest email name password email_field name_field none)
        ∙ signed)
  signup_adds_email (some text) text' other_email closed _ signed =
      adds_email text text' other_email closed signed
