-- ===== src/Profile/Signups/Race.antt =====
-- Two calls of `signup` of src/profile_manager.cc that read the file before either writes to it.
use boost_web_server.Common.{
  ℕ, ◌+◌, ◌≡◌, refl, ap, ◌∙◌, ◌⊎◌, inl, inr, true, some, List, [], ◌∷◌, ◌++◌, arith, Option-cases,
  Bytes,
}
use boost_web_server.FileSystem.{FileSystem}
use boost_web_server.FileSystem.Laws.{FileLaws}
use boost_web_server.Threads.{
  Thread, thread_one, thread_two, Interleaving, over, one_next, two_next,
}
use boost_web_server.Profile.{lines, db_email, count_users}
use boost_web_server.Profile.Store.{new_line}
use boost_web_server.Profile.Signups.{
  SignupPhase, waiting, appending, finished, Signup, Signups, advance_signup, step_signups,
  run_signups, signup_of,
}

count_users-same :
    (email email' : Bytes) (k n m : ℕ) (ls : List Bytes)
    → count_users email k ls ≡ some n
    → count_users email' k ls ≡ some m
    → m ≡ n
unfolding count_users
count_users-same email email' k n m [] e e' = cc
count_users-same email email' k n m (l ∷ ls) e e' = elim (Option-cases (db_email l)) [
  | inl no_bar ↦
      let next : count_users email k ls ≡ some n = rw (no_bar, count_users) at e in
      let next' : count_users email' k ls ≡ some m = rw (no_bar, count_users) at e' in
      count_users-same email email' k n m ls next next'
  | inr (here, bar) ↦
      let next : count_users email (k + 1) ls ≡ some n = ground arith in
      let next' : count_users email' (k + 1) ls ≡ some m = ground arith in
      count_users-same email email' (k + 1) n m ls next next'
]

module _ (fs : FileSystem) (hash_pass : Bytes → Bytes) (path : Bytes) where
  open fs use {Disk, exists, read_file, append_file}

  reads-count :
      (u : Signup) (disk : Disk) (text : Bytes) (n : ℕ)
      → exists disk path ≡ true
      → read_file disk path ≡ some text
      → count_users u.email 0 (lines text) ≡ some n
      → advance_signup fs hash_pass path waiting u disk ≡ (record u { phase = appending n }, disk)
  unfolding advance_signup
  reads-count u disk text n there found fresh = rw (there, found, fresh)

  module _ (laws : FileLaws fs) where
    open laws use {IsWritable, read-append, IsWritable-append}

    module _ (email name password email' name' password' : Bytes) where
      abbrev pub two_signups : SignupPhase → SignupPhase → Disk → Signups Disk
      two_signups p p' disk = record {
        one = signup_of fs hash_pass path email name password p;
        two = signup_of fs hash_pass path email' name' password' p';
        disk = disk;
      }

      both-count :
          (disk : Disk) (text : Bytes) (n : ℕ)
          → exists disk path ≡ true
          → read_file disk path ≡ some text
          → count_users email 0 (lines text) ≡ some n
          → count_users email' 0 (lines text) ≡ some n
          → step_signups fs hash_pass path thread_two
              (step_signups fs hash_pass path thread_one (two_signups waiting waiting disk))
            ≡ two_signups (appending n) (appending n) disk
      unfolding step_signups
      both-count disk text n there found fresh fresh' =
          let u = signup_of fs hash_pass path email name password waiting in
          let u' = signup_of fs hash_pass path email' name' password' waiting in
          let first : step_signups fs hash_pass path thread_one (two_signups waiting waiting disk)
              ≡ two_signups (appending n) waiting disk =
            ap (λ r. record { one = r.0; two = u'; disk = r.1 })
              (reads-count u disk text n there found fresh) in
          let second : step_signups fs hash_pass path thread_two
                (two_signups (appending n) waiting disk)
              ≡ two_signups (appending n) (appending n) disk =
            ap
              (λ r. record {
                one = signup_of fs hash_pass path email name password (appending n);
                two = r.0;
                disk = r.1;
              })
              (reads-count u' disk text n there found fresh') in
          ap (step_signups fs hash_pass path thread_two) first ∙ second

      appended :
          (disk : Disk) (text line line' : Bytes)
          → IsWritable disk path
          → read_file disk path ≡ some text
          → read_file (append_file (append_file disk path line) path line') path
            ≡ some ((text ++ line) ++ line')
      appended disk text line line' can found =
          read-append (append_file disk path line) path (text ++ line) line'
            (IsWritable-append disk path line can) (read-append disk path text line can found)

      both-append :
          (disk : Disk) (text : Bytes) (n : ℕ) (ts : List Thread)
          → IsWritable disk path
          → read_file disk path ≡ some text
          → Interleaving 1 1 ts
          → (disk' : Disk) × (run_signups fs hash_pass path ts
                (two_signups (appending n) (appending n) disk)
              ≡ two_signups (finished true) (finished true) disk')
            × ((read_file disk' path
                  ≡ some (
                      (text ++ new_line fs hash_pass (n + 1) email name password)
                      ++ new_line fs hash_pass (n + 1) email' name' password'))
                ⊎ (read_file disk' path
                    ≡ some (
                        (text ++ new_line fs hash_pass (n + 1) email' name' password')
                        ++ new_line fs hash_pass (n + 1) email name password)))
      unfolding run_signups step_signups advance_signup
      both-append disk text n ts can found (one_next (two_next over)) =
          (_, refl, inl (appended disk text _ _ can found))
      both-append disk text n ts can found (two_next (one_next over)) =
          (_, refl, inr (appended disk text _ _ can found))

    -- Where the first thread and then the second read the file of the users before either writes to
    -- it, both signups succeed, in whichever order they write, and both users get the same number,
    -- even where the emails are the same. The emails are not in the file, which can be read and
    -- written.
    pub run_signups-same_number :
        (email name password email' name' password' : Bytes) (disk : Disk) (text : Bytes) (n m : ℕ)
        (ts : List Thread)
        → IsWritable disk path
        → exists disk path ≡ true
        → read_file disk path ≡ some text
        → count_users email 0 (lines text) ≡ some n
        → count_users email' 0 (lines text) ≡ some m
        → Interleaving 1 1 ts
        → (disk' : Disk) × (run_signups fs hash_pass path (thread_one ∷ thread_two ∷ ts) (record {
          one = signup_of fs hash_pass path email name password waiting;
          two = signup_of fs hash_pass path email' name' password' waiting;
          disk = disk;
        })
            ≡ record {
              one = signup_of fs hash_pass path email name password (finished true);
              two = signup_of fs hash_pass path email' name' password' (finished true);
              disk = disk';
            })
          × ((read_file disk' path
                ≡ some (
                    (text ++ new_line fs hash_pass (n + 1) email name password)
                    ++ new_line fs hash_pass (n + 1) email' name' password'))
              ⊎ (read_file disk' path
                  ≡ some (
                      (text ++ new_line fs hash_pass (n + 1) email' name' password')
                      ++ new_line fs hash_pass (n + 1) email name password)))
    unfolding run_signups step_signups advance_signup
    run_signups-same_number email name password email' name' password' disk text n m ts can there
          found fresh fresh' order =
        let same = count_users-same email email' 0 n m (lines text) fresh fresh' in
        let (disk', ran, written) =
          both-append email name password email' name' password' disk text n ts can found order in
        (
          disk',
          ap (run_signups fs hash_pass path ts) (
                both-count email name password email' name' password' disk text n there found fresh
                  (fresh' ∙ ap some same))
              ∙ ran,
          written,
        )
