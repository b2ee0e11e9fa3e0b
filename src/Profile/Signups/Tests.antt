-- ===== src/Profile/Signups/Tests.antt =====
-- Two calls of `signup` of src/profile_manager.cc with one email, on two threads.
use boost_web_server.Common.{
  ◌≡◌, refl, ◌⊎◌, true, false, some, [], ◌∷◌, ◌++◌, Bytes, codes, ◌=s=◌, to_decimal, map_find,
  map_set,
}
use boost_web_server.Profile.Signups.Race.{run_signups-same_number}
use boost_web_server.FileSystem.{FileSystem}
use boost_web_server.FileSystem.Memory.{FileList, files_below, files_below-FileLaws}
use boost_web_server.Threads.{thread_one, thread_two, over, one_next, two_next}
use boost_web_server.Profile.{lines, cut_bar, db_email, count_users, user_line}
use boost_web_server.Profile.Store.{new_line}
use boost_web_server.Profile.Signups.{
  waiting, finished, Signups, advance_signup, step_signups, run_signups, signup_of,
}

signups_code : Unit {0}
unfolding ◌=s=◌ map_find map_set lines cut_bar db_email count_users user_line to_decimal
    advance_signup step_signups run_signups
signups_code = tt

abbrev fs : FileSystem
fs = files_below (codes "data")

abbrev path : Bytes
path = codes "data/users"

abbrev text : Bytes
text = codes "1|a@x|Ann|pw\n"

abbrev before : FileList
before = (path, text) ∷ []

-- A digest that is the password.
abbrev at_start : Signups FileList
at_start = record {
  one = signup_of fs (λ s. s) path (codes "b@x") (codes "Bob") (codes "p") waiting;
  two = signup_of fs (λ s. s) path (codes "b@x") (codes "Bea") (codes "q") waiting;
  disk = before;
}

race_run :
    (run_signups fs
      (λ s. s)
      path
      (thread_one ∷ thread_two ∷ thread_two ∷ thread_one ∷ [])
      at_start).disk
    ≡ (path, codes "1|a@x|Ann|pw\n2|b@x|Bea|q\n2|b@x|Bob|p\n") ∷ []
unfolding signups_code
race_run = refl

-- Without a file, the second call writes over what the first one wrote.
first_users_run :
    (run_signups fs
      (λ s. s)
      path
      (thread_one ∷ thread_two ∷ thread_two ∷ thread_one ∷ [])
      (record at_start { disk = [] })).disk
    ≡ (path, codes "1|b@x|Bob|p\n") ∷ []
unfolding signups_code
first_users_run = refl

users_there : FileSystem.exists fs before path ≡ true
unfolding signups_code
users_there = refl

users_found : FileSystem.read_file fs before path ≡ some text
unfolding signups_code
users_found = refl

users_writable : (path =s= codes "data") ≡ false
unfolding signups_code
users_writable = refl

bob_fresh : count_users (codes "b@x") 0 (lines text) ≡ some 1
unfolding signups_code
bob_fresh = refl

run_signups-same_number_example :
    (disk' : FileList) × (run_signups fs
        (λ s. s)
        path
        (thread_one ∷ thread_two ∷ thread_two ∷ thread_one ∷ [])
        at_start
      ≡ record {
        one = signup_of fs (λ s. s) path (codes "b@x") (codes "Bob") (codes "p") (finished true);
        two = signup_of fs (λ s. s) path (codes "b@x") (codes "Bea") (codes "q") (finished true);
        disk = disk';
      })
    × ((map_find path disk'
          ≡ some (
              (text ++ new_line fs (λ s. s) 2 (codes "b@x") (codes "Bob") (codes "p"))
              ++ new_line fs (λ s. s) 2 (codes "b@x") (codes "Bea") (codes "q")))
        ⊎ (map_find path disk'
            ≡ some (
                (text ++ new_line fs (λ s. s) 2 (codes "b@x") (codes "Bea") (codes "q"))
                ++ new_line fs (λ s. s) 2 (codes "b@x") (codes "Bob") (codes "p"))))
run_signups-same_number_example =
    run_signups-same_number fs (λ s. s) path (files_below-FileLaws (codes "data")) (codes "b@x")
      (codes "Bob") (codes "p") (codes "b@x") (codes "Bea") (codes "q") before text 1 1
      (thread_two ∷ thread_one ∷ []) users_writable users_there users_found bob_fresh bob_fresh
      (two_next (one_next over))
