-- ===== src/Profile/Signups.antt =====
-- Two calls of `signup` of src/profile_manager.cc on two threads of the server, on one file without a
-- lock. A step of a thread is the reading of the file, or the writing of the new line.
pub mod Race
mod Tests
use boost_web_server.Common.{
  ℕ, ◌+◌, ◌≡◌, inl, inr, Bool, true, false, none, some, List, [], ◌∷◌, if◌then◌else◌, Bool-cases,
  Option-cases, Bytes, ◌>>=◌,
}
use boost_web_server.FileSystem.{FileSystem, content}
use boost_web_server.Threads.{Thread, thread_one, thread_two}
use boost_web_server.Profile.{lines, count_users}
use boost_web_server.Profile.Store.{new_line, signup_on}

-- Where `signup` stands: before the file is read, with the number of users, without a file, and at
-- the end with its result.
pub data SignupPhase : Type 0 where
  waiting : SignupPhase
  appending : ℕ → SignupPhase
  creating : SignupPhase
  finished : Bool → SignupPhase

pub record Signup : Type 0 where
  pub email : Bytes
  pub name : Bytes
  pub password : Bytes
  pub phase : SignupPhase

pub record Signups (Disk : Type 0) : Type 0 where
  pub one : Signup
  pub two : Signup
  pub disk : Disk

module _ (fs : FileSystem) (hash_pass : Bytes → Bytes) (path : Bytes) where
  open fs use {Disk, exists, read_file, write_file, append_file}

  unfoldable pub advance_signup : SignupPhase → Signup → Disk → Signup × Disk
  advance_signup waiting u disk =
      if exists disk path
      then elim (count_users u.email 0 (lines (content (read_file disk path)))) [
        | none ↦ (record u { phase = finished false }, disk)
        | some num_users ↦ (record u { phase = appending num_users }, disk)
      ]
      else (record u { phase = creating }, disk)
  advance_signup (appending num_users) u disk = (
    record u { phase = finished true },
    append_file disk path (new_line fs hash_pass (num_users + 1) u.email u.name u.password),
  )
  advance_signup creating u disk = (
    record u { phase = finished true },
    write_file disk path (new_line fs hash_pass 1 u.email u.name u.password),
  )
  advance_signup (finished result) u disk = (u, disk)

  unfoldable pub step_signups : Thread → Signups Disk → Signups Disk
  unfolding advance_signup
  step_signups thread_one s =
      let r = advance_signup s.one.phase s.one s.disk in record s { one = r.0; disk = r.1 }
  step_signups thread_two s =
      let r = advance_signup s.two.phase s.two s.disk in record s { two = r.0; disk = r.1 }

  unfoldable pub run_signups : List Thread → Signups Disk → Signups Disk
  unfolding step_signups
  run_signups [] s = s
  run_signups (t ∷ ts) s = run_signups ts (step_signups t s)

  abbrev pub signup_of : Bytes → Bytes → Bytes → SignupPhase → Signup
  signup_of email name password phase = record {
    email = email;
    name = name;
    password = password;
    phase = phase;
  }

  -- The two steps of a call with none of another thread between them are `signup_on`.
  pub advance-signup_on :
      (email name password : Bytes) (disk : Disk) (r : Signup × Disk)
      → advance_signup waiting (signup_of email name password waiting) disk ≡ r
      → advance_signup r.0.phase r.0 r.1 ≡ (
        signup_of email name password
            (finished (signup_on fs hash_pass path email name password disk).1),
        (signup_on fs hash_pass path email name password disk).0,
      )
  unfolding advance_signup signup_on
  advance-signup_on email name password disk r first = elim (Bool-cases (exists disk path)) [
    | inl there ↦
        elim (Option-cases (count_users email 0 (lines (content (read_file disk path))))) [
          | inl known ↦ rw (← first) (rw (there, known, advance_signup, signup_on))
          | inr (n, fresh) ↦ rw (← first) (rw (there, fresh, advance_signup, signup_on))
        ]
    | inr missing ↦ rw (← first) (rw (missing, advance_signup, signup_on))
  ]
