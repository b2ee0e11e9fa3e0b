-- ===== src/Profile/Store.antt =====
-- src/profile_manager.cc on a disk: the database is the file at `data_path`.
mod Tests
use boost_web_server.Common.{
  ℕ, ◌+◌, ◌≡◌, inl, inr, Bool, true, false, Option, none, some, List, [], ◌∷◌, ◌++◌, if◌then◌else◌,
  Bool-cases, Option-cases, Bytes, codes,
}
use boost_web_server.FileSystem.{FileSystem, content}
use boost_web_server.FileSystem.Laws.{FileLaws}
use boost_web_server.Profile.{lines, split_bars, count_users, user_line, signup}

-- `directory_path + "user_database.txt"`
abbrev pub data_path : Bytes → Bytes
data_path directory_path = directory_path ++ codes "user_database.txt"

module _ (fs : FileSystem) (hash_pass : Bytes → Bytes) where
  open fs use {Disk, exists, read_file, write_file, append_file}

  -- What the methods find at the path: `none` if `exists` fails.
  unfoldable pub database : Bytes → Disk → Option Bytes
  database path disk = if exists disk path then some (content (read_file disk path)) else none

  -- The line that `signup` writes.
  abbrev pub new_line : ℕ → Bytes → Bytes → Bytes → Bytes
  new_line id email name password = user_line hash_pass id email name password ++ b'\n' ∷ []

  -- `signup` with its streams: the disk behind the call, and what the call returns.
  unfoldable pub signup_on : Bytes → Bytes → Bytes → Bytes → Disk → Disk × Bool
  signup_on path email name password disk =
      if exists disk path
      then elim (count_users email 0 (lines (content (read_file disk path)))) [
        | none ↦ (disk, false)
        | some num_users ↦
            (append_file disk path (new_line (num_users + 1) email name password), true)
      ]
      else (write_file disk path (new_line 1 email name password), true)

  unfoldable pub signup_info_on : Bytes → List Bytes → Disk → Disk × Bool
  unfolding signup_on
  signup_info_on path (name ∷ password ∷ email ∷ []) disk = signup_on path email name password disk
  signup_info_on path _ disk = (disk, false)

  unfoldable pub signup_string_on : Bytes → Bytes → Disk → Disk × Bool
  unfolding signup_info_on
  signup_string_on path data_ disk = signup_info_on path (split_bars data_) disk

  module _ (laws : FileLaws fs) where
    open laws use {IsWritable, read-write, read-append, exists-write, exists-append, read-exists}

    -- `signup` on a disk does to the file what `signup` does to its text, and returns the same,
    -- where the file can be read and written.
    pub signup_on-signup :
        (path email name password : Bytes) (disk : Disk)
        → IsWritable disk path
        → (database path (signup_on path email name password disk).0
            ≡ (signup hash_pass (database path disk) email name password).0)
          × ((signup_on path email name password disk).1
              ≡ (signup hash_pass (database path disk) email name password).1)
    unfolding database signup_on signup
    signup_on-signup path email name password disk can = elim (Bool-cases (exists disk path)) [
      | inl there ↦
          let (text, found) = read-exists disk path can there in
          elim (Option-cases (count_users email 0 (lines text))) [
            | inl known ↦ (
              rw (there, found, known, signup_on, signup, there, found),
              rw (there, found, known, signup_on, signup),
            )
            | inr (m, fresh) ↦
                let l = new_line (m + 1) email name password in
                (
                  rw (
                    there,
                    found,
                    fresh,
                    signup_on,
                    signup,
                    exists-append disk path l can,
                    read-append disk path text l can found,
                    found,
                  ),
                  rw (there, found, fresh, signup_on, signup),
                )
          ]
      | inr missing ↦
          let l = new_line 1 email name password in
          (
            rw (
              missing,
              signup_on,
              signup,
              exists-write disk path l can,
              read-write disk path l can,
            ),
            rw (missing, signup_on, signup),
          )
    ]
