-- ===== src/LogFiles.antt =====
-- `check_log_files` of src/server_main.cc, which a timer calls once a minute. Boost.Filesystem and
-- `std::sort` are parameters.
pub mod Oldest
pub mod Removal
pub mod Timer
mod Tests
use boost_web_server.Common.{
  ℕ, Bool, true, false, ◌&&◌, List, [], ◌∷◌, ltb, ◌==◌, if◌then◌else◌, length, Bytes, bad_index,
  Result, ok, err, ◌>>=◌,
}

-- What the function calls on the directory of the log files and on their paths.
pub record LogDirectory : Type 1 where
  pub Disk : Type 0
  -- The paths in the directory; it throws if the directory cannot be opened.
  pub paths_in : Disk → Bytes → Result (List Bytes)
  pub is_regular_file : Disk → Bytes → Bool
  pub filename : Bytes → Bytes
  pub last_write_time : Disk → Bytes → ℕ
  pub remove : Disk → Bytes → Result Disk

-- `name.find(log_prefix) == 0`
unfoldable pub begins_with : Bytes → Bytes → Bool
begins_with [] name = true
begins_with (p ∷ ps) [] = false
begins_with (p ∷ ps) (c ∷ name) = let rest = begins_with ps name in (c == p) && rest

-- `log_files.front()`, undefined on an empty vector.
unfoldable pub front : List Bytes → Result Bytes
front [] = err bad_index
front (x ∷ xs) = ok x

-- `sort less files` is what `std::sort` makes of the files.
module _ (logs : LogDirectory) (sort : (Bytes → Bytes → Bool) → List Bytes → List Bytes) where
  open logs use {Disk, paths_in, is_regular_file, filename, last_write_time, remove}

  unfoldable pub is_log_file : Bytes → Disk → Bytes → Bool
  unfolding begins_with
  is_log_file log_prefix disk path =
      is_regular_file disk path && begins_with log_prefix (filename path)

  -- The loop over the directory.
  unfoldable pub log_files : Bytes → Disk → List Bytes → List Bytes
  unfolding is_log_file
  log_files log_prefix disk [] = []
  log_files log_prefix disk (path ∷ paths) =
      let rest = log_files log_prefix disk paths in
      if is_log_file log_prefix disk path then path ∷ rest else rest

  unfoldable pub is_older : Disk → Bytes → Bytes → Bool
  is_older disk a b = ltb (last_write_time disk a) (last_write_time disk b)

  -- The disk behind the call. The first argument is whether the timer gave an error.
  unfoldable pub check_log_files : Bool → Bytes → Bytes → ℕ → Disk → Result Disk
  unfolding log_files is_older front
  check_log_files true log_directory log_prefix max_log_files disk = ok disk
  check_log_files false log_directory log_prefix max_log_files disk = do
    paths ← paths_in disk log_directory
    let sorted = sort (is_older disk) (log_files log_prefix disk paths)
    if ltb max_log_files (length sorted) then (front sorted >>= remove disk) else ok disk
