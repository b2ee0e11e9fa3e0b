-- ===== src/Api/Tests.antt =====
-- Runs of `getNextID` and of the constructor's insertion.
use boost_web_server.Common.{
  ℕ, zero, suc, ◌≡◌, refl, ◌↔◌, ◌⊎◌, true, false, List, [], ◌∷◌, arith, codes, rfind, ℤ, pos,
  isdigit, stoi, increment, int_eq, int_lt, map_find, map_set, map_index, Result, ok, ◌>>=◌, ◌=s=◌,
}
use boost_web_server.FileSystem.{FileSystem}
use boost_web_server.FileSystem.Memory.{FileList, files_below}
use boost_web_server.Api.Scan.{last_byte, add_file, add_files, new_api_handler}
use boost_web_server.Api.Rescan.{is_used}
use boost_web_server.Api.Found.{InFolder, IsFound, new_api_handler-IsFound}
use boost_web_server.Api.{run_length, insert_at, id_at, next_id, has_id, erase_id, add_id}
use boost_web_server.Api.Ids.{ids, IsBounded}
use boost_web_server.Api.Order.{IsOrdered, one_last}
use boost_web_server.Api.History.{History, begin, post, delete, History-IsOrdered, next_id_unused}
use boost_web_server.Api.Disorder.{give, scan_three, scan_three-in_use}

api_ids : Unit {0}
unfolding run_length insert_at id_at next_id has_id erase_id add_id increment int_eq int_lt
api_ids = tt

scan_code : Unit {0}
unfolding api_ids isdigit stoi ◌=s=◌ rfind map_find map_set map_index last_byte add_file add_files
    new_api_handler
scan_code = tt

-- `getNextID` n times.
abbrev posts : ℕ → List ℤ → Result (List ℤ)
posts zero ids = ok ids
posts (suc n) ids = next_id ids >>= λ r. posts n r.0

abbrev scan : List ℤ → List ℤ → Result (List ℤ)
scan [] ids = ok ids
scan (i ∷ is) ids = add_id i ids >>= scan is

three_posts : posts 3 [] ≡ ok (pos 2 ∷ pos 3 ∷ pos 1 ∷ [])
unfolding api_ids
three_posts = refl

scanned :
    (scan (pos 1 ∷ pos 2 ∷ pos 5 ∷ pos 7 ∷ []) [] >>= posts 3)
    ≡ ok (pos 1 ∷ pos 2 ∷ pos 3 ∷ pos 4 ∷ pos 5 ∷ pos 7 ∷ pos 5 ∷ [])
unfolding api_ids
scanned = refl

-- The theorems at concrete inputs.
two_three_one-IsOrdered : IsOrdered (2 ∷ 3 ∷ 1 ∷ [])
two_three_one-IsOrdered = one_last (2 ∷ 3 ∷ []) (omega arith, (omega arith, tt)) refl

two_three_one-IsBounded : IsBounded (2 ∷ 3 ∷ 1 ∷ [])
two_three_one-IsBounded = (omega arith, (omega arith, (omega arith, tt)))

-- Two numbers given out, and the first erased.
two_posts_delete : History (pos 2 ∷ [])
unfolding api_ids
two_posts_delete =
    delete (pos 1) (post (1 ∷ []) (post [] begin refl tt refl) refl (omega arith, tt) refl) refl

History-IsOrdered_example : (ns : List ℕ) × (◌≡◌ {A = List ℤ} (pos 2 ∷ []) (ids ns)) × IsOrdered ns
History-IsOrdered_example = History-IsOrdered two_posts_delete

next_id_unused_example :
    (ys : List ℤ) × (n : ℕ) × (next_id (pos 2 ∷ []) ≡ ok (ys, pos n))
    × (has_id (pos n) (pos 2 ∷ []) ≡ false)
next_id_unused_example = next_id_unused (2 ∷ []) two_posts_delete refl (omega arith, tt)

-- The files 1, 3 and 5, and two POSTs.
scan_three-in_use_example :
    (numbers after : List ℤ) × ((scan_three (pos 1) (pos 3) (pos 5) >>= give 1) ≡ ok numbers)
    × (has_id (pos 3) numbers ≡ true)
    × (next_id numbers ≡ ok (after, pos 3))
scan_three-in_use_example = scan_three-in_use 1 0 5 (omega arith) (omega arith)

inserted_run :
    add_id (pos 3) (pos 1 ∷ pos 2 ∷ pos 5 ∷ pos 7 ∷ [])
    ≡ ok (pos 1 ∷ pos 2 ∷ pos 3 ∷ pos 5 ∷ pos 7 ∷ [])
unfolding api_ids
inserted_run = refl

-- A scan of one file, below an empty root.
abbrev scanned_fs : FileSystem
scanned_fs = files_below (codes "/r")

abbrev scanned_disk : FileList
scanned_disk = (codes "/r/e/3", codes "text") ∷ []

scan_run :
    new_api_handler scanned_fs scanned_disk (codes "/r") [] ≡ ok ((codes "e", pos 3 ∷ []) ∷ [])
unfolding scan_code
scan_run = refl

file_InFolder : InFolder (codes "/r/e/3")
file_InFolder = record {
  front = codes "/r";
  folder = codes "e";
  name = codes "3";
  path_lem = refl;
  folder_lem = (λ e. cc, tt);
  name_lem = (λ e. cc, tt);
}

new_api_handler-IsFound_example :
    (is_used (codes "e") (pos 3) ((codes "e", pos 3 ∷ []) ∷ []) ≡ true) ↔ (
      (is_used (codes "e") (pos 3) [] ≡ true)
      ⊎ IsFound scanned_fs scanned_disk (codes "e") (pos 3) (codes "/r/e/3" ∷ []))
new_api_handler-IsFound_example =
    new_api_handler-IsFound scanned_fs scanned_disk (codes "/r") (codes "e") (pos 3)
      (codes "/r/e/3" ∷ []) [] ((codes "e", pos 3 ∷ []) ∷ []) refl (file_InFolder, tt) scan_run
