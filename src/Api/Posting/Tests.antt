-- ===== src/Api/Posting/Tests.antt =====
-- Two POSTs to src/request_api_handler.cc on two threads, in some orders.
use boost_web_server.Common.{
  ℕ, ◌≡◌, refl, ◌≢◌, true, some, List, [], ◌∷◌, arith, Bytes, codes, rfind, pos, isdigit, stoi,
  to_decimal, int_eq, map_find, map_set, map_index, Result, ok, ◌>>=◌, ◌=s=◌,
}
use boost_web_server.Threads.{Thread, thread_one, thread_two, over, one_next, two_next}
use boost_web_server.FileSystem.{FileSystem}
use boost_web_server.FileSystem.Memory.{FileList, files_below}
use boost_web_server.Api.{next_id, has_id, add_id}
use boost_web_server.Api.Ids.{ids, IsBounded, next_number}
use boost_web_server.Api.Order.{ascending}
use boost_web_server.Api.Scan.{last_byte}
use boost_web_server.Api.Posting.{
  Phase, scanning, asked, answered, Shared, System, entry_of, copy_numbers, advance, step, run,
}
use boost_web_server.Api.Posting.Race.{two_posts}
use boost_web_server.Api.Posting.Numbers.{run-same_number, run-different_numbers, run-undone}
use boost_web_server.Common.{◌=s=◌}

posting_code : Unit {0}
unfolding ◌=s=◌ int_eq isdigit stoi rfind map_find map_set map_index last_byte has_id add_id next_id
    next_number to_decimal entry_of copy_numbers advance step run
posting_code = tt

abbrev fs : FileSystem
fs = files_below (codes "r/e")

abbrev shared : Shared FileList
shared = record { disk = []; path_counts = [] }

abbrev posts_of : Bytes → Bytes → Phase → Phase → Shared FileList → System FileList
posts_of body body' p p' s = two_posts fs (codes "r") (codes "e") body body' p p' s

abbrev thread_orders : Bytes → Bytes → List Thread → Result (System FileList)
thread_orders body body' ts = run fs (codes "r") ts (posts_of body body' asked asked shared)

abbrev files_of : Result (System FileList) → Result FileList
files_of m = m >>= λ sys. ok sys.shared.disk

-- The body `a` is lost.
race_run :
    files_of (
      thread_orders (codes "a") (codes "b") (
        thread_one ∷ thread_two ∷ thread_one ∷ thread_two ∷ thread_one ∷ thread_one ∷ thread_two
        ∷ thread_two ∷ []))
    ≡ ok ((codes "r/e/1", codes "b") ∷ [])
unfolding posting_code
race_run = refl

-- Both open the file before either writes: it gets the start of one body and the end of the other.
mixed_run :
    files_of (
      thread_orders (codes "abc") (codes "z") (
        thread_one ∷ thread_two ∷ thread_one ∷ thread_two ∷ thread_one ∷ thread_two ∷ thread_one
        ∷ thread_two ∷ []))
    ≡ ok ((codes "r/e/1", codes "zbc") ∷ [])
unfolding posting_code
mixed_run = refl

apart_run :
    files_of (
      thread_orders (codes "a") (codes "b") (
        thread_one ∷ thread_one ∷ thread_two ∷ thread_two ∷ thread_two ∷ thread_two ∷ thread_one
        ∷ thread_one ∷ []))
    ≡ ok ((codes "r/e/2", codes "b") ∷ (codes "r/e/1", codes "a") ∷ [])
unfolding posting_code
apart_run = refl

no_numbers : (map_index [] (codes "e") []).0 ≡ ids []
unfolding posting_code
no_numbers = refl

small_after : IsBounded (next_number []).0
unfolding posting_code
small_after = (omega arith, tt)

run-same_number_example :
    (t : Shared FileList) × (run fs
        (codes "r")
        (thread_one ∷ thread_two ∷ thread_one ∷ thread_two ∷ thread_two ∷ thread_one ∷ thread_one
          ∷ thread_two ∷ [])
        (posts_of (codes "a") (codes "b") asked asked shared)
      ≡ ok (
          posts_of
            (codes "a")
            (codes "b")
            (answered (pos (next_number []).1))
            (answered (pos (next_number []).1))
            t))
run-same_number_example =
    run-same_number fs (codes "r") (codes "e") (codes "a") (codes "b") shared []
      (thread_one ∷ thread_two ∷ thread_two ∷ thread_one ∷ thread_one ∷ thread_two ∷ []) no_numbers
      tt (one_next (two_next (two_next (one_next (one_next (two_next over))))))

run-different_numbers_example :
    (t : Shared FileList) × (n m : ℕ) × (run fs
        (codes "r")
        (thread_one ∷ thread_one ∷ thread_two ∷ thread_one ∷ thread_two ∷ thread_two ∷ thread_one
          ∷ thread_two ∷ [])
        (posts_of (codes "a") (codes "b") asked asked shared)
      ≡ ok (posts_of (codes "a") (codes "b") (answered (pos n)) (answered (pos m)) t))
    × (n ≢ m)
run-different_numbers_example =
    run-different_numbers fs (codes "r") (codes "e") (codes "a") (codes "b") shared []
      (thread_two ∷ thread_one ∷ thread_two ∷ thread_two ∷ thread_one ∷ thread_two ∷ []) no_numbers
      (ascending tt) tt small_after
      (two_next (one_next (two_next (two_next (one_next (two_next over))))))

-- One file, whose number is in use.
abbrev rescanned : Shared FileList
rescanned = record {
  disk = (codes "r/e/1", codes "old") ∷ [];
  path_counts = (codes "e", pos 1 ∷ []) ∷ [];
}

number_there : (map_index [] (codes "e") rescanned.path_counts).0 ≡ ids (1 ∷ [])
unfolding posting_code
number_there = refl

file_regular : fs.is_regular_file rescanned.disk (codes "r/e/1") ≡ true
unfolding posting_code
file_regular = refl

file_entry : entry_of fs (codes "r") (codes "r/e/1") ≡ ok (some (codes "e", pos 1))
unfolding posting_code
file_entry = refl

directory_there : fs.exists rescanned.disk (codes "r/e") ≡ true
unfolding posting_code
directory_there = refl

number_used : has_id (pos 1) (ids (1 ∷ [])) ≡ true
unfolding posting_code
number_used = refl

run-undone_example :
    (t : Shared FileList) × (run fs
        (codes "r")
        (thread_two ∷ thread_one ∷ thread_one ∷ thread_two ∷ thread_two ∷ thread_two ∷ thread_one
          ∷ thread_two ∷ thread_two ∷ thread_one ∷ thread_two ∷ [])
        (posts_of (codes "a") (codes "b") asked (scanning (codes "r/e/1" ∷ [])) rescanned)
      ≡ ok (
          posts_of
            (codes "a")
            (codes "b")
            (answered (pos (next_number (1 ∷ [])).1))
            (answered (pos (next_number (1 ∷ [])).1))
            t))
run-undone_example =
    run-undone fs (codes "r") (codes "e") (codes "a") (codes "b") rescanned (1 ∷ []) (codes "r/e/1")
      (pos 1) (thread_one ∷ thread_two ∷ thread_two ∷ thread_one ∷ thread_two ∷ []) file_regular
      file_entry directory_there number_there number_used (omega arith, tt)
      (one_next (two_next (two_next (one_next (two_next over)))))
