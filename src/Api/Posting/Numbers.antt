-- ===== src/Api/Posting/Numbers.antt =====
-- The numbers that two POSTs to src/request_api_handler.cc on two threads get, by the order of their
-- steps.
use mathlib.Core.Path.{subst}
use boost_web_server.Common.{
  ℕ, ◌≡◌, ap, ◌∙◌, ◌≢◌, inl, inr, true, some, List, [], ◌∷◌, ◌++◌, arith, Option-cases, Bytes,
  =s=_refl, ℤ, pos, Map, map_find, map_set, map_index, map_find-set, ok,
}
use boost_web_server.Threads.{Thread, thread_one, thread_two, Interleaving, one_next, two_next}
use boost_web_server.FileSystem.{FileSystem}
use boost_web_server.Api.{next_id, has_id, add_id}
use boost_web_server.Api.Ids.{ids, IsBounded, next_number, next_id-eq-next_number}
use boost_web_server.Api.Order.{IsOrdered, IsFresh, next_number-IsNext}
use boost_web_server.Api.Handler.{slash_join}
use boost_web_server.Api.Handler.ReadBack.{map_index-set}
use boost_web_server.Api.Posting.{
  Phase, scanning, asked, stored, opened, answered, Shared, System, entry_of, copy_numbers, advance,
  step, run,
}
use boost_web_server.Api.Posting.Race.{
  Left, three_left, two_left, one_left, none_left, two_posts, run-answered,
}

map_index-again {ℓ} :
    {V : Type ℓ} (d : V) (k : Bytes) (m : Map V)
    → (map_index d k (map_index d k m).1).0 ≡ (map_index d k m).0
unfolding map_index
map_index-again d k m = elim (Option-cases (map_find k m)) [
  | inl none_of ↦ rw (none_of, map_index) (rw (map_find-set k k d m, =s=_refl k, map_index))
  | inr (v, found) ↦ rw (found, map_index) (rw (found, map_index))
]

IsFresh-ne : (n m : ℕ) (front behind : List ℕ) → IsFresh m (front ++ (n ∷ behind)) → n ≢ m
IsFresh-ne n m [] behind h = h.0
IsFresh-ne n m (x ∷ front) behind h = IsFresh-ne n m front behind h.1

add_id-used :
    (id : ℤ) (numbers : List ℤ) → has_id id numbers ≡ true → add_id id numbers ≡ ok numbers
unfolding add_id has_id
add_id-used id [] h = cc
add_id-used id (x ∷ []) h = ground arith
add_id-used id (x ∷ y ∷ xs) h = ground arith

module _ (fs : FileSystem) (root directory body body' : Bytes) where
  open fs use {Disk, exists, is_regular_file, absolute}

  abbrev pub posts : Phase → Phase → Shared Disk → System Disk
  posts p p' s = two_posts fs root directory body body' p p' s

  -- Both constructors are done. Where the first thread and then the second copy the list of the
  -- entity before either puts its copy back, both POSTs are answered with the same number, in
  -- whatever order they go on. Each number of the entity has a successor in `int`.
  pub run-same_number :
      (s : Shared Disk) (ns : List ℕ) (ts : List Thread)
      → (map_index [] directory s.path_counts).0 ≡ ids ns
      → IsBounded ns
      → Interleaving 3 3 ts
      → (t : Shared Disk) × (run fs root (thread_one ∷ thread_two ∷ ts) (posts asked asked s)
          ≡ ok (posts (answered (pos (next_number ns).1)) (answered (pos (next_number ns).1)) t))
  unfolding run step advance
  run-same_number s ns ts numbers b order =
      let n = pos (next_number ns).1 in
      let found = map_index [] directory s.path_counts in
      let got : next_id found.0 ≡ ok (ids (next_number ns).0, n) =
        ap next_id numbers ∙ next_id-eq-next_number ns b in
      let got' : next_id (map_index [] directory found.1).0 ≡ ok (ids (next_number ns).0, n) =
        ap next_id (map_index-again [] directory s.path_counts) ∙ got in
      run-answered fs root directory body body' _ _ _ _ n n 3 3 ts _ _
        (record s { path_counts = (map_index [] directory found.1).1 }) got got' order three_left
        three_left

  -- With the first thread's number in the list of the entity, the second one gets that list's.
  run-copied :
      (s : Shared Disk) (numbers after numbers' after' : List ℤ) (id id' : ℤ) (a : ℕ) (p : Phase)
      (ts : List Thread)
      → next_id numbers ≡ ok (after, id)
      → next_id numbers' ≡ ok (after', id')
      → (map_index [] directory s.path_counts).0 ≡ numbers'
      → Left numbers id a p
      → Interleaving a 3 ts
      → (t : Shared Disk) × (run fs root (thread_two ∷ ts) (posts p asked s)
          ≡ ok (posts (answered id) (answered id') t))
  unfolding run step advance
  run-copied s numbers after numbers' after' id id' a p ts got got' found left order =
      run-answered fs root directory body body' numbers _ after after' id id' a 3 ts p _
        (record s { path_counts = (map_index [] directory s.path_counts).1 }) got
        (ap next_id found ∙ got') order left three_left

  run-stored :
      (s : Shared Disk) (numbers after numbers' after' : List ℤ) (id id' : ℤ) (ts : List Thread)
      → next_id numbers ≡ ok (after, id)
      → next_id numbers' ≡ ok (after', id')
      → (map_index [] directory s.path_counts).0 ≡ numbers'
      → Interleaving 2 4 ts
      → (t : Shared Disk) × (run fs root ts (posts (stored id) asked s)
          ≡ ok (posts (answered id) (answered id') t))
  unfolding run step advance
  run-stored s numbers after numbers' after' id id' ts got got' found (two_next order) =
      run-copied s numbers after numbers' after' id id' 2 (stored id) _ got got' found two_left
        order
  run-stored s numbers after numbers' after' id id' ts got got' found (one_next (two_next order)) =
      run-copied _ numbers after numbers' after' id id' 1 (opened id) _ got got' found one_left
        order
  run-stored s numbers after numbers' after' id id' ts got got' found
        (one_next (one_next (two_next order))) =
      run-copied _ numbers after numbers' after' id id' 0 (answered id) _ got got' found none_left
        order

  run-put_back :
      (s : Shared Disk) (after after' : List ℤ) (id id' : ℤ) (ts : List Thread)
      → next_id (map_index [] directory s.path_counts).0 ≡ ok (after, id)
      → next_id after ≡ ok (after', id')
      → Interleaving 2 4 ts
      → (t : Shared Disk) × (run fs root (thread_one ∷ thread_one ∷ ts) (posts asked asked s)
          ≡ ok (posts (answered id) (answered id') t))
  unfolding run step advance
  run-put_back s after after' id id' ts got got' order =
      let found = map_index [] directory s.path_counts in
      let (t, others) =
        run-stored (record s { path_counts = map_set directory after found.1 }) found.0 after after
          after' id id' ts got got' (map_index-set directory after found.1) order in
      (t, rw got others)

  -- Both constructors are done. Where the first thread puts its copy of the list back before the
  -- second one copies it, the two POSTs are answered with different numbers, in whatever order they
  -- go on. The numbers of the entity are in the server's order, and each has a successor in `int`,
  -- before and behind the first one.
  pub run-different_numbers :
      (s : Shared Disk) (ns : List ℕ) (ts : List Thread)
      → (map_index [] directory s.path_counts).0 ≡ ids ns
      → IsOrdered ns
      → IsBounded ns
      → IsBounded (next_number ns).0
      → Interleaving 2 4 ts
      → (t : Shared Disk) × (n m : ℕ) × (run fs root
            (thread_one ∷ thread_one ∷ ts)
            (posts asked asked s)
          ≡ ok (posts (answered (pos n)) (answered (pos m)) t))
        × (n ≢ m)
  run-different_numbers s ns ts numbers o b b' order =
      let n = (next_number ns).1 in
      let ms = (next_number ns).0 in
      let m = (next_number ms).1 in
      let next = next_number-IsNext ns o in
      let fresh : IsFresh m (next.inserted.front ++ (n ∷ next.inserted.behind)) =
        subst (IsFresh m) next.inserted.after_lem (next_number-IsNext ms next.ordered).fresh in
      let differs : n ≢ m = IsFresh-ne n m next.inserted.front next.inserted.behind fresh in
      let (t, ran) =
        run-put_back s (ids ms) (ids (next_number ms).0) (pos n) (pos m) ts
          (ap next_id numbers ∙ next_id-eq-next_number ns b) (next_id-eq-next_number ms b') order in
      (t, n, m, ran, differs)

  -- The constructor of the second thread, with one file left, copies the list of the entity, which
  -- has the file's number. The first thread, in `getNextID`, copies the list and puts it back with
  -- its number. The second one puts its copy back, which undoes that, finds the directory, and copies
  -- the list in `getNextID`: both POSTs are answered with the same number, in whatever order they go
  -- on. Each number of the entity has a successor in `int`.
  pub run-undone :
      (s : Shared Disk) (ns : List ℕ) (file : Bytes) (id : ℤ) (ts : List Thread)
      → is_regular_file s.disk file ≡ true
      → entry_of fs root (absolute s.disk file) ≡ ok (some (directory, id))
      → exists s.disk (slash_join root directory) ≡ true
      → (map_index [] directory s.path_counts).0 ≡ ids ns
      → has_id id (ids ns) ≡ true
      → IsBounded ns
      → Interleaving 2 3 ts
      → (t : Shared Disk) × (run fs root
            (thread_two ∷ thread_one ∷ thread_one ∷ thread_two ∷ thread_two ∷ thread_two ∷ ts)
            (posts asked (scanning (file ∷ [])) s)
          ≡ ok (posts (answered (pos (next_number ns).1)) (answered (pos (next_number ns).1)) t))
  unfolding run step advance copy_numbers
  run-undone s ns file id ts regular entry there numbers used b order =
      let n = pos (next_number ns).1 in
      let found = map_index [] directory s.path_counts in
      let again = map_index [] directory found.1 in
      let after = ids (next_number ns).0 in
      let got : next_id found.0 ≡ ok (after, n) =
        ap next_id numbers ∙ next_id-eq-next_number ns b in
      let got' : next_id again.0 ≡ ok (after, n) =
        ap next_id (map_index-again [] directory s.path_counts) ∙ got in
      let kept : add_id id found.0 ≡ ok found.0 = add_id-used id found.0 (rw numbers used) in
      let counts = map_set directory found.0 (map_set directory after again.1) in
      let (t, others) =
        run-copied (record s { path_counts = counts }) again.0 after found.0 after n n 2 (stored n)
          ts got' got (map_index-set directory found.0 (map_set directory after again.1)) two_left
          order in
      (t, rw (regular, entry, got', kept, there) others)
