-- ===== src/LogFiles/Tests.antt =====
-- A run of `check_log_files` of src/server_main.cc, and the theorem there, with files in a list and
-- with sorting by insertion in place of `std::sort`.
use mathlib.Core.List.{Permᴰ, Mem, not-mem-nil, mem_of_ne_of_mem}
use mathlib.Core.List.Permᴰ
use boost_web_server.Common.{
  ℕ, ◌+◌, ◌≤◌, ◌<◌, ◌≡◌, refl, sym, ◌⊎◌, inl, inr, Bool, true, false, List, [], ◌∷◌, arith, ltb,
  if◌then◌else◌, Bool-cases, length, All, All-every, All-weaken, Bytes, codes, ◌=s=◌, =s=_iff,
  Result, ok,
}
use boost_web_server.LogFiles.Removal.{RemoveLaws}
use boost_web_server.LogFiles.{
  LogDirectory, begins_with, front, is_log_file, log_files, is_older, check_log_files,
}
use boost_web_server.LogFiles.Oldest.{IsSorted, SortLaws, check_log_files-oldest}
use boost_web_server.LogFiles.Timer.{successes, check_again, check_again-count}

abbrev insert : (Bytes → Bytes → Bool) → Bytes → List Bytes → List Bytes
insert less x [] = x ∷ []
insert less x (y ∷ ys) = let rest = insert less x ys in if less y x then y ∷ rest else x ∷ y ∷ ys

abbrev insertion_sort : (Bytes → Bytes → Bool) → List Bytes → List Bytes
insertion_sort less [] = []
insertion_sort less (x ∷ xs) = insert less x (insertion_sort less xs)

insert-Perm :
    (less : Bytes → Bytes → Bool) (x : Bytes) (ys : List Bytes) → Permᴰ (insert less x ys) (x ∷ ys)
insert-Perm less x [] = Permᴰ.refl (x ∷ [])
insert-Perm less x (y ∷ ys) = elim (Bool-cases (less y x)) [
  | inl before ↦
      rw before (Permᴰ.trans (Permᴰ.cons refl (insert-Perm less x ys)) (Permᴰ.swap refl refl))
  | inr behind ↦ rw behind (Permᴰ.refl (x ∷ y ∷ ys))
]

insertion_sort-Perm :
    (less : Bytes → Bytes → Bool) (xs : List Bytes) → Permᴰ (insertion_sort less xs) xs
insertion_sort-Perm less [] = Permᴰ.nil
insertion_sort-Perm less (x ∷ xs) =
    Permᴰ.trans (insert-Perm less x (insertion_sort less xs))
      (Permᴰ.cons refl (insertion_sort-Perm less xs))

module _ (key : Bytes → ℕ) where
  abbrev less : Bytes → Bytes → Bool
  less a b = ltb (key a) (key b)

  insert-All :
      (m : ℕ) (x : Bytes) (ys : List Bytes)
      → m ≤ key x
      → All (λ y. m ≤ key y) ys
      → All (λ y. m ≤ key y) (insert less x ys)
  insert-All m x [] h k = (h, tt)
  insert-All m x (y ∷ ys) h k = elim (Bool-cases (less y x)) [
    | inl before ↦ rw before (k.0, insert-All m x ys h k.1)
    | inr behind ↦ rw behind (h, k)
  ]

  insert-IsSorted :
      (x : Bytes) (ys : List Bytes) → IsSorted key ys → IsSorted key (insert less x ys)
  insert-IsSorted x [] h = (tt, tt)
  insert-IsSorted x (y ∷ ys) h = elim (Bool-cases (less y x)) [
    | inl before ↦ rw before (insert-All (key y) x ys (ground arith) h.0, insert-IsSorted x ys h.1)
    | inr behind ↦
        let low : key x ≤ key y = ground arith in
        rw behind (
          (low, All-weaken (λ z. key y ≤ key z) (λ z. key x ≤ key z) ys (λ z g. omega arith) h.0),
          h,
        )
  ]

  insertion_sort-IsSorted : (xs : List Bytes) → IsSorted key (insertion_sort less xs)
  insertion_sort-IsSorted [] = tt
  insertion_sort-IsSorted (x ∷ xs) =
      insert-IsSorted x (insertion_sort less xs) (insertion_sort-IsSorted xs)

insertion_sort-SortLaws : SortLaws insertion_sort
insertion_sort-SortLaws = record {
  sort-Perm = insertion_sort-Perm;
  sort-IsSorted = insertion_sort-IsSorted;
}

-- Names once what a run computes with.
logs_code : Unit {0}
unfolding ◌=s=◌ begins_with front is_log_file log_files is_older check_log_files
logs_code = tt

abbrev removed : Bytes → List Bytes → List Bytes
removed path [] = []
removed path (p ∷ ps) = let rest = removed path ps in if p =s= path then ps else p ∷ rest

-- Files that were written at the time that is the length of their path.
abbrev files : LogDirectory
files = record {
  Disk = List Bytes;
  paths_in = λ disk directory. ok disk;
  is_regular_file = λ disk path. true;
  filename = λ path. path;
  last_write_time = λ disk path. length path;
  remove = λ disk path. ok (removed path disk);
}

removed-Perm : (path : Bytes) (xs : List Bytes) → Mem path xs → Permᴰ xs (path ∷ removed path xs)
removed-Perm path [] there = absurd (not-mem-nil there)
removed-Perm path (p ∷ xs) there = elim (Bool-cases (p =s= path)) [
  | inl same ↦ rw same (Permᴰ.cons ((=s=_iff p path).0 same) (Permᴰ.refl xs))
  | inr differs ↦
      let later : Mem path xs =
        mem_of_ne_of_mem
          (λ e. let same : (p =s= path) ≡ true = (=s=_iff p path).1 (sym e) in ground arith)
          there in
      rw differs (Permᴰ.trans (Permᴰ.cons refl (removed-Perm path xs later)) (Permᴰ.swap refl refl))
]

removed-others :
    (disk : List Bytes) (path : Bytes) (paths : List Bytes)
    → ok disk ≡ ok paths
    → Mem path paths
    → Permᴰ paths (path ∷ removed path disk)
removed-others disk path paths listed there =
    let same : paths ≡ disk = cc in rw same (removed-Perm path disk (rw same at there))

kept_regular :
    (path : Bytes) (disk : List Bytes)
    → All
        (λ p. files.is_regular_file (removed path disk) p ≡ files.is_regular_file disk p)
        (removed path disk)
kept_regular path disk =
    All-every (λ p. files.is_regular_file (removed path disk) p ≡ files.is_regular_file disk p)
      (λ p. refl) (removed path disk)

abbrev files-RemoveLaws : RemoveLaws files
files-RemoveLaws = record {
  IsWritable = λ disk directory. Unit {0};
  remove-Removed = λ disk directory path paths writable listed there. record {
    disk' = removed path disk;
    paths' = removed path disk;
    runs = refl;
    listed = refl;
    writable = tt;
    others = removed-others disk path paths listed there;
    same_kind = kept_regular path disk;
  };
}

abbrev before : List Bytes
before = codes "log_333" ∷ codes "log_1" ∷ codes "other" ∷ codes "log_22" ∷ []

abbrev after : List Bytes
after = codes "log_333" ∷ codes "other" ∷ codes "log_22" ∷ []

remove_run :
    check_log_files files insertion_sort false (codes "log") (codes "log_") 2 before ≡ ok after
unfolding logs_code
remove_run = refl

keep_run :
    check_log_files files insertion_sort false (codes "log") (codes "log_") 3 before ≡ ok before
unfolding logs_code
keep_run = refl

check_log_files-oldest_example :
    ((length (log_files files insertion_sort (codes "log_") before before) ≤ 2) × (after ≡ before))
    ⊎ ((2 < length (log_files files insertion_sort (codes "log_") before before))
        × ((oldest : Bytes) × Mem oldest
              (log_files files insertion_sort (codes "log_") before before)
            × All
                (λ f. length oldest ≤ length f)
                (log_files files insertion_sort (codes "log_") before before)
            × (files.remove before oldest ≡ ok after)))
check_log_files-oldest_example =
    check_log_files-oldest files insertion_sort insertion_sort-SortLaws (codes "log") (codes "log_")
      2 before after before refl remove_run

again_run :
    check_again files insertion_sort
      (false ∷ true ∷ false ∷ false ∷ [])
      (codes "log")
      (codes "log_")
      1
      before
    ≡ ok (codes "log_333" ∷ codes "other" ∷ [])
unfolding logs_code check_again
again_run = refl

enough_calls :
    length (log_files files insertion_sort (codes "log_") before before)
    ≤ 1 + successes (false ∷ true ∷ false ∷ [])
unfolding logs_code successes
enough_calls = omega arith

check_again-count_example :
    (disk' paths' : List Bytes) × (check_again files insertion_sort
        (false ∷ true ∷ false ∷ [])
        (codes "log")
        (codes "log_")
        1
        before
      ≡ ok disk')
    × (◌≡◌ {A = Result (List Bytes)} (ok disk') (ok paths'))
    × (((1 < length (log_files files insertion_sort (codes "log_") before before))
          × (length (log_files files insertion_sort (codes "log_") disk' paths') ≡ 1))
        ⊎ ((length (log_files files insertion_sort (codes "log_") before before) ≤ 1)
            × (length (log_files files insertion_sort (codes "log_") disk' paths')
                ≡ length (log_files files insertion_sort (codes "log_") before before))))
check_again-count_example =
    check_again-count files insertion_sort insertion_sort-SortLaws files-RemoveLaws (codes "log")
      (codes "log_") 1 (false ∷ true ∷ false ∷ []) before before refl tt enough_calls
