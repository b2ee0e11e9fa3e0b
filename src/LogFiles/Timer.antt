-- ===== src/LogFiles/Timer.antt =====
-- The timer of src/server_main.cc, which calls `check_log_files` again and again: how many log files
-- are left.
use mathlib.Core.List.{Permᴰ, Mem, mem-cons_self, mem-cons_of_mem}
use mathlib.Core.List.Permᴰ
use boost_web_server.Common.{
  ℕ, suc, ◌+◌, ◌-◌, ◌≤◌, ◌<◌, ◌≡◌, refl, sym, ap, ◌∙◌, ◌⊎◌, inl, inr, Bool, true, false, List, [],
  ◌∷◌, arith, ltb, if◌then◌else◌, Bool-cases, length, All, All-weaken, Bytes, Result, ok, ◌>>=◌,
}
use boost_web_server.LogFiles.Removal.{RemoveLaws, fewer, counted_on}
use boost_web_server.LogFiles.{
  LogDirectory, front, is_log_file, log_files, is_older, check_log_files,
}
use boost_web_server.LogFiles.Oldest.{SortLaws, Perm-All, Perm-length}

-- How many of the calls get no error.
unfoldable pub successes : List Bool → ℕ
successes [] = 0
successes (error ∷ errors) = let later = successes errors in if error then later else suc later

module _ (logs : LogDirectory) (sort : (Bytes → Bytes → Bool) → List Bytes → List Bytes) where
  open logs use {Disk, paths_in, is_regular_file, filename, remove}

  -- The calls of a timer that sets itself again in each, with whether each gets an error.
  unfoldable pub check_again : List Bool → Bytes → Bytes → ℕ → Disk → Result Disk
  unfolding check_log_files
  check_again [] log_directory log_prefix max_log_files disk = ok disk
  check_again (error ∷ errors) log_directory log_prefix max_log_files disk =
      check_log_files logs sort error log_directory log_prefix max_log_files disk
      >>= check_again errors log_directory log_prefix max_log_files

  module _ (laws : SortLaws sort) (removal : RemoveLaws logs) (log_directory log_prefix : Bytes)
      (max_log_files : ℕ) where
    open laws use {sort-Perm}
    open removal use {IsWritable, remove-Removed}

    log_files-All :
        (disk : Disk) (paths : List Bytes)
        → All
            (λ f. (is_log_file logs sort log_prefix disk f ≡ true) × Mem f paths)
            (log_files logs sort log_prefix disk paths)
    unfolding log_files
    log_files-All disk [] = tt
    log_files-All disk (p ∷ paths) =
        let others =
          All-weaken (λ f. (is_log_file logs sort log_prefix disk f ≡ true) × Mem f paths)
            (λ f. (is_log_file logs sort log_prefix disk f ≡ true) × Mem f (p ∷ paths))
            (log_files logs sort log_prefix disk paths) (λ f h. (h.0, mem-cons_of_mem p h.1))
            (log_files-All disk paths) in
        elim (Bool-cases (is_log_file logs sort log_prefix disk p)) [
          | inl log ↦ rw log ((log, mem-cons_self), others)
          | inr none_of ↦ rw none_of others
        ]

    abbrev log_count : Disk → List Bytes → ℕ
    log_count disk paths = length (log_files logs sort log_prefix disk paths)

    unfoldable counted : Disk → Bytes → ℕ
    counted disk p = if is_log_file logs sort log_prefix disk p then 1 else 0

    log_count-cons :
        (disk : Disk) (p : Bytes) (paths : List Bytes)
        → log_count disk (p ∷ paths) ≡ counted disk p + log_count disk paths
    unfolding log_files counted
    log_count-cons disk p paths = ground arith

    log_count-Perm :
        (disk : Disk) {xs ys : List Bytes} → Permᴰ xs ys → log_count disk xs ≡ log_count disk ys
    log_count-Perm disk Permᴰ.nil = refl
    log_count-Perm disk (Permᴰ.cons {a = a} {b = b} {l₁ = xs} {l₂ = ys} e d) =
        let left = log_count-cons disk a xs in
        let right = log_count-cons disk b ys in
        let same = ap (counted disk) e in let others = log_count-Perm disk d in omega arith
    log_count-Perm disk (Permᴰ.swap {a = a} {b = b} {a' = a'} {b' = b'} {l = xs} e f) =
        let left = log_count-cons disk a (b ∷ xs) in
        let left' = log_count-cons disk b xs in
        let right = log_count-cons disk a' (b' ∷ xs) in
        let right' = log_count-cons disk b' xs in
        let same = ap (counted disk) e in let same' = ap (counted disk) f in omega arith
    log_count-Perm disk (Permᴰ.trans d d') = log_count-Perm disk d ∙ log_count-Perm disk d'

    log_files-same :
        (disk disk' : Disk) (paths : List Bytes)
        → All (λ p. is_regular_file disk' p ≡ is_regular_file disk p) paths
        → log_files logs sort log_prefix disk' paths ≡ log_files logs sort log_prefix disk paths
    unfolding log_files is_log_file
    log_files-same disk disk' [] h = refl
    log_files-same disk disk' (p ∷ paths) h = rw (log_files-same disk disk' paths h.1, h.0)

    -- What a call without an error does.
    record Checked (disk : Disk) (paths : List Bytes) : Type 0 where
      disk' : Disk
      paths' : List Bytes
      runs : check_log_files logs sort false log_directory log_prefix max_log_files disk ≡ ok disk'
      listed : paths_in disk' log_directory ≡ ok paths'
      writable : IsWritable disk' log_directory
      count_lem : log_count disk' paths' ≡ (
          if ltb max_log_files (log_count disk paths)
          then log_count disk paths - 1
          else log_count disk paths)

    removed-Checked :
        (disk : Disk) (paths sorted : List Bytes)
        → paths_in disk log_directory ≡ ok paths
        → IsWritable disk log_directory
        → Permᴰ sorted (log_files logs sort log_prefix disk paths)
        → sort (is_older logs sort disk) (log_files logs sort log_prefix disk paths) ≡ sorted
        → ltb max_log_files (length sorted) ≡ true
        → Checked disk paths
    unfolding check_log_files front
    removed-Checked disk paths [] listed writable d made many = ground arith
    removed-Checked disk paths (x ∷ xs) listed writable d made many =
        let found =
          Perm-All (λ f. (is_log_file logs sort log_prefix disk f ≡ true) × Mem f paths)
            (Permᴰ.symm d) (log_files-All disk paths) in
        let gone = remove-Removed disk log_directory x paths writable listed found.0.1 in
        let before = log_count-Perm disk gone.others in
        let behind = log_count-cons disk x gone.paths' in
        let same = ap length (log_files-same disk gone.disk' gone.paths' gone.same_kind) in
        let number : length (x ∷ xs) ≡ log_count disk paths = Perm-length d in
        let one : counted disk x ≡ 1 = unfold counted in rw found.0.0 in
        let many_of : ltb max_log_files (log_count disk paths) ≡ true =
          ap (ltb max_log_files) (sym number) ∙ many in
        record {
          disk' = gone.disk';
          paths' = gone.paths';
          runs = rw (listed, made, many) gone.runs;
          listed = gone.listed;
          writable = gone.writable;
          count_lem = rw many_of (omega arith);
        }

    check-Checked :
        (disk : Disk) (paths : List Bytes)
        → paths_in disk log_directory ≡ ok paths
        → IsWritable disk log_directory
        → Checked disk paths
    unfolding check_log_files
    check-Checked disk paths listed writable =
        let files = log_files logs sort log_prefix disk paths in
        let sorted = sort (is_older logs sort disk) files in
        let d = sort-Perm (is_older logs sort disk) files in
        elim (Bool-cases (ltb max_log_files (length sorted))) [
          | inl many ↦ removed-Checked disk paths sorted listed writable d refl many
          | inr few ↦
              let few_of : ltb max_log_files (log_count disk paths) ≡ false =
                ap (ltb max_log_files) (sym (Perm-length d)) ∙ few in
              record {
                disk' = disk;
                paths' = paths;
                runs = rw (listed, few);
                listed = listed;
                writable = writable;
                count_lem = rw few_of refl;
              }
        ]

    -- In a log directory that can be read, whose files can be removed, and that nothing else writes
    -- to, the timer's calls leave the allowed number of log files if there were more, and as many
    -- as there were otherwise. As many of the calls get no error as there were too many files.
    pub check_again-count :
        (errors : List Bool) (disk : Disk) (paths : List Bytes)
        → paths_in disk log_directory ≡ ok paths
        → IsWritable disk log_directory
        → length (log_files logs sort log_prefix disk paths) ≤ max_log_files + successes errors
        → (disk' : Disk) × (paths' : List Bytes) × (check_again errors log_directory log_prefix
              max_log_files disk
            ≡ ok disk')
          × (paths_in disk' log_directory ≡ ok paths')
          × (((max_log_files < length (log_files logs sort log_prefix disk paths))
                × (length (log_files logs sort log_prefix disk' paths') ≡ max_log_files))
              ⊎ ((length (log_files logs sort log_prefix disk paths) ≤ max_log_files)
                  × (length (log_files logs sort log_prefix disk' paths')
                      ≡ length (log_files logs sort log_prefix disk paths))))
    unfolding check_again successes
    check_again-count [] disk paths listed writable enough =
        (disk, paths, refl, listed, inr (omega arith, refl))
    check_again-count (true ∷ errors) disk paths listed writable enough =
        check_again-count errors disk paths listed writable enough
    check_again-count (false ∷ errors) disk paths listed writable enough =
        let next = check-Checked disk paths listed writable in
        let (disk', paths', others, end, count) =
          check_again-count errors next.disk' next.paths' next.listed next.writable
            (fewer max_log_files (successes errors) _ _ next.count_lem enough) in
        (
          disk',
          paths',
          rw next.runs others,
          end,
          counted_on max_log_files _ _ _ next.count_lem count,
        )
