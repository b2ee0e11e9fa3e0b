-- ===== src/LogFiles/Oldest.antt =====
-- Which log file `check_log_files` of src/server_main.cc removes.
use mathlib.Core.List.{Permᴰ, Mem, mem-cons_self}
use mathlib.Core.List.Permᴰ
use boost_web_server.Common.{
  ℕ, suc, ◌≤◌, ◌<◌, ◌≡◌, refl, ap, ◌∙◌, ◌⊎◌, inl, inr, Bool, false, List, [], ◌∷◌, arith, ltb,
  Bool-cases, length, All, Bytes, Result, ok, ◌>>=◌,
}
use boost_web_server.LogFiles.{LogDirectory, front, log_files, is_older, check_log_files}

-- No file is older than one that stands before it.
abbrev pub IsSorted : (Bytes → ℕ) → List Bytes → Type 0
IsSorted key [] = Unit
IsSorted key (x ∷ xs) = All (λ y. key x ≤ key y) xs × IsSorted key xs

-- What `std::sort` is relied on for, with the order of a key: its result is a permutation and sorted.
pub record SortLaws (sort : (Bytes → Bytes → Bool) → List Bytes → List Bytes) : Type 0 where
  pub sort-Perm : (less : Bytes → Bytes → Bool) (xs : List Bytes) → Permᴰ (sort less xs) xs
  pub sort-IsSorted :
      (key : Bytes → ℕ) (xs : List Bytes) → IsSorted key (sort (λ a b. ltb (key a) (key b)) xs)

pub Perm-All : (P : Bytes → Type 0) {xs ys : List Bytes} → Permᴰ xs ys → All P xs → All P ys
Perm-All P Permᴰ.nil h = tt
Perm-All P (Permᴰ.cons e d) h = (rw (← e) h.0, Perm-All P d h.1)
Perm-All P (Permᴰ.swap e f) h = (rw (← f) h.1.0, (rw (← e) h.0, h.1.1))
Perm-All P (Permᴰ.trans d d') h = Perm-All P d' (Perm-All P d h)

pub Perm-length : {xs ys : List Bytes} → Permᴰ xs ys → length xs ≡ length ys
Perm-length Permᴰ.nil = refl
Perm-length (Permᴰ.cons e d) = ap suc (Perm-length d)
Perm-length (Permᴰ.swap e f) = refl
Perm-length (Permᴰ.trans d d') = Perm-length d ∙ Perm-length d'

module _ (logs : LogDirectory) (sort : (Bytes → Bytes → Bool) → List Bytes → List Bytes)
    (laws : SortLaws sort) where
  open logs use {Disk, paths_in, last_write_time, remove}
  open laws use {sort-Perm, sort-IsSorted}

  oldest_first :
      (disk disk' : Disk) (files sorted : List Bytes)
      → Permᴰ sorted files
      → IsSorted (last_write_time disk) sorted
      → (front sorted >>= remove disk) ≡ ok disk'
      → (oldest : Bytes) × Mem oldest files
        × All (λ f. last_write_time disk oldest ≤ last_write_time disk f) files
        × (remove disk oldest ≡ ok disk')
  unfolding front
  oldest_first disk disk' files [] d h e = cc
  oldest_first disk disk' files (x ∷ xs) d (h, _) e = (
    x,
    Permᴰ.mem d mem-cons_self,
    Perm-All (λ f. last_write_time disk x ≤ last_write_time disk f) d (omega arith, h),
    e,
  )

  -- When the directory can be read and nothing is thrown, the function removes one log file that no
  -- other log file is older than, or there are at most as many log files as allowed and it removes
  -- nothing.
  pub check_log_files-oldest :
      (log_directory log_prefix : Bytes) (max_log_files : ℕ) (disk disk' : Disk)
      (paths : List Bytes)
      → paths_in disk log_directory ≡ ok paths
      → check_log_files logs sort false log_directory log_prefix max_log_files disk ≡ ok disk'
      → ((length (log_files logs sort log_prefix disk paths) ≤ max_log_files) × (disk' ≡ disk))
        ⊎ ((max_log_files < length (log_files logs sort log_prefix disk paths))
            × ((oldest : Bytes) × Mem oldest (log_files logs sort log_prefix disk paths)
                × All
                    (λ f. last_write_time disk oldest ≤ last_write_time disk f)
                    (log_files logs sort log_prefix disk paths)
                × (remove disk oldest ≡ ok disk')))
  unfolding check_log_files is_older
  check_log_files-oldest log_directory log_prefix max_log_files disk disk' paths listed e =
      let files = log_files logs sort log_prefix disk paths in
      let sorted = sort (is_older logs sort disk) files in
      let same = Perm-length (sort-Perm (is_older logs sort disk) files) in
      elim (Bool-cases (ltb max_log_files (length sorted))) [
        | inl many ↦ inr (
          ground (arith, same),
          oldest_first disk disk' files sorted (sort-Perm (is_older logs sort disk) files)
              (sort-IsSorted (last_write_time disk) files)
              (rw (listed, many, check_log_files) at e),
        )
        | inr few ↦
            let kept : ◌≡◌ {A = Result Disk} (ok disk) (ok disk') =
              rw (listed, few, check_log_files) at e in
            inl (ground (arith, same), cc)
      ]
