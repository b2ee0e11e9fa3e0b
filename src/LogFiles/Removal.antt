-- ===== src/LogFiles/Removal.antt =====
-- The removal of a log file, on which `check_log_files` of src/server_main.cc relies.
use mathlib.Core.List.{Permᴰ, Mem}
use boost_web_server.Common.{
  ℕ, suc, ◌+◌, ◌-◌, ◌≤◌, ◌<◌, ◌≡◌, ◌∙◌, ◌⊎◌, inl, inr, List, ◌∷◌, arith, ltb, if◌then◌else◌,
  Bool-cases, All, Bytes, ok,
}
use boost_web_server.LogFiles.{LogDirectory}

-- The directory behind the removal of a path.
pub record Removed (logs : LogDirectory) (IsWritable : LogDirectory.Disk logs → Bytes → Type 0)
    (disk : LogDirectory.Disk logs) (directory path : Bytes) (paths : List Bytes) : Type 0 where
  pub disk' : LogDirectory.Disk logs
  pub paths' : List Bytes
  pub runs : LogDirectory.remove logs disk path ≡ ok disk'
  pub listed : LogDirectory.paths_in logs disk' directory ≡ ok paths'
  pub writable : IsWritable disk' directory
  pub others : Permᴰ paths (path ∷ paths')
  pub same_kind :
      All
        (λ p. LogDirectory.is_regular_file logs disk' p ≡ LogDirectory.is_regular_file logs disk p)
        paths'

-- What is relied on for a directory whose files can be removed: the removal of one leaves the
-- others.
pub record RemoveLaws (logs : LogDirectory) : Type 1 where
  pub IsWritable : LogDirectory.Disk logs → Bytes → Type 0
  pub remove-Removed :
      (disk : LogDirectory.Disk logs) (directory path : Bytes) (paths : List Bytes)
      → IsWritable disk directory
      → LogDirectory.paths_in logs disk directory ≡ ok paths
      → Mem path paths
      → Removed logs IsWritable disk directory path paths

pub fewer :
    (max n before after : ℕ)
    → after ≡ (if ltb max before then before - 1 else before)
    → before ≤ max + suc n
    → after ≤ max + n
fewer max n before after e h = ground arith

pub counted_on :
    (max before after last : ℕ)
    → after ≡ (if ltb max before then before - 1 else before)
    → ((max < after) × (last ≡ max)) ⊎ ((after ≤ max) × (last ≡ after))
    → ((max < before) × (last ≡ max)) ⊎ ((before ≤ max) × (last ≡ before))
counted_on max before after last e h = elim (Bool-cases (ltb max before)) [
  | inl many ↦
      let less : after ≡ before - 1 = rw many at e in
      inl (ground arith, elim h [ inl (_, same) ↦ same | inr (few, same) ↦ ground arith ])
  | inr few ↦
      let kept : after ≡ before = rw few at e in
      inr (ground arith, elim h [ inl (many, same) ↦ ground arith | inr (_, same) ↦ same ∙ kept ])
]
