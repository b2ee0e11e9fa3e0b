-- ===== src/Config/Paths/Trim.antt =====
-- Endpoints without trailing slashes in src/config_parser.cc.
use boost_web_server.Common.{
  ℕ, zero, suc, ◌+◌, ◌≤◌, ◌<◌, ◌≡◌, refl, sym, ap, ◌∙◌, ◌≢◌, inl, inr, none, some, List, [], ◌∷◌,
  ◌++◌, arith, Option-cases, length, take, length-append, Bytes, find_last_not_of,
}
use boost_web_server.Config.Paths.{trim_slashes}

find-lt : (s : Bytes) (i : ℕ) → find_last_not_of b'/' s ≡ some i → i < length s
unfolding find_last_not_of
find-lt [] i e = cc
find-lt (x ∷ s) i e = elim (Option-cases (find_last_not_of b'/' s)) [
  | inl none_of ↦ ground arith
  | inr (j, found) ↦ ground (arith, find-lt s j found)
]

find-take :
    (s : Bytes) (i : ℕ)
    → find_last_not_of b'/' s ≡ some i
    → find_last_not_of b'/' (take (suc i) s) ≡ some i
unfolding find_last_not_of
find-take [] i e = cc
find-take (x ∷ s) i e = elim (Option-cases (find_last_not_of b'/' s)) [
  | inl none_of ↦ let zero_at : i ≡ 0 = ground arith in rw zero_at (ground arith)
  | inr (j, found) ↦
      let suc_at : i ≡ suc j = ground arith in
      rw suc_at (rw (find-take s j found, find_last_not_of))
]

-- The last byte that is no slash is in the second part, if there is one.
find-append_some :
    (a b : Bytes) (j : ℕ)
    → find_last_not_of b'/' b ≡ some j
    → find_last_not_of b'/' (a ++ b) ≡ some (length a + j)
unfolding find_last_not_of
find-append_some [] b j e = ground arith
find-append_some (x ∷ a) b j e = ground (arith, find-append_some a b j e)

find-append_none :
    (a b : Bytes)
    → find_last_not_of b'/' b ≡ none
    → find_last_not_of b'/' (a ++ b) ≡ find_last_not_of b'/' a
unfolding find_last_not_of
find-append_none [] b e = e
find-append_none (x ∷ a) b e = rw (find-append_none a b e, find_last_not_of)

take-take {ℓ} : {A : Type ℓ} (n : ℕ) (s : List A) → take n (take n s) ≡ take n s
take-take zero s = refl
take-take (suc n) [] = refl
take-take (suc n) (x ∷ s) = ap (◌∷◌ x) (take-take n s)

length-take {ℓ} : {A : Type ℓ} (n : ℕ) (s : List A) → n ≤ length s → length (take n s) ≡ n
length-take zero s h = refl
length-take (suc n) [] h = absurd (omega arith)
length-take (suc n) (x ∷ s) h = ap suc (length-take n s (omega arith))

-- Trimming twice is trimming once.
pub trim_slashes-trim_slashes : (s : Bytes) → trim_slashes (trim_slashes s) ≡ trim_slashes s
unfolding trim_slashes
trim_slashes-trim_slashes s = elim (Option-cases (find_last_not_of b'/' s)) [
  | inl none_of ↦ let same : trim_slashes s ≡ s = rw (none_of, trim_slashes) in ap trim_slashes same
  | inr (i, found) ↦
      let cut : trim_slashes s ≡ take (suc i) s = rw (found, trim_slashes) in
      let again : trim_slashes (take (suc i) s) ≡ take (suc i) (take (suc i) s) =
        rw (find-take s i found, trim_slashes) in
      ap trim_slashes cut ∙ again ∙ take-take (suc i) s ∙ sym cut
]

-- A trimmed text is not longer than what is left of a text that it begins.
pub trim_slashes-append :
    (a b : Bytes) → trim_slashes a ≡ a → length a ≤ length (trim_slashes (a ++ b))
unfolding trim_slashes
trim_slashes-append a b h = elim (Option-cases (find_last_not_of b'/' b)) [
  | inr (j, found) ↦
      let at = find-append_some a b j found in
      let short = find-lt (a ++ b) (length a + j) at in
      rw (at, trim_slashes)
        (rw (length-take (suc (length a + j)) (a ++ b) (omega arith)) (omega arith))
  | inl none_of ↦ elim (Option-cases (find_last_not_of b'/' a)) [
    | inl empty ↦
        let at = find-append_none a b none_of ∙ empty in
        rw (at, trim_slashes) (omega (arith, length-append a b))
    | inr (i, found) ↦
        let at = find-append_none a b none_of ∙ found in
        let short = find-lt a i found in
        let whole : take (suc i) a ≡ a = rw (found, trim_slashes) at h in
        let exact : length a ≡ suc i =
          sym (ap length whole) ∙ length-take (suc i) a (omega arith) in
        let long = find-lt (a ++ b) i at in
        rw (at, trim_slashes) (rw (length-take (suc i) (a ++ b) (omega arith)) (omega arith))
  ]
]

-- A text that is not empty stays so.
pub trim_slashes-length : (s : Bytes) → s ≢ [] → 0 < length (trim_slashes s)
unfolding trim_slashes
trim_slashes-length s some_of = elim (Option-cases (find_last_not_of b'/' s)) [
  | inl none_of ↦ rw (none_of, trim_slashes) (not_empty s some_of)
  | inr (i, found) ↦
      let short = find-lt s i found in
      rw (found, trim_slashes) (rw (length-take (suc i) s (omega arith)) (omega arith))
]
  where
    not_empty : (s : Bytes) → s ≢ [] → 0 < length s
    not_empty [] h = absurd (h refl)
    not_empty (x ∷ s) h = omega arith
