-- ===== src/Api/Insertion.antt =====
-- How the constructor of src/request_api_handler.cc adds the number of a file.
use boost_web_server.Common.{
  ℕ, zero, suc, ◌≡◌, refl, ◌↔◌, inl, inr, true, ◌||◌, List, [], ◌∷◌, arith, Bool-cases, ℤ, pos,
  negsuc, int_eq, int_lt, ok, Result-cases,
}
use boost_web_server.Api.{run_length, insert_at, has_id, add_id}

pub int_eq_iff : (a b : ℤ) → (int_eq a b ≡ true) ↔ (a ≡ b)
unfolding int_eq
int_eq_iff (pos a) (pos b) = ground arith
int_eq_iff (pos a) (negsuc b) = ground arith
int_eq_iff (negsuc a) (pos b) = ground arith
int_eq_iff (negsuc a) (negsuc b) = ground arith

has_id-insert_at :
    (j id : ℤ) (i : ℕ) (xs : List ℤ) → has_id j (insert_at i id xs) ≡ (int_eq id j || has_id j xs)
unfolding has_id insert_at
has_id-insert_at j id zero xs = refl
has_id-insert_at j id (suc i) [] = refl
has_id-insert_at j id (suc i) (x ∷ xs) = ground (arith, has_id-insert_at j id i xs)

-- A number that is there already changes nothing.
has_id-known :
    (j id : ℤ) (xs : List ℤ) → has_id id xs ≡ true → has_id j xs ≡ (int_eq id j || has_id j xs)
has_id-known j id xs h = elim (Bool-cases (int_eq id j)) [
  | inl e ↦ let same : id ≡ j = (int_eq_iff id j).0 e in rw e (rw same at h)
  | inr e ↦ rw e
]

swapped : (j id x : ℤ) → has_id j (x ∷ id ∷ []) ≡ (int_eq id j || has_id j (x ∷ []))
unfolding has_id
swapped j id x = ground arith

add_second :
    (id x : ℤ) (ids' : List ℤ) (j : ℤ)
    → add_id id (x ∷ []) ≡ ok ids'
    → has_id j ids' ≡ (int_eq id j || has_id j (x ∷ []))
unfolding add_id
add_second id x ids' j e = elim (Bool-cases (int_eq x id)) [
  | inl same ↦
      let kept : ids' ≡ x ∷ [] = ground arith in
      rw kept (has_id-known j id (x ∷ []) (unfold has_id in ground arith))
  | inr differs ↦ elim (Bool-cases (int_lt x id)) [
    | inl below ↦ let kept : ids' ≡ x ∷ id ∷ [] = ground arith in rw kept (swapped j id x)
    | inr above ↦ let kept : ids' ≡ id ∷ x ∷ [] = ground arith in rw kept (unfold has_id in refl)
  ]
]

-- Where the constructor's insertion of a file's number ends without a fault, the numbers of the
-- entity are those before it and the new one, whatever their order.
pub add_id-has_id :
    (id : ℤ) (ids ids' : List ℤ) (j : ℤ)
    → add_id id ids ≡ ok ids'
    → has_id j ids' ≡ (int_eq id j || has_id j ids)
unfolding add_id
add_id-has_id id [] ids' j e = let kept : ids' ≡ id ∷ [] = cc in rw kept (unfold has_id in refl)
add_id-has_id id (x ∷ []) ids' j e = add_second id x ids' j e
add_id-has_id id (x ∷ y ∷ xs) ids' j e = elim (Bool-cases (has_id id (x ∷ y ∷ xs))) [
  | inl known ↦
      let kept : ids' ≡ x ∷ y ∷ xs = ground arith in rw kept (has_id-known j id (x ∷ y ∷ xs) known)
  | inr unknown ↦ elim (Result-cases (run_length x (y ∷ xs))) [
    | inl (index, run) ↦
        let kept : ids' ≡ insert_at index id (x ∷ y ∷ xs) = ground arith in
        rw kept (has_id-insert_at j id index (x ∷ y ∷ xs))
    | inr (fault, run) ↦ ground arith
  ]
]
