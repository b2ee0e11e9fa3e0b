-- ===== src/Api/Ids.antt =====
-- `getNextID` of src/request_api_handler.cc on numbers that are not negative.
use boost_web_server.Common.{
  ℕ, suc, ◌+◌, ◌-◌, ◌<◌, ◌≡◌, refl, ap, inl, inr, List, [], ◌∷◌, arith, ◌==◌, if◌then◌else◌, lt→ltb,
  Bool-cases, All, ℤ, pos, increment, int_eq, ok,
}
use boost_web_server.Api.{run_length, insert_at, id_at, next_in_run, next_id}

-- The numbers as `int` values.
abbrev pub ids : List ℕ → List ℤ
ids [] = []
ids (n ∷ ns) = pos n ∷ ids ns

-- Every number has a successor in `int`.
abbrev pub IsBounded : List ℕ → Type 0
IsBounded = All (λ n. n + 1 < 0x80000000)

-- The number behind the first run of neighbours, put behind that run: what `getNextID` computes
-- from two or more numbers, without indices and without the limits of `int`.
unfoldable pub insert_gap : ℕ → List ℕ → List ℕ × ℕ
insert_gap x [] = (x ∷ (x + 1) ∷ [], x + 1)
insert_gap x (y ∷ ys) =
    let deeper = insert_gap y ys in
    if y == x + 1 then (x ∷ deeper.0, deeper.1) else (x ∷ (x + 1) ∷ y ∷ ys, x + 1)

unfoldable pub next_number : List ℕ → List ℕ × ℕ
next_number [] = (1 ∷ [], 1)
next_number (x ∷ []) = if x == 1 then (2 ∷ x ∷ [], 2) else (1 ∷ x ∷ [], 1)
next_number (x ∷ y ∷ xs) = insert_gap x (y ∷ xs)

-- What the loop, the reading of the last neighbour and the insertion make of a list.
record IsRun (x : ℕ) (xs : List ℕ) : Type 0 where
  index : ℕ
  last : ℕ
  run : run_length (pos x) (ids xs) ≡ ok (suc index)
  read : id_at (pos x ∷ ids xs) index ≡ ok (pos last)
  inserted : insert_at (suc index) (pos (last + 1)) (pos x ∷ ids xs) ≡ ids (insert_gap x xs).0
  number : (insert_gap x xs).1 ≡ last + 1
  bounded : last + 1 < 0x80000000

insert_gap-IsRun : (x : ℕ) (xs : List ℕ) → x + 1 < 0x80000000 → IsBounded xs → IsRun x xs
unfolding insert_gap run_length id_at insert_at increment int_eq
insert_gap-IsRun x [] h b = record {
  index = 0;
  last = x;
  run = refl;
  read = refl;
  inserted = refl;
  number = refl;
  bounded = h;
}
insert_gap-IsRun x (y ∷ ys) h b = elim (Bool-cases (y == x + 1)) [
  | inl e ↦
      let deeper = insert_gap-IsRun y ys b.0 b.1 in
      record {
        index = suc deeper.index;
        last = deeper.last;
        run = ground (arith, deeper.run);
        read = deeper.read;
        inserted = rw e (ap (◌∷◌ (pos x)) deeper.inserted);
        number = rw e deeper.number;
        bounded = deeper.bounded;
      }
  | inr e ↦ record {
    index = 0;
    last = x;
    run = ground arith;
    read = refl;
    inserted = ground arith;
    number = ground arith;
    bounded = h;
  }
]

-- `getNextID` computes `next_number`, if every number in use has a successor in `int`.
pub next_id-eq-next_number :
    (ns : List ℕ)
    → IsBounded ns
    → next_id (ids ns) ≡ ok (ids (next_number ns).0, pos (next_number ns).1)
unfolding next_id next_number
next_id-eq-next_number [] b = refl
next_id-eq-next_number (x ∷ []) b = unfold int_eq in ground arith
next_id-eq-next_number (x ∷ y ∷ xs) b =
    let r = insert_gap-IsRun x (y ∷ xs) b.0 b.1 in
    let next : increment (pos r.last) ≡ ok (pos (r.last + 1)) =
      unfold increment in rw (lt→ltb _ _ r.bounded) in
    let back : suc r.index - 1 ≡ r.index = omega arith in
    unfold next_in_run in rw (r.run, back, r.read, next, r.inserted, r.number)

-- The number given out fits an `int`.
pub next_number-lt : (ns : List ℕ) → IsBounded ns → (next_number ns).1 < 0x80000000
unfolding next_number
next_number-lt [] b = omega arith
next_number-lt (x ∷ []) b = ground arith
next_number-lt (x ∷ y ∷ xs) b =
    let r = insert_gap-IsRun x (y ∷ xs) b.0 b.1 in omega (arith, r.number, r.bounded)
