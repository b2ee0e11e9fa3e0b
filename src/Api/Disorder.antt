-- ===== src/Api/Disorder.antt =====
-- Where `getNextID` of src/request_api_handler.cc does not give the lowest free number, or gives a
-- number in use.
use boost_web_server.Common.{
  ℕ, zero, suc, ◌+◌, ◌≤◌, ◌<◌, ◌≡◌, refl, ap, ◌∙◌, ◌≢◌, true, false, List, [], ◌∷◌, ◌++◌, arith,
  ◌==◌, ℤ, pos, increment, int_eq, int_lt, Result, ok, ◌>>=◌,
}
use boost_web_server.Api.{run_length, insert_at, next_id, has_id, add_id}
use boost_web_server.Api.Ids.{ids, IsBounded, insert_gap, next_number, next_id-eq-next_number}

-- `count` numbers from `a` on, without a gap.
abbrev pub run_from : ℕ → ℕ → List ℕ
run_from a zero = []
run_from a (suc count) = a ∷ run_from (a + 1) count

insert_gap-run_from : (a count : ℕ) → (insert_gap a (run_from (a + 1) count)).1 ≡ a + count + 1
unfolding insert_gap
insert_gap-run_from a zero = omega arith
insert_gap-run_from a (suc count) = ground (arith, insert_gap-run_from (a + 1) count)

run_from-IsBounded : (a count : ℕ) → a + count < 0x80000000 → IsBounded (run_from a count)
run_from-IsBounded a zero h = tt
run_from-IsBounded a (suc count) h = (omega arith, run_from-IsBounded (a + 1) count (omega arith))

run_from-has_id : (a count : ℕ) → 2 ≤ a → has_id (pos 1) (ids (run_from a count)) ≡ false
unfolding has_id int_eq
run_from-has_id a zero h = refl
run_from-has_id a (suc count) h = ground (arith, run_from-has_id (a + 1) count)

-- From two or more numbers without a gap that begin above 1, `getNextID` gives the number behind
-- them, although 1 is not in use.
pub next_id_not_lowest :
    (a count : ℕ)
    → 2 ≤ a
    → a + count + 2 < 0x80000000
    → (ms : List ℤ) × (next_id (ids (run_from a (suc (suc count)))) ≡ ok (ms, pos (a + count + 2)))
      × (has_id (pos 1) (ids (run_from a (suc (suc count)))) ≡ false)
next_id_not_lowest a count h b =
    let ns = run_from a (suc (suc count)) in
    let last : (next_number ns).1 ≡ a + count + 2 =
      unfold next_number in insert_gap-run_from a (suc count) ∙ omega arith in
    (
      ids (next_number ns).0,
      rw (next_id-eq-next_number ns (run_from-IsBounded a (suc (suc count)) (omega arith)), last),
      run_from-has_id a (suc (suc count)) h,
    )

-- Behind a run and another number, `getNextID` puts the next number of the run.
insert_gap-run :
    (a count c : ℕ) (rest : List ℕ)
    → c ≢ a + count + 1
    → insert_gap a (run_from (a + 1) count ++ (c ∷ rest))
      ≡ ((a ∷ run_from (a + 1) (suc count)) ++ (c ∷ rest), a + count + 1)
unfolding insert_gap
insert_gap-run a zero c rest h =
    let differs : (c == a + 1) ≡ false = ground arith in
    rw differs (ap (λ n. (a ∷ (a + 1) ∷ c ∷ rest, n)) (omega arith))
insert_gap-run a (suc count) c rest h =
    let same : (a + 1 == a + 1) ≡ true = ground arith in
    let next = insert_gap-run (a + 1) count c rest (λ e. h (omega arith)) in
    rw same (
      rw next (
        ap (λ n. (a ∷ (a + 1) ∷ (run_from (a + 1 + 1) (suc count) ++ (c ∷ rest)), n))
          (omega arith)))

-- `getNextID` so many times.
unfoldable pub give : ℕ → List ℤ → Result (List ℤ)
give zero numbers = ok numbers
give (suc count) numbers = next_id numbers >>= λ r. give count r.0

-- The constructor's insertion of three numbers, in this order.
unfoldable pub scan_three : ℤ → ℤ → ℤ → Result (List ℤ)
scan_three a b c = do one ← add_id a []; two ← add_id b one; add_id c two

scan_three-order :
    (a b c : ℕ)
    → a < b
    → b < c
    → a + 1 < b
    → c < 0x80000000
    → scan_three (pos a) (pos b) (pos c) ≡ ok (ids (a ∷ c ∷ b ∷ []))
unfolding scan_three add_id has_id int_eq int_lt run_length insert_at increment
scan_three-order a b c h k l m = ground arith

-- The list behind so many POSTs: a run from `a` on, and then the other two numbers.
abbrev filled : ℕ → ℕ → ℕ → ℕ → List ℕ
filled a count b c = (a ∷ run_from (a + 1) count) ++ (c ∷ b ∷ [])

filled-IsBounded :
    (a count b c : ℕ)
    → a + count + 1 < 0x80000000
    → b < c
    → c + 1 < 0x80000000
    → IsBounded (filled a count b c)
filled-IsBounded a zero b c h k l = (omega arith, (omega arith, (omega arith, tt)))
filled-IsBounded a (suc count) b c h k l =
    (omega arith, filled-IsBounded (a + 1) count b c (omega arith) k l)

next_number-filled :
    (a count b c : ℕ)
    → next_number (filled a count b c) ≡ insert_gap a (run_from (a + 1) count ++ (c ∷ b ∷ []))
unfolding next_number
next_number-filled a zero b c = refl
next_number-filled a (suc count) b c = refl

next_id-filled :
    (a count b c : ℕ)
    → a + count + 1 ≤ b
    → b < c
    → c + 1 < 0x80000000
    → next_id (ids (filled a count b c)) ≡ ok (ids (filled a (suc count) b c), pos (a + count + 1))
next_id-filled a count b c h k l =
    let differs : c ≢ a + count + 1 = λ e. omega arith in
    next_id-eq-next_number (filled a count b c) (filled-IsBounded a count b c (omega arith) k l)
    ∙ ap (λ r. ok (ids r.0, pos r.1))
        (next_number-filled a count b c ∙ insert_gap-run a count c (b ∷ []) differs)

give-filled :
    (a count more b c : ℕ)
    → a + count + more ≤ b
    → b < c
    → c + 1 < 0x80000000
    → give more (ids (filled a count b c)) ≡ ok (ids (filled a (count + more) b c))
unfolding give
give-filled a count zero b c h k l = ap (λ n. ok (ids (filled a n b c))) (omega arith)
give-filled a count (suc more) b c h k l = rw (next_id-filled a count b c (omega arith) k l) (
    give-filled a (suc count) more b c (omega arith) k l
    ∙ ap (λ n. ok (ids (filled a n b c))) (omega arith))

filled-has_id : (a count b c : ℕ) → has_id (pos b) (ids (filled a count b c)) ≡ true
unfolding has_id int_eq
filled-has_id a zero b c = ground arith
filled-has_id a (suc count) b c = ground (arith, filled-has_id (a + 1) count b c)

-- The constructor inserts three ascending numbers in their order, with a gap behind the first and a
-- successor in `int` behind the last. The POSTs that fill the gap then get the numbers in it, and the
-- next one gets the second number, which is in use.
pub scan_three-in_use :
    (a gap c : ℕ)
    → a + gap + 2 < c
    → c + 1 < 0x80000000
    → (numbers after : List ℤ) × ((scan_three (pos a) (pos (a + gap + 2)) (pos c)
          >>= give (suc gap))
        ≡ ok numbers)
      × (has_id (pos (a + gap + 2)) numbers ≡ true)
      × (next_id numbers ≡ ok (after, pos (a + gap + 2)))
scan_three-in_use a gap c h l =
    let b = a + gap + 2 in
    let scanned = scan_three-order a b c (omega arith) h (omega arith) (omega arith) in
    let count : 0 + suc gap ≡ suc gap = omega arith in
    let given : give (suc gap) (ids (filled a 0 b c)) ≡ ok (ids (filled a (suc gap) b c)) =
      give-filled a 0 (suc gap) b c (omega arith) h l ∙ ap (λ n. ok (ids (filled a n b c))) count in
    (
      ids (filled a (suc gap) b c),
      ids (filled a (suc (suc gap)) b c),
      rw scanned given,
      filled-has_id a (suc gap) b c,
      next_id-filled a (suc gap) b c (omega arith) h l
          ∙ ap (λ n. ok (ids (filled a (suc (suc gap)) b c), pos n)) (omega arith),
    )
