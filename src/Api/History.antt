-- ===== src/Api/History.antt =====
-- The numbers of one entity of src/request_api_handler.cc after any sequence of POST and DELETE.
use boost_web_server.Common.{
  ℕ, ◌≤◌, ◌≡◌, refl, sym, ap, ◌∙◌, ◌≢◌, inl, inr, false, List, [], ◌∷◌, ◌++◌, arith, ◌==◌,
  if◌then◌else◌, Bool-cases, ℤ, pos, negsuc, int_eq, Result, ok,
}
use boost_web_server.Api.{next_id, has_id, erase_id}
use boost_web_server.Api.Ids.{ids, IsBounded}
use boost_web_server.Api.Order.{Above, IsOrdered, ascending, one_last, IsFresh, next_id-IsNext}

-- The erasure of a number from a list of numbers that are not negative.
abbrev erase : ℕ → List ℕ → List ℕ
erase n [] = []
erase n (x ∷ xs) = if x == n then xs else x ∷ erase n xs

erase_id-ids : (n : ℕ) (ns : List ℕ) → erase_id (pos n) (ids ns) ≡ ids (erase n ns)
unfolding erase_id int_eq
erase_id-ids n [] = refl
erase_id-ids n (x ∷ xs) = ground (arith, erase_id-ids n xs)

Above-weaken : (k l : ℕ) (xs : List ℕ) → k ≤ l → Above l xs → Above k xs
Above-weaken k l [] h a = tt
Above-weaken k l (x ∷ xs) h a = (omega arith, a.1)

erase-Above : (n l : ℕ) (xs : List ℕ) → Above l xs → Above l (erase n xs)
erase-Above n l [] a = tt
erase-Above n l (x ∷ xs) a = elim (Bool-cases (x == n)) [
  | inl e ↦ rw e (Above-weaken l x xs (omega arith) a.1)
  | inr e ↦ rw e (a.0, erase-Above n x xs a.1)
]

-- The 1 behind larger numbers is erased by its own number alone.
erase_one : (xs : List ℕ) → Above 1 xs → erase 1 (xs ++ 1 ∷ []) ≡ xs
erase_one [] a = refl
erase_one (x ∷ xs) a = ground (arith, erase_one xs (Above-weaken 1 x xs (omega arith) a.1))

erase_other : (n : ℕ) (xs : List ℕ) → n ≢ 1 → erase n (xs ++ 1 ∷ []) ≡ erase n xs ++ 1 ∷ []
erase_other n [] h = ground arith
erase_other n (x ∷ xs) h = ground (arith, erase_other n xs h)

erase-IsOrdered : (n : ℕ) (ns : List ℕ) → IsOrdered ns → IsOrdered (erase n ns)
erase-IsOrdered n ns (ascending a) = ascending (erase-Above n 0 ns a)
erase-IsOrdered n ns (one_last xs a e) = elim (Bool-cases (n == 1)) [
  | inl is_one ↦
      let one : n ≡ 1 = ground arith in
      rw one (rw e (rw (erase_one xs a) (ascending (Above-weaken 0 1 xs (omega arith) a))))
  | inr larger ↦
      one_last (erase n xs) (erase-Above n 1 xs a) (rw e (erase_other n xs (λ h. ground arith)))
]

-- The lists of numbers that an entity with no files can come to have, by numbers given out while
-- each number in use has a successor in `int`, and by erasures.
pub data History : List ℤ → Type 0 where
  begin : History []
  post :
      {xs ys : List ℤ} {n : ℤ} (ns : List ℕ)
      → History xs
      → xs ≡ ids ns
      → IsBounded ns
      → next_id xs ≡ ok (ys, n)
      → History ys
  delete : {xs ys : List ℤ} (n : ℤ) → History xs → ys ≡ erase_id n xs → History ys

ids-injective : (ns ms : List ℕ) → ids ns ≡ ids ms → ns ≡ ms
ids-injective [] [] e = refl
ids-injective [] (m ∷ ms) e = cc
ids-injective (n ∷ ns) [] e = cc
ids-injective (n ∷ ns) (m ∷ ms) e =
    let same : n ≡ m = cc in let rest : ns ≡ ms = ids-injective ns ms (cc) in cc

erase_id_negative : (n : ℕ) (ns : List ℕ) → erase_id (negsuc n) (ids ns) ≡ ids ns
unfolding erase_id int_eq
erase_id_negative n [] = refl
erase_id_negative n (x ∷ xs) = ap (◌∷◌ (pos x)) (erase_id_negative n xs)

erased :
    (n : ℤ) (ns : List ℕ)
    → IsOrdered ns
    → (ms : List ℕ) × (erase_id n (ids ns) ≡ ids ms) × IsOrdered ms
erased (pos n) ns o = (erase n ns, erase_id-ids n ns, erase-IsOrdered n ns o)
erased (negsuc n) ns o = (ns, erase_id_negative n ns, o)

-- After any such history the numbers are positive and ordered: ascending, or ascending above 1
-- with the 1 last.
pub History-IsOrdered : {xs : List ℤ} → History xs → (ns : List ℕ) × (xs ≡ ids ns) × IsOrdered ns
History-IsOrdered begin = ([], refl, ascending tt)
History-IsOrdered (post {xs} {ys} {n} ns h e b next) =
    let (ms, same, o) = History-IsOrdered h in
    let o' : IsOrdered ns = rw (ids-injective ns ms (sym e ∙ same)) o in
    let (ks, k, got, is_next) = next_id-IsNext ns o' b in
    let result : ◌≡◌ {A = Result (List ℤ × ℤ)} (ok (ys, n)) (ok (ids ks, pos k)) =
      sym next ∙ rw e got in
    (ks, cc, is_next.ordered)
History-IsOrdered (delete {xs} n h e) =
    let (ns, same, o) = History-IsOrdered h in
    let (ms, gone, o') = erased n ns o in (ms, e ∙ rw same gone, o')

IsFresh-has_id : (k : ℕ) (ns : List ℕ) → IsFresh k ns → has_id (pos k) (ids ns) ≡ false
unfolding has_id int_eq
IsFresh-has_id k [] f = refl
IsFresh-has_id k (x ∷ ns) f = ground (arith, IsFresh-has_id k ns f.1)

-- After any such history, `getNextID` gives a positive number that is not in use, if each number
-- in use still has a successor in `int`.
pub next_id_unused :
    {xs : List ℤ} (ns : List ℕ)
    → History xs
    → xs ≡ ids ns
    → IsBounded ns
    → (ys : List ℤ) × (n : ℕ) × (next_id xs ≡ ok (ys, pos n)) × (has_id (pos n) xs ≡ false)
next_id_unused ns h e b =
    let (ms, same, o) = History-IsOrdered h in
    let o' : IsOrdered ns = rw (ids-injective ns ms (sym e ∙ same)) o in
    let (ks, k, got, is_next) = next_id-IsNext ns o' b in
    (ids ks, k, rw e got, rw e (IsFresh-has_id k ns is_next.fresh))
