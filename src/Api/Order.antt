-- ===== src/Api/Order.antt =====
-- The order of the numbers that `getNextID` of src/request_api_handler.cc gives out.
use boost_web_server.Common.{
  ℕ, ◌+◌, ◌≤◌, ◌<◌, ◌≡◌, refl, ap, ◌≢◌, inl, inr, true, List, [], ◌∷◌, ◌++◌, append-nil, arith,
  ◌==◌, Bool-cases, All, All-concat, pos, ok,
}
use boost_web_server.Api.Ids.{ids, IsBounded, insert_gap, next_number, next_id-eq-next_number}
use boost_web_server.Api.{next_id}

-- Strictly ascending numbers above `l`.
abbrev pub Above : ℕ → List ℕ → Type 0
Above l [] = Unit
Above l (x ∷ xs) = (l < x) × Above x xs

-- The order in which the server keeps the numbers that it gave out: ascending, or ascending above
-- 1 with the 1 behind them.
pub data IsOrdered (ns : List ℕ) : Type 0 where
  ascending : Above 0 ns → IsOrdered ns
  one_last : (xs : List ℕ) → Above 1 xs → ns ≡ xs ++ 1 ∷ [] → IsOrdered ns

abbrev pub IsFresh : ℕ → List ℕ → Type 0
IsFresh n = All (λ m. m ≢ n)

-- The list with the number put in at one place.
pub record IsInserted (n : ℕ) (ns ms : List ℕ) : Type 0 where
  pub front : List ℕ
  pub behind : List ℕ
  pub before_lem : ns ≡ front ++ behind
  pub after_lem : ms ≡ front ++ (n ∷ behind)

pub record IsNext (ns ms : List ℕ) (n : ℕ) : Type 0 where
  pub fresh : IsFresh n ns
  pub ordered : IsOrdered ms
  pub inserted : IsInserted n ns ms

Above-IsFresh : (n l : ℕ) (xs : List ℕ) → n ≤ l → Above l xs → IsFresh n xs
Above-IsFresh n l [] h a = tt
Above-IsFresh n l (x ∷ xs) h a = (omega arith, Above-IsFresh n x xs (omega arith) a.1)

-- What `insert_gap` makes of an ascending list with smaller numbers `t` behind it.
record IsGap (x : ℕ) (xs t ms : List ℕ) (n : ℕ) : Type 0 where
  grown : List ℕ
  list_lem : ms ≡ (x ∷ grown) ++ t
  above : Above x grown
  larger : x < n
  fresh : IsFresh n xs
  inserted : IsInserted n (x ∷ (xs ++ t)) ms

below-IsFresh : (n x : ℕ) (t : List ℕ) → x ≤ n → All (λ m. m < x) t → IsFresh n t
below-IsFresh n x [] h a = tt
below-IsFresh n x (m ∷ t) h a = (omega arith, below-IsFresh n x t h a.1)

below_mono : (x y : ℕ) (t : List ℕ) → x ≤ y → All (λ m. m < x) t → All (λ m. m < y) t
below_mono x y [] h a = tt
below_mono x y (m ∷ t) h a = (omega arith, below_mono x y t h a.1)

IsGap-here :
    (x : ℕ) (xs t : List ℕ) → Above (x + 1) xs → IsGap x xs t (x ∷ (x + 1) ∷ (xs ++ t)) (x + 1)
IsGap-here x xs t a = record {
  grown = (x + 1) ∷ xs;
  list_lem = refl;
  above = (omega arith, a);
  larger = omega arith;
  fresh = Above-IsFresh (x + 1) (x + 1) xs (omega arith) a;
  inserted = record { front = x ∷ []; behind = xs ++ t; before_lem = refl; after_lem = refl };
}

IsGap-deeper :
    (x y : ℕ) (ys t ms : List ℕ) (n : ℕ) → x < y → IsGap y ys t ms n → IsGap x (y ∷ ys) t (x ∷ ms) n
IsGap-deeper x y ys t ms n h g = record {
  grown = y ∷ g.grown;
  list_lem = ap (◌∷◌ x) g.list_lem;
  above = (h, g.above);
  larger = omega (arith, g.larger);
  fresh = (omega (arith, g.larger), g.fresh);
  inserted = record {
    front = x ∷ g.inserted.front;
    behind = g.inserted.behind;
    before_lem = ap (◌∷◌ x) g.inserted.before_lem;
    after_lem = ap (◌∷◌ x) g.inserted.after_lem;
  };
}

insert_gap_here :
    (x : ℕ) (xs : List ℕ) {y : ℕ} {ys : List ℕ}
    → xs ≡ y ∷ ys
    → y ≢ x + 1
    → insert_gap x xs ≡ (x ∷ (x + 1) ∷ xs, x + 1)
unfolding insert_gap
insert_gap_here x [] e h = cc
insert_gap_here x (z ∷ zs) e h = ground arith

-- A neighbour passes the search on.
IsGap-next :
    (x y : ℕ) (rest ys t : List ℕ)
    → (y == x + 1) ≡ true
    → IsGap y ys t (insert_gap y rest).0 (insert_gap y rest).1
    → IsGap x (y ∷ ys) t (insert_gap x (y ∷ rest)).0 (insert_gap x (y ∷ rest)).1
unfolding insert_gap
IsGap-next x y rest ys t e g =
    rw e (IsGap-deeper x y ys t (insert_gap y rest).0 (insert_gap y rest).1 (ground arith) g)

insert_gap-IsGap :
    (x : ℕ) (xs t : List ℕ)
    → Above x xs
    → All (λ m. m < x) t
    → IsGap x xs t (insert_gap x (xs ++ t)).0 (insert_gap x (xs ++ t)).1
insert_gap-IsGap x [] [] a s = unfold insert_gap in IsGap-here x [] [] tt
insert_gap-IsGap x [] (m ∷ t) a s =
    rw (insert_gap_here x (m ∷ t) refl (omega arith)) (IsGap-here x [] (m ∷ t) tt)
insert_gap-IsGap x (y ∷ ys) t a s = elim (Bool-cases (y == x + 1)) [
  | inl e ↦
      let deeper = insert_gap-IsGap y ys t a.1 (below_mono x y t (omega arith) s) in
      IsGap-next x y (ys ++ t) ys t e deeper
  | inr e ↦
      rw (insert_gap_here x (y ∷ (ys ++ t)) refl (ground arith))
        (IsGap-here x (y ∷ ys) t (ground arith, a.1))
]

IsFresh-concat : (n m : ℕ) (xs : List ℕ) → IsFresh n xs → m ≢ n → IsFresh n (xs ++ m ∷ [])
IsFresh-concat n m xs h k = All-concat (λ a. a ≢ n) xs h k

-- From one number.
IsNext-one : (x : ℕ) → 0 < x → IsNext (x ∷ []) (next_number (x ∷ [])).0 (next_number (x ∷ [])).1
unfolding next_number
IsNext-one x h = elim (Bool-cases (x == 1)) [
  | inl e ↦
      let one : x ≡ 1 = ground arith in
      rw e (record {
        fresh = (omega arith, tt);
        ordered = one_last (2 ∷ []) (omega arith, tt) (rw one);
        inserted = record { front = []; behind = x ∷ []; before_lem = refl; after_lem = refl };
      })
  | inr e ↦ rw e (record {
    fresh = (ground arith, tt);
    ordered = ascending (omega arith, (ground arith, tt));
    inserted = record { front = []; behind = x ∷ []; before_lem = refl; after_lem = refl };
  })
]

-- From two or more numbers: an ascending list.
IsNext-ascending :
    (x y : ℕ) (xs : List ℕ)
    → Above 0 (x ∷ y ∷ xs)
    → IsNext (x ∷ y ∷ xs) (insert_gap x (y ∷ xs)).0 (insert_gap x (y ∷ xs)).1
IsNext-ascending x y xs a =
    let g : IsGap x (y ∷ xs) [] (insert_gap x (y ∷ xs)).0 (insert_gap x (y ∷ xs)).1 =
      rw append-nil at (insert_gap-IsGap x (y ∷ xs) [] a.1 tt) in
    let whole : (insert_gap x (y ∷ xs)).0 ≡ x ∷ g.grown = rw append-nil at g.list_lem in
    record {
      fresh = (omega (arith, g.larger), g.fresh);
      ordered = ascending (rw whole (a.0, g.above));
      inserted = rw append-nil at g.inserted;
    }

-- Two or more numbers with the 1 last.
IsNext-one_last :
    (x : ℕ) (xs : List ℕ)
    → Above 1 (x ∷ xs)
    → IsNext (x ∷ (xs ++ 1 ∷ [])) (insert_gap x (xs ++ 1 ∷ [])).0 (insert_gap x (xs ++ 1 ∷ [])).1
IsNext-one_last x xs a =
    let g = insert_gap-IsGap x xs (1 ∷ []) a.1 (a.0, tt) in
    record {
      fresh = (omega (arith, g.larger), IsFresh-concat _ 1 xs g.fresh (omega (arith, g.larger)));
      ordered = one_last (x ∷ g.grown) (a.0, g.above) g.list_lem;
      inserted = g.inserted;
    }

pub next_number-IsNext :
    (ns : List ℕ) → IsOrdered ns → IsNext ns (next_number ns).0 (next_number ns).1
unfolding next_number
next_number-IsNext [] o = record {
  fresh = tt;
  ordered = ascending (omega arith, tt);
  inserted = record { front = []; behind = []; before_lem = refl; after_lem = refl };
}
next_number-IsNext (x ∷ []) (ascending a) = IsNext-one x a.0
next_number-IsNext (x ∷ []) (one_last [] a e) = IsNext-one x (ground arith)
next_number-IsNext (x ∷ []) (one_last (z ∷ []) a e) = cc
next_number-IsNext (x ∷ []) (one_last (z ∷ w ∷ zs) a e) = cc
next_number-IsNext (x ∷ y ∷ xs) (ascending a) = IsNext-ascending x y xs a
next_number-IsNext (x ∷ y ∷ xs) (one_last [] a e) = cc
next_number-IsNext (x ∷ y ∷ xs) (one_last (z ∷ zs) a e) =
    let same : y ∷ xs ≡ zs ++ 1 ∷ [] = cc in
    let head : x ≡ z = cc in rw same (rw head (IsNext-one_last z zs a))

-- `getNextID` gives a number that is not in use and puts it into the list at one place, and the
-- list keeps its order; the numbers in use are in the order that the server itself makes, and
-- each has a successor in `int`.
pub next_id-IsNext :
    (ns : List ℕ)
    → IsOrdered ns
    → IsBounded ns
    → (ms : List ℕ) × (n : ℕ) × (next_id (ids ns) ≡ ok (ids ms, pos n)) × IsNext ns ms n
next_id-IsNext ns o b =
    ((next_number ns).0, (next_number ns).1, next_id-eq-next_number ns b, next_number-IsNext ns o)
