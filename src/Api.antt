-- ===== src/Api.antt =====
-- src/request_api_handler.cc: the entities of the CRUD interface, kept as files with numbers for
-- names below a root directory, and `path_counts`, the numbers in use for each entity.
pub mod Ids
pub mod Insertion
pub mod Scan
pub mod Paths
pub mod Rescan
pub mod Found
pub mod Written
pub mod Handler
pub mod Posting
pub mod Order
pub mod History
pub mod Disorder
mod Tests
use boost_web_server.Common.{
  ℕ, zero, suc, ◌-◌, Bool, false, ◌||◌, List, [], ◌∷◌, if◌then◌else◌, ℤ, pos, increment, int_eq,
  int_lt, bad_index, Result, ok, err, ◌>>=◌,
}

-- The `while` loop over neighbours, from the number `prev` on: how far the numbers follow one
-- another without a gap, `prev` counted.
unfoldable pub run_length : ℤ → List ℤ → Result ℕ
run_length prev [] = ok 1
run_length prev (x ∷ xs) = do
  next ← increment prev
  if int_eq x next then (run_length x xs >>= λ n. ok (suc n)) else ok 1

-- `ids.insert(ids.begin() + index, id)`
unfoldable pub insert_at : ℕ → ℤ → List ℤ → List ℤ
insert_at zero id ids = id ∷ ids
insert_at (suc i) id [] = id ∷ []
insert_at (suc i) id (x ∷ xs) = x ∷ insert_at i id xs

-- `ids[index]`, undefined out of range.
unfoldable pub id_at : List ℤ → ℕ → Result ℤ
id_at [] i = err bad_index
id_at (x ∷ xs) zero = ok x
id_at (x ∷ xs) (suc i) = id_at xs i

-- The list and the number that `getNextID` leaves, from a list of two or more numbers.
unfoldable pub next_in_run : ℤ → List ℤ → Result (List ℤ × ℤ)
next_in_run x xs = do
  index ← run_length x xs
  last ← id_at (x ∷ xs) (index - 1)
  id ← increment last
  ok (insert_at index id (x ∷ xs), id)

-- `getNextID` on the list of one entity: the new list, and the number.
unfoldable pub next_id : List ℤ → Result (List ℤ × ℤ)
unfolding next_in_run
next_id [] = ok (pos 1 ∷ [], pos 1)
next_id (x ∷ []) =
    if int_eq x (pos 1) then ok (pos 2 ∷ x ∷ [], pos 2) else ok (pos 1 ∷ x ∷ [], pos 1)
next_id (x ∷ y ∷ xs) = next_in_run x (y ∷ xs)

-- `std::find` on the numbers.
unfoldable pub has_id : ℤ → List ℤ → Bool
has_id id [] = false
has_id id (x ∷ xs) = int_eq x id || has_id id xs

-- `ids.erase(it)` at the first place that holds the number.
unfoldable pub erase_id : ℤ → List ℤ → List ℤ
erase_id id [] = []
erase_id id (x ∷ xs) = if int_eq x id then xs else x ∷ erase_id id xs

-- How the constructor adds the number of a file that it finds.
unfoldable pub add_id : ℤ → List ℤ → Result (List ℤ)
add_id id [] = ok (id ∷ [])
add_id id (x ∷ []) =
    if int_eq x id then ok (x ∷ []) else if int_lt x id then ok (x ∷ id ∷ []) else ok (id ∷ x ∷ [])
add_id id (x ∷ y ∷ xs) =
    if has_id id (x ∷ y ∷ xs)
    then ok (x ∷ y ∷ xs)
    else (run_length x (y ∷ xs) >>= λ index. ok (insert_at index id (x ∷ y ∷ xs)))
