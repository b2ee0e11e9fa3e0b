-- ===== src/Api/Handler/Listing.antt =====
-- The body of a listing of src/request_api_handler.cc.
use boost_web_server.Common.{
  ℕ, ◌≡◌, refl, ap, List, [], ◌∷◌, ◌++◌, append_assoc, Bytes, codes, ℤ, to_decimal,
}
use boost_web_server.Api.Handler.{with_commas, replace_last, list_body}

-- The numbers with a comma between neighbours.
abbrev pub comma_list : ℤ → List ℤ → Bytes
comma_list i [] = to_decimal i
comma_list i (j ∷ is) = to_decimal i ++ (b',' ∷ comma_list j is)

with_commas-comma_list : (i : ℤ) (is : List ℤ) → with_commas (i ∷ is) ≡ comma_list i is ++ b',' ∷ []
unfolding with_commas
with_commas-comma_list i [] = refl
with_commas-comma_list i (j ∷ is) = rw (with_commas-comma_list j is) (rw append_assoc)

replace_last-concat : (c x : ℕ) (s : Bytes) → replace_last c (s ++ x ∷ []) ≡ s ++ c ∷ []
unfolding replace_last
replace_last-concat c x [] = refl
replace_last-concat c x (y ∷ []) = refl
replace_last-concat c x (y ∷ z ∷ s) = ap (◌∷◌ y) (replace_last-concat c x (z ∷ s))

-- The body of a listing is the numbers between brackets, with commas between them; but without
-- numbers it is a closing bracket alone, since that is written over the opening one.
pub list_body_lem :
    (list_body [] ≡ codes "]")
    × ((i : ℤ) (is : List ℤ) → list_body (i ∷ is) ≡ b'[' ∷ (comma_list i is ++ b']' ∷ []))
unfolding list_body
list_body_lem = (
  refl,
  λ i is. rw (with_commas-comma_list i is) (replace_last-concat b']' b',' (b'[' ∷ comma_list i is)),
)
