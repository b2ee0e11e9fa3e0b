-- ===== src/Common/Slashes.antt =====
-- Paths, which slashes take apart.
use mathlib.Core.Path.{◌≡◌, refl, ap}
use mathlib.Core.Logic.{◌≢◌, inl, inr}
use mathlib.Core.List.{[], ◌∷◌, ◌++◌}
use Prim.Native.Nat.{ℕ, suc}
use native.Mathlib.Omega.{arith}
use boost_web_server.Common.Lists.{All, length, take, drop}
use boost_web_server.Common.Text.{Bytes, rfind, find}
use mathlib.Core.Option.{Option, none, some}
use boost_web_server.Common.Numbers.{isdigit, pos, to_decimal}
use boost_web_server.Common.Tests.{◌==◌, Bool-cases, Option-cases}
use boost_web_server.Common.Decimal.{IsDigits, digits_of-IsDigits, digits_of-ne}

-- A text without a slash, and where a slash is found before it.
abbrev pub NoSlash : Bytes → Type 0
NoSlash = All (λ c. c ≢ b'/')

rfind-NoSlash : (s : Bytes) → NoSlash s → rfind b'/' s ≡ none
unfolding rfind
rfind-NoSlash [] h = refl
rfind-NoSlash (c ∷ s) h = rw (rfind-NoSlash s h.1, rfind) (ground arith)

pub rfind-last : (a b : Bytes) → NoSlash b → rfind b'/' (a ++ (b'/' ∷ b)) ≡ some (length a)
unfolding rfind
rfind-last [] b h = rw (rfind-NoSlash b h, rfind)
rfind-last (c ∷ a) b h = rw (rfind-last a b h, rfind)

pub take_front : (a b : Bytes) → take (length a) (a ++ b) ≡ a
take_front [] b = refl
take_front (c ∷ a) b = ap (◌∷◌ c) (take_front a b)

pub drop_front : (a b : Bytes) (c : ℕ) → drop (suc (length a)) (a ++ (c ∷ b)) ≡ b
drop_front [] b c = refl
drop_front (x ∷ a) b c = drop_front a b c

pub digits-NoSlash : (s : Bytes) → IsDigits s → NoSlash s
unfolding isdigit
digits-NoSlash [] h = tt
digits-NoSlash (c ∷ s) h = (ground (arith, h.0), digits-NoSlash s h.1)

pub find-NoSlash : (s : Bytes) → find b'/' s ≡ none → NoSlash s
unfolding find
find-NoSlash [] h = tt
find-NoSlash (c ∷ s) h = elim (Bool-cases (c == b'/')) [
  | inl slash ↦ let never : ◌≡◌ {A = Option ℕ} (some 0) none = rw slash at h in cc
  | inr other ↦ elim (Option-cases (find b'/' s)) [
    | inl clear ↦ (ground arith, find-NoSlash s clear)
    | inr (i, later) ↦
        let never : ◌≡◌ {A = Option ℕ} (some (suc i)) none = rw (other, later) at h in cc
  ]
]

pub number-IsDigits : (n : ℕ) → IsDigits (to_decimal (pos n))
unfolding to_decimal
number-IsDigits n = digits_of-IsDigits (suc n) n

pub number-ne : (n : ℕ) → to_decimal (pos n) ≢ []
unfolding to_decimal
number-ne n = digits_of-ne n n

pub number-NoSlash : (n : ℕ) → NoSlash (to_decimal (pos n))
number-NoSlash n = digits-NoSlash (to_decimal (pos n)) (number-IsDigits n)
