-- ===== src/Common/Text.antt =====
-- `std::string` as the list of its bytes, with the members of it that the server calls.
use Prim.Native.Char.{code}
use Prim.Native.Nat.{ℕ}
use Prim.Native.String.{String}
use mathlib.Core.Path.{◌≡◌, refl}
use mathlib.Core.Logic.{◌↔◌}
use mathlib.Core.Bool.{Bool, true, false, ◌&&◌}
use mathlib.Core.List.{List, [], ◌∷◌}
use native.Mathlib.Omega.{arith}
use Prim.Native.Nat.{suc}
use mathlib.Core.Option.{Option, none, some}
use boost_web_server.Common.Lists.{take, drop}
use boost_web_server.Common.Tests.{◌==◌, if◌then◌else◌}

abbrev pub Bytes : Type 0
Bytes = List ℕ

-- The bytes of an ASCII literal.
abbrev pub codes : String → Bytes
codes String.[] = []
codes (String.◌∷◌ c s) = code c ∷ codes s

-- `operator==` of two strings.
infix 50 ◌=s=◌
unfoldable pub ◌=s=◌ : Bytes → Bytes → Bool
[] =s= [] = true
(x ∷ xs) =s= (y ∷ ys) = x == y && xs =s= ys
_ =s= _ = false

pub =s=_iff : (a b : Bytes) → ((a =s= b) ≡ true) ↔ (a ≡ b)
unfolding ◌=s=◌
=s=_iff (x ∷ a) (y ∷ b) = ground (arith, =s=_iff a b)
=s=_iff _ _ = ground arith

pub =s=_refl : (a : Bytes) → (a =s= a) ≡ true
=s=_refl a = (=s=_iff a a).1 refl

-- `s.find_last_not_of(c)`; `none` is `npos`.
unfoldable pub find_last_not_of : ℕ → Bytes → Option ℕ
find_last_not_of c [] = none
find_last_not_of c (x ∷ xs) = elim (find_last_not_of c xs) [
  | some i ↦ some (suc i)
  | none ↦ if x == c then none else some 0
]

-- `s.rfind(c)` and `s.find_last_of(c)`
unfoldable pub rfind : ℕ → Bytes → Option ℕ
rfind c [] = none
rfind c (x ∷ xs) = elim (rfind c xs) [
  | some i ↦ some (suc i)
  | none ↦ if x == c then some 0 else none
]

-- `s.find(c)`
unfoldable pub find : ℕ → Bytes → Option ℕ
find c [] = none
find c (x ∷ xs) =
    let later = find c xs in
    if x == c then some 0 else elim later [ some i ↦ some (suc i) | none ↦ none ]

-- `s.substr(0, i)` and `s.substr(i + 1)` at the position that `find` or `rfind` gave; `npos` stands
-- for the whole string in both.
abbrev pub before_at : Option ℕ → Bytes → Bytes
before_at none s = s
before_at (some i) s = take i s

abbrev pub after_at : Option ℕ → Bytes → Bytes
after_at none s = s
after_at (some i) s = drop (suc i) s
