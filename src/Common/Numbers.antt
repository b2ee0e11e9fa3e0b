-- ===== src/Common/Numbers.antt =====
-- `int` values and the conversions of the standard library between them and text.
use Prim.Native.Nat.{ℕ, zero, suc, ◌+◌, ◌-◌, ◌*◌, ◌/◌, ◌%◌}
use mathlib.Core.Bool.{Bool, true, false, ◌&&◌, ◌||◌}
use mathlib.Core.List.{[], ◌∷◌, ◌++◌}
use boost_web_server.Common.Tests.{ltb, leb, ◌==◌, if◌then◌else◌}
use boost_web_server.Common.Text.{Bytes}
use boost_web_server.Common.Results.{Result, ok, err, invalid_argument, out_of_range, int_overflow}

-- `negsuc n` is -(n + 1).
pub data ℤ : Type 0 where
  pos : ℕ → ℤ
  negsuc : ℕ → ℤ

-- -n
abbrev pub neg : ℕ → ℤ
neg zero = pos zero
neg (suc n) = negsuc n

unfoldable pub isspace : ℕ → Bool
isspace c = c == b' ' || leb 9 c && leb c 13

unfoldable pub isdigit : ℕ → Bool
isdigit c = leb b'0' c && leb c b'9'

-- The decimal digits at the front of a text, read onto `n`.
unfoldable pub read_digits : ℕ → Bytes → ℕ
read_digits n [] = n
read_digits n (c ∷ cs) =
    let longer = read_digits (n * 10 + (c - b'0')) cs in if isdigit c then longer else n

unfoldable pub starts_digit : Bytes → Bool
unfolding isdigit
starts_digit [] = false
starts_digit (c ∷ cs) = isdigit c

-- `std::stoi` behind the blanks and the sign.
unfoldable pub stoi_unsigned : Bool → Bytes → Result ℤ
unfolding starts_digit read_digits
stoi_unsigned negative s =
    let n = read_digits 0 s in
    if starts_digit s
    then if negative
      then if leb n 0x80000000 then ok (neg n) else err out_of_range
      else if ltb n 0x80000000
      then ok (pos n)
      else err out_of_range
    else err invalid_argument

unfoldable pub stoi : Bytes → Result ℤ
unfolding stoi_unsigned isspace
stoi [] = err invalid_argument
stoi (c ∷ cs) =
    let rest = stoi cs in
    if isspace c
    then rest
    else if c == b'-'
    then stoi_unsigned true cs
    else if c == b'+'
    then stoi_unsigned false cs
    else stoi_unsigned false (c ∷ cs)

-- The decimal digits of a number, on fuel; a number has fewer digits than one more than itself.
unfoldable pub digits_of : ℕ → ℕ → Bytes
digits_of zero n = []
digits_of (suc fuel) n =
    let front = digits_of fuel (n / 10) in
    if ltb n 10 then (b'0' + n) ∷ [] else front ++ (b'0' + n % 10) ∷ []

-- `std::to_string` of an `int`
unfoldable pub to_decimal : ℤ → Bytes
unfolding digits_of
to_decimal (pos n) = digits_of (suc n) n
to_decimal (negsuc n) = b'-' ∷ digits_of (suc (suc n)) (suc n)

-- n + 1 on `int`; a signed overflow is undefined.
unfoldable pub increment : ℤ → Result ℤ
increment (pos n) = if ltb (n + 1) 0x80000000 then ok (pos (n + 1)) else err int_overflow
increment (negsuc zero) = ok (pos 0)
increment (negsuc (suc n)) = ok (negsuc n)

unfoldable pub int_eq : ℤ → ℤ → Bool
int_eq (pos m) (pos n) = m == n
int_eq (negsuc m) (negsuc n) = m == n
int_eq _ _ = false

unfoldable pub int_lt : ℤ → ℤ → Bool
int_lt (pos m) (pos n) = ltb m n
int_lt (negsuc m) (pos n) = true
int_lt (pos m) (negsuc n) = false
int_lt (negsuc m) (negsuc n) = ltb n m
