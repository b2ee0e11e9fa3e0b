-- ===== src/Common/Decimal.antt =====
-- `std::stoi` reads what `std::to_string` writes.
use mathlib.Core.Path.{◌≡◌, refl, ◌∙◌}
use Prim.Native.Nat.{ℕ, zero, suc, ◌+◌, ◌*◌, ◌-◌, ◌<◌, ◌/◌, ◌%◌}
use mathlib.Core.Logic.{◌≢◌, inl, inr}
use mathlib.Core.Bool.{true, false}
use mathlib.Core.List.{List, [], ◌∷◌, ◌++◌}
use native.Mathlib.Omega.{arith}
use boost_web_server.Common.Tests.{ltb, Bool-cases, lt→ltb}
use boost_web_server.Common.Lists.{All, All-concat}
use boost_web_server.Common.Text.{Bytes}
use boost_web_server.Common.Numbers.{
  pos, isdigit, isspace, starts_digit, read_digits, stoi_unsigned, stoi, digits_of, to_decimal,
}
use boost_web_server.Common.Results.{ok}

-- Decimal digits are the bytes from 48 to 57.
abbrev pub IsDigits : Bytes → Type 0
IsDigits = All (λ c. isdigit c ≡ true)

read_digits-concat :
    (a : ℕ) (s : Bytes) (c : ℕ)
    → IsDigits s
    → isdigit c ≡ true
    → read_digits a (s ++ c ∷ []) ≡ read_digits a s * 10 + (c - b'0')
unfolding read_digits
read_digits-concat a [] c h e = rw e
read_digits-concat a (x ∷ s) c h e = rw h.0 (read_digits-concat (a * 10 + (x - b'0')) s c h.1 e)

digit_of : (n : ℕ) → n < 10 → isdigit (b'0' + n) ≡ true
unfolding isdigit
digit_of n h = ground arith

pub digits_of-IsDigits : (fuel n : ℕ) → IsDigits (digits_of fuel n)
unfolding digits_of
digits_of-IsDigits zero n = tt
digits_of-IsDigits (suc fuel) n = elim (Bool-cases (ltb n 10)) [
  | inl e ↦ rw e (digit_of n (ground arith), tt)
  | inr e ↦ rw e (
      All-concat (λ c. isdigit c ≡ true) (digits_of fuel (n / 10))
        (digits_of-IsDigits fuel (n / 10)) (digit_of (n % 10) (omega arith)))
]

pub read_digits-digits_of : (fuel n : ℕ) → n < fuel → read_digits 0 (digits_of fuel n) ≡ n
unfolding digits_of
read_digits-digits_of zero n h = omega arith
read_digits-digits_of (suc fuel) n h = elim (Bool-cases (ltb n 10)) [
  | inl e ↦ rw e (unfold read_digits in rw (digit_of n (ground arith)) (omega arith))
  | inr e ↦
      let large : ltb n 10 ≡ false = e in
      let front = read_digits-digits_of fuel (n / 10) (ground arith) in
      rw e (
        read_digits-concat 0 (digits_of fuel (n / 10)) (b'0' + n % 10)
          (digits_of-IsDigits fuel (n / 10)) (digit_of (n % 10) (omega arith))
        ∙ rw front (omega arith))
]

pub concat-ne {ℓ} : {A : Type ℓ} (s : List A) (c : A) → s ++ c ∷ [] ≢ []
concat-ne [] c e = cc
concat-ne (x ∷ s) c e = cc

pub digits_of-ne : (fuel n : ℕ) → digits_of (suc fuel) n ≢ []
unfolding digits_of
digits_of-ne fuel n = elim (Bool-cases (ltb n 10)) [
  | inl e ↦ rw e (concat-ne [] (b'0' + n))
  | inr e ↦ rw e (concat-ne (digits_of fuel (n / 10)) (b'0' + n % 10))
]

stoi-digits :
    (s : Bytes)
    → IsDigits s
    → s ≢ []
    → read_digits 0 s < 0x80000000
    → stoi s ≡ ok (pos (read_digits 0 s))
unfolding stoi stoi_unsigned starts_digit
stoi-digits [] h ne b = absurd (ne refl)
stoi-digits (c ∷ s) h ne b =
    let in_range : ltb (read_digits 0 (c ∷ s)) 0x80000000 ≡ true = lt→ltb _ _ b in
    let first : isdigit c ≡ true = h.0 in unfold isdigit isspace in ground (arith, in_range, first)

-- Any number in the range of `int` survives being written and read.
pub stoi-to_decimal : (n : ℕ) → n < 0x80000000 → stoi (to_decimal (pos n)) ≡ ok (pos n)
unfolding to_decimal
stoi-to_decimal n h =
    let value = read_digits-digits_of (suc n) n (omega arith) in
    stoi-digits (digits_of (suc n) n) (digits_of-IsDigits (suc n) n) (digits_of-ne n n) (rw value h)
    ∙ rw value
