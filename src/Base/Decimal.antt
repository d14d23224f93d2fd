-- ===== src/Base/Decimal.antt =====
-- strconv: decimal numerals as lists of bytes. `itoa` prints a natural number; `atoi` reads an
-- optional sign and digits, and refuses what int64 cannot hold.
use pm.Base.Tests.{ltb, leb, ◌==◌, if◌then◌else◌, Bool-cases}
use pm.Base.Int.{ℤ, pos, negsuc}
use pm.Base.Lists.{Text, All}
use Prim.Native.Nat.{ℕ, zero, suc, ◌+◌, ◌-◌, ◌*◌, ◌/◌, ◌%◌, ◌^◌, ◌<◌}
use mathlib.Core.Path.{◌≡◌, refl, ◌∙◌}
use mathlib.Core.Bool.{Bool, true, false, ◌&&◌}
use mathlib.Core.Logic.{inl, inr}
use mathlib.Core.List.{[], ◌∷◌}
use mathlib.Core.Option.{Option, none, some}
use native.Mathlib.Omega.{arith}

-- The digits of n in front of the text; `suc n` rounds are enough.
itoa_from : ℕ → ℕ → Text → Text
itoa_from zero n rest = rest
itoa_from (suc fuel) n rest =
    let more = itoa_from fuel (n / 10) ((b'0' + n % 10) ∷ rest) in
    if ltb n 10 then (b'0' + n % 10) ∷ rest else more

unfoldable pub itoa : ℕ → Text
unfolding itoa_from
itoa n = itoa_from (suc n) n []

unfoldable pub is_digit : ℕ → Bool
is_digit c = leb b'0' c && leb c b'9'

-- Reads digits on; `none` at any other byte.
unfoldable pub read_digits : ℕ → Text → Option ℕ
unfolding is_digit
read_digits acc [] = some acc
read_digits acc (c ∷ s) =
    let rest = read_digits (acc * 10 + (c - b'0')) s in if is_digit c then rest else none

unfoldable pub read_ℕ : Text → Option ℕ
unfolding read_digits
read_ℕ [] = none
read_ℕ (c ∷ s) = read_digits 0 (c ∷ s)

abbrev neg_int : ℕ → Option ℤ
neg_int zero = some (pos 0)
neg_int (suc n) = if ltb n (2 ^ 63) then some (negsuc n) else none

abbrev pos_int : ℕ → Option ℤ
pos_int n = if ltb n (2 ^ 63) then some (pos n) else none

abbrev signed {ℓ} : {A : Type ℓ} → Option ℕ → (ℕ → Option A) → Option A
signed none f = none
signed (some n) f = f n

unfoldable pub atoi : Text → Option ℤ
unfolding read_ℕ
atoi [] = none
atoi (c ∷ s) =
    if c == b'-'
    then signed (read_ℕ s) neg_int
    else if c == b'+'
    then signed (read_ℕ s) pos_int
    else signed (read_ℕ (c ∷ s)) pos_int

read-itoa_from :
    (fuel n : ℕ) (rest : Text)
    → n < fuel
    → read_digits 0 (itoa_from fuel n rest) ≡ read_digits n rest
unfolding itoa_from read_digits
read-itoa_from zero n rest h = absurd (omega arith)
read-itoa_from (suc fuel) n rest h = elim (Bool-cases (ltb n 10)) [
  | inl small ↦ rw small (ground arith)
  | inr large ↦
      rw (large)
        (read-itoa_from fuel (n / 10) ((b'0' + n % 10) ∷ rest) (ground arith) ∙ ground arith)
]

abbrev starts_digit : Text → Bool
unfolding is_digit
starts_digit [] = false
starts_digit (c ∷ s) = is_digit c

itoa_from-digit :
    (fuel n : ℕ) (rest : Text) → n < fuel → starts_digit (itoa_from fuel n rest) ≡ true
unfolding itoa_from is_digit
itoa_from-digit zero n rest h = absurd (omega arith)
itoa_from-digit (suc fuel) n rest h = elim (Bool-cases (ltb n 10)) [
  | inl small ↦ rw small (ground arith)
  | inr large ↦ rw large (itoa_from-digit fuel (n / 10) ((b'0' + n % 10) ∷ rest) (ground arith))
]

read_back :
    (t : Text) (n : ℕ)
    → starts_digit t ≡ true
    → read_digits 0 t ≡ some n
    → n < 2 ^ 63
    → atoi t ≡ some (pos n)
unfolding atoi is_digit
read_back [] n h e l = cc
read_back (c ∷ s) n h e l = ground arith

read_nothing : (n : ℕ) → read_digits n [] ≡ some n
unfolding read_digits
read_nothing n = refl

-- What is printed is read back.
pub atoi-itoa : (n : ℕ) → n < 2 ^ 63 → atoi (itoa n) ≡ some (pos n)
unfolding itoa
atoi-itoa n h =
    read_back (itoa_from (suc n) n []) n (itoa_from-digit (suc n) n [] (omega arith))
      (read-itoa_from (suc n) n [] (omega arith) ∙ read_nothing n) h

abbrev pub AreDigits : Text → Type 0
AreDigits s = All (λ c. is_digit c ≡ true) s

mod_digit : (n : ℕ) → is_digit (b'0' + n % 10) ≡ true
unfolding is_digit
mod_digit n = ground arith

itoa_from-AreDigits :
    (fuel n : ℕ) (rest : Text) → AreDigits rest → AreDigits (itoa_from fuel n rest)
unfolding itoa_from
itoa_from-AreDigits zero n rest h = h
itoa_from-AreDigits (suc fuel) n rest h =
    let digit = mod_digit n in
    elim (Bool-cases (ltb n 10)) [
      | inl small ↦ rw small (digit, h)
      | inr large ↦ rw large (itoa_from-AreDigits fuel (n / 10) ((b'0' + n % 10) ∷ rest) (digit, h))
    ]

pub itoa-AreDigits : (n : ℕ) → AreDigits (itoa n)
unfolding itoa
itoa-AreDigits n = itoa_from-AreDigits (suc n) n [] tt

nonempty_read :
    (t : Text) (n : ℕ) → starts_digit t ≡ true → read_digits 0 t ≡ some n → read_ℕ t ≡ some n
unfolding read_ℕ
nonempty_read [] n h e = cc
nonempty_read (c ∷ s) n h e = e

pub read_ℕ-itoa : (n : ℕ) → read_ℕ (itoa n) ≡ some n
unfolding itoa
read_ℕ-itoa n =
    nonempty_read (itoa_from (suc n) n []) n (itoa_from-digit (suc n) n [] (omega arith))
      (read-itoa_from (suc n) n [] (omega arith) ∙ read_nothing n)
