-- ===== src/Base/Maps.antt =====
-- Go's maps with integer keys: association lists, in the order in which a range loop meets them.
use mathlib.Core.Path.{◌≡◌, refl}
use mathlib.Core.Logic.{◌↔◌}
use mathlib.Core.Bool.{Bool, true, false}
use mathlib.Core.List.{List, [], ◌∷◌}
use mathlib.Core.Option.{Option, none, some}
use native.Mathlib.Omega.{arith}
use pm.Base.Tests.{◌==◌, if◌then◌else◌}
use pm.Base.Int.{ℤ, pos, negsuc}

unfoldable pub int_eq : ℤ → ℤ → Bool
int_eq (pos m) (pos n) = m == n
int_eq (pos m) (negsuc n) = false
int_eq (negsuc m) (pos n) = false
int_eq (negsuc m) (negsuc n) = m == n

pub int_eq_iff : (a b : ℤ) → (int_eq a b ≡ true) ↔ (a ≡ b)
unfolding int_eq
int_eq_iff a b = ground arith

pub int_eq_refl : (a : ℤ) → int_eq a a ≡ true
int_eq_refl a = (int_eq_iff a a).1 refl

abbrev pub Map {ℓ} : Type ℓ → Type ℓ
Map V = List (ℤ × V)

module _ {ℓ} {V : Type ℓ} where
  unfoldable pub lookup : ℤ → Map V → Option V
  lookup k [] = none
  lookup k ((j, v) ∷ m) = if int_eq j k then some v else lookup k m

  -- A write replaces the entry of its key.
  unfoldable pub insert : ℤ → V → Map V → Map V
  insert k v [] = (k, v) ∷ []
  insert k v ((j, w) ∷ m) = if int_eq j k then (k, v) ∷ m else (j, w) ∷ insert k v m

  unfoldable pub delete : ℤ → Map V → Map V
  delete k [] = []
  delete k ((j, v) ∷ m) = if int_eq j k then delete k m else (j, v) ∷ delete k m

  pub lookup-insert :
      (k j : ℤ) (v : V) (m : Map V)
      → lookup j (insert k v m) ≡ (if int_eq k j then some v else lookup j m)
  unfolding lookup insert
  lookup-insert k j v [] = refl
  lookup-insert k j v ((i, w) ∷ m) =
      ground (arith, int_eq_iff k j, int_eq_iff i k, int_eq_iff i j, lookup-insert k j v m)

  pub lookup-delete :
      (k j : ℤ) (m : Map V) → lookup j (delete k m) ≡ (if int_eq k j then none else lookup j m)
  unfolding lookup delete
  lookup-delete k j [] = ground arith
  lookup-delete k j ((i, w) ∷ m) =
      ground (arith, int_eq_iff k j, int_eq_iff i k, int_eq_iff i j, lookup-delete k j m)
