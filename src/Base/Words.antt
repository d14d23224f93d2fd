-- ===== src/Base/Words.antt =====
-- `strings.Fields` on a text whose words are known: each word is followed by a blank.
use Prim.Native.Nat.{ℕ}
use mathlib.Core.Path.{◌≡◌, refl}
use mathlib.Core.Bool.{true, false}
use mathlib.Core.List.{[], ◌∷◌, ◌++◌, reverse, reverse-append, reverse-cons, reverse-reverse}
use native.Mathlib.Omega.{arith}
use pm.Base.Tests.{◌==◌}
use pm.Base.Lists.{Text, All, is_empty}
use pm.Base.Strings.{is_space, split, drop_empty, to_spaces, fields, trim_left, trim_space}
use pm.Base.Decimal.{AreDigits, is_digit}

abbrev pub AreSolid : Text → Type 0
AreSolid s = All (λ c. is_space c ≡ false) s

-- A word: some bytes, none of them a blank.
abbrev pub IsWord : Text → Type 0
IsWord s = (is_empty s ≡ false) × AreSolid s

solid_split :
    (s : Text) (b : ℕ) (rest : Text)
    → AreSolid s
    → is_space b ≡ true
    → split 32 (to_spaces (s ++ (b ∷ rest))) ≡ s ∷ split 32 (to_spaces rest)
unfolding split is_space
solid_split [] b rest h e = rw e refl
solid_split (c ∷ s) b rest h e =
    let ne : (c == 32) ≡ false = let h0 = h.0 in ground arith in
    rw (h.0) (rw ne (rw (solid_split s b rest h.1 e) refl))

-- The first word of a text.
pub fields-word :
    (s : Text) (b : ℕ) (rest : Text)
    → IsWord s
    → is_space b ≡ true
    → fields (s ++ (b ∷ rest)) ≡ s ∷ fields rest
unfolding fields drop_empty
fields-word s b rest h e = rw (solid_split s b rest h.1 e) (rw (h.0) refl)

pub fields_nothing : fields [] ≡ []
unfolding fields drop_empty split
fields_nothing = refl

trim_left-solid : (s : Text) → AreSolid s → trim_left s ≡ s
unfolding trim_left
trim_left-solid [] h = refl
trim_left-solid (c ∷ s) h = rw (h.0) refl

pub AreSolid-append : (s t : Text) → AreSolid s → AreSolid t → AreSolid (s ++ t)
AreSolid-append [] t h k = k
AreSolid-append (c ∷ s) t h k = (h.0, AreSolid-append s t h.1 k)

AreSolid-reverse : (s : Text) → AreSolid s → AreSolid (reverse s)
AreSolid-reverse [] h = tt
AreSolid-reverse (c ∷ s) h =
    rw (reverse-cons c s) (AreSolid-append (reverse s) (c ∷ []) (AreSolid-reverse s h.1) (h.0, tt))

-- A text without blanks is left as it is.
pub trim_space-solid : (s : Text) → AreSolid s → trim_space s ≡ s
unfolding trim_space
trim_space-solid s h =
    rw (trim_left-solid s h)
      (rw (trim_left-solid (reverse s) (AreSolid-reverse s h)) (reverse-reverse s))

ends : (s : Text) → AreSolid s → trim_left (10 ∷ reverse s) ≡ reverse s
unfolding trim_left is_space
ends s h = trim_left-solid (reverse s) (AreSolid-reverse s h)

-- The newline behind a text without blanks goes.
pub trim_space-newline :
    (c : ℕ) (s : Text) → AreSolid (c ∷ s) → trim_space ((c ∷ s) ++ (10 ∷ [])) ≡ c ∷ s
unfolding trim_space trim_left
trim_space-newline c s h =
    rw (h.0) (rw (reverse-append (c ∷ s) (10 ∷ [])) (rw (ends (c ∷ s) h) (reverse-reverse (c ∷ s))))

digit_solid : (c : ℕ) → is_digit c ≡ true → is_space c ≡ false
unfolding is_digit is_space
digit_solid c h = ground arith

pub AreDigits-solid : (s : Text) → AreDigits s → AreSolid s
AreDigits-solid [] h = tt
AreDigits-solid (c ∷ s) h = (digit_solid c h.0, AreDigits-solid s h.1)
