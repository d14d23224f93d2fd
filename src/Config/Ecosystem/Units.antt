-- ===== src/Config/Ecosystem/Units.antt =====
-- internal/config/ecosystem.go, `jsDuration`: the proofs on durations with a unit.
use pm.Base.{
  ℕ, ◌*◌, ◌^◌, ◌≡◌, ◌<◌, refl, ap, true, false, ◌==◌, none, some, [], ◌∷◌, ◌++◌, Text, codes, arith,
  pos, ◌*ℤ◌, *ℤ-pos, wrap64, wrap64-pos, itoa, itoa-AreDigits, atoi, atoi-itoa, AreDigits, is_digit,
  AreSolid, AreSolid-append, AreDigits-solid, is_space, trim_space, trim_space-solid, strip_prefix,
  strip_suffix, read_ℕ, read_digits, to_lower,
}
use mathlib.Core.List.{reverse, reverse-append, reverse-reverse}
use pm.Config.{millisecond}
use pm.Config.Ecosystem.{
  Machine, str, js_duration, js_float, lower, find_unit, duration_units, by_text, with_unit, scaled,
}

-- The units of a duration.
pub data TimeUnit : Type 0 where
  millis seconds minutes hours days : TimeUnit

abbrev pub suffix : TimeUnit → Text
suffix millis = codes "ms"
suffix seconds = codes "s"
suffix minutes = codes "m"
suffix hours = codes "h"
suffix days = codes "d"

abbrev pub factor : TimeUnit → ℕ
factor millis = 1
factor seconds = 1000
factor minutes = 60 * 1000
factor hours = 60 * (60 * 1000)
factor days = 24 * (60 * (60 * 1000))

AreDigits-append : (s t : Text) → AreDigits s → AreDigits t → AreDigits (s ++ t)
AreDigits-append [] t h k = k
AreDigits-append (c ∷ s) t h k = (h.0, AreDigits-append s t h.1 k)

AreDigits-reverse : (s : Text) → AreDigits s → AreDigits (reverse s)
AreDigits-reverse [] h = tt
AreDigits-reverse (c ∷ s) h =
    rw (reverse-append (c ∷ []) s)
      (AreDigits-append (reverse s) (c ∷ []) (AreDigits-reverse s h.1) (h.0, tt))

lower-append : (s t : Text) → lower (s ++ t) ≡ lower s ++ lower t
unfolding lower
lower-append [] t = refl
lower-append (c ∷ s) t = ap (λ (u : Text). to_lower c ∷ u) (lower-append s t)

lower_digit : (c : ℕ) → is_digit c ≡ true → to_lower c ≡ c
unfolding is_digit to_lower
lower_digit c h = ground arith

lower-digits : (s : Text) → AreDigits s → lower s ≡ s
unfolding lower
lower-digits [] h = refl
lower-digits (c ∷ s) h = rw (lower_digit c h.0) (rw (lower-digits s h.1) refl)

differ : (c d : ℕ) → is_digit c ≡ false → is_digit d ≡ true → (c == d) ≡ false
unfolding is_digit
differ c d n k = ground arith

-- A digit is no letter.
other_letter :
    (c : ℕ) (p t : Text) → is_digit c ≡ false → AreDigits t → strip_prefix (c ∷ p) t ≡ none
unfolding strip_prefix
other_letter c p [] n h = refl
other_letter c p (d ∷ t) n h = rw (differ c d n h.0) refl

stops :
    (s t : Text) (c acc : ℕ)
    → AreDigits s
    → is_digit c ≡ false
    → read_digits acc (s ++ (c ∷ t)) ≡ none
unfolding read_digits
stops [] t c acc h n = rw n refl
stops (d ∷ s) t c acc h n = rw (h.0) (stops s t c _ h.1 n)

no_sign :
    (d : ℕ) (s : Text) → is_digit d ≡ true → read_digits 0 (d ∷ s) ≡ none → atoi (d ∷ s) ≡ none
unfolding atoi is_digit read_ℕ
no_sign d s h e = ground arith

no_letter :
    (c : ℕ) (t : Text)
    → is_digit c ≡ false
    → (c == b'-') ≡ false
    → (c == b'+') ≡ false
    → atoi (c ∷ t) ≡ none
unfolding atoi read_ℕ read_digits
no_letter c t n m p = rw m (rw p (rw n refl))

no_number :
    (s t : Text) (c : ℕ)
    → AreDigits s
    → is_digit c ≡ false
    → (c == b'-') ≡ false
    → (c == b'+') ≡ false
    → atoi (s ++ (c ∷ t)) ≡ none
no_number [] t c h n m p = no_letter c t n m p
no_number (d ∷ s) t c h n m p = no_sign d (s ++ (c ∷ t)) h.0 (stops (d ∷ s) t c 0 h n)

stays : (u : TimeUnit) → lower (suffix u) ≡ suffix u
unfolding lower to_lower
stays millis = refl
stays seconds = refl
stays minutes = refl
stays hours = refl
stays days = refl

suffix-AreSolid : (u : TimeUnit) → AreSolid (suffix u)
unfolding is_space
suffix-AreSolid millis = (refl, (refl, tt))
suffix-AreSolid seconds = (refl, tt)
suffix-AreSolid minutes = (refl, tt)
suffix-AreSolid hours = (refl, tt)
suffix-AreSolid days = (refl, tt)

module _ (d : Text) (h : AreDigits d) where
  hit :
      (p s : Text)
      → strip_prefix (reverse p) (reverse s ++ reverse d) ≡ some (reverse d)
      → strip_suffix p (d ++ s) ≡ some d
  unfolding strip_suffix
  hit p s e = rw (reverse-append d s) (rw e (rw (reverse-reverse d) refl))

  miss :
      (p s : Text)
      → strip_prefix (reverse p) (reverse s ++ reverse d) ≡ none
      → strip_suffix p (d ++ s) ≡ none
  unfolding strip_suffix
  miss p s e = rw (reverse-append d s) (rw e refl)

  no_millis : strip_prefix (reverse (codes "ms")) (reverse (codes "s") ++ reverse d) ≡ none
  unfolding strip_prefix is_digit
  no_millis = other_letter b'm' [] (reverse d) refl (AreDigits-reverse d h)

  find_unit-suffix :
      (u : TimeUnit) → find_unit (d ++ suffix u) duration_units ≡ some (d, pos (factor u))
  unfolding find_unit strip_prefix
  find_unit-suffix millis = rw (hit (codes "ms") (codes "ms") refl) refl
  find_unit-suffix seconds =
      rw (miss (codes "ms") (codes "s") no_millis) (rw (hit (codes "s") (codes "s") refl) refl)
  find_unit-suffix minutes =
      rw (miss (codes "ms") (codes "m") refl)
        (rw (miss (codes "s") (codes "m") refl) (rw (hit (codes "m") (codes "m") refl) refl))
  find_unit-suffix hours = rw (miss (codes "ms") (codes "h") refl) (
      rw (miss (codes "s") (codes "h") refl)
        (rw (miss (codes "m") (codes "h") refl) (rw (hit (codes "h") (codes "h") refl) refl)))
  find_unit-suffix days = rw (miss (codes "ms") (codes "d") refl) (
      rw (miss (codes "s") (codes "d") refl) (
        rw (miss (codes "m") (codes "d") refl)
          (rw (miss (codes "h") (codes "d") refl) (rw (hit (codes "d") (codes "d") refl) refl))))

  no_plain : (u : TimeUnit) → atoi (d ++ suffix u) ≡ none
  unfolding is_digit
  no_plain millis = no_number d (codes "s") b'm' h refl refl refl
  no_plain seconds = no_number d [] b's' h refl refl refl
  no_plain minutes = no_number d [] b'm' h refl refl refl
  no_plain hours = no_number d [] b'h' h refl refl refl
  no_plain days = no_number d [] b'd' h refl refl refl

  lower-suffix : (u : TimeUnit) → lower (d ++ suffix u) ≡ d ++ suffix u
  lower-suffix u =
      rw (lower-append d (suffix u)) (rw (lower-digits d h) (ap (λ (t : Text). d ++ t) (stays u)))

  trim_space-suffix : (u : TimeUnit) → trim_space (d ++ suffix u) ≡ d ++ suffix u
  trim_space-suffix u =
      trim_space-solid (d ++ suffix u)
        (AreSolid-append d (suffix u) (AreDigits-solid d h) (suffix-AreSolid u))

  with_unit-suffix :
      (u : TimeUnit) → with_unit duration_units (d ++ suffix u) ≡ scaled (pos (factor u)) (atoi d)
  unfolding with_unit
  with_unit-suffix u = rw (no_plain u) (rw (find_unit-suffix u) refl)

fits :
    (u : TimeUnit) (n : ℕ)
    → n * factor u * millisecond < 2 ^ 63
    → (n * factor u < 2 ^ 63) × (n < 2 ^ 63)
fits millis n h = (omega arith, omega arith)
fits seconds n h = (omega arith, omega arith)
fits minutes n h = (omega arith, omega arith)
fits hours n h = (omega arith, omega arith)
fits days n h = (omega arith, omega arith)

wrapped : (a b : ℕ) → a * b < 2 ^ 63 → wrap64 (pos a *ℤ pos b) ≡ pos (a * b)
wrapped a b h = rw (*ℤ-pos a b) (wrap64-pos (a * b) h)

-- A number with a unit stands for so many of the unit, in nanoseconds, where an int64 holds them and
-- the text is not that of a number.
pub js_duration-unit :
    (m : Machine) (n : ℕ) (u : TimeUnit)
    → m.parse_float (itoa n ++ suffix u) ≡ none
    → n * factor u * millisecond < 2 ^ 63
    → js_duration m (str (itoa n ++ suffix u)) ≡ some (pos (n * factor u * millisecond))
unfolding js_duration js_float
js_duration-unit m n u e h =
    let d = itoa-AreDigits n in
    let f = fits u n h in
    let text : js_float m (str (itoa n ++ suffix u)) ≡ none =
      rw (trim_space-suffix (itoa n) d u, js_float) e in
    let read : by_text duration_units (str (itoa n ++ suffix u)) ≡ some (pos (n * factor u)) =
      rw (lower-suffix (itoa n) d u) (
        rw (trim_space-suffix (itoa n) d u) (
          rw (with_unit-suffix (itoa n) d u)
            (rw (atoi-itoa n f.1) (rw (wrapped n (factor u) f.0) (ground arith))))) in
    rw (text, js_duration) (rw read (rw (wrapped (n * factor u) millisecond h) refl))
