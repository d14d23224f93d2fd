-- ===== src/Machine/Build/Marker.antt =====
-- internal/proc/detect_linux.go, `SanitizeName`, and the attribution marker of `buildApp`: proofs.
use pm.Base.{
  ℕ, ◌<◌, ◌^◌, ◌≡◌, ◌≢◌, refl, sym, ap, ◌∙◌, inl, inr, true, Bool-cases, ◌||◌, Option, none, some,
  List, [], ◌∷◌, ◌++◌, All, Text, codes, text_eq, is_empty, ◌==◌, if◌then◌else◌, arith, itoa, atoi,
  atoi-itoa, pos, AreDigits, itoa-AreDigits, is_digit,
}
use mathlib.Core.Option.{some-injective}
use pm.Proc.{is_safe_byte, sanitize_runes, sanitize_name}
use pm.Machine.Build.{attrib}

abbrev pub IsSafe : Text → Type 0
IsSafe s = All (λ c. is_safe_byte c ≡ true) s

sanitize_runes-IsSafe : (name : List ℕ) → IsSafe (sanitize_runes name)
unfolding sanitize_runes
sanitize_runes-IsSafe [] = tt
sanitize_runes-IsSafe (r ∷ rs) = elim (Bool-cases (is_safe_byte r)) [
  | inl e ↦ rw e (e, sanitize_runes-IsSafe rs)
  | inr e ↦ rw e (unfold is_safe_byte in refl, sanitize_runes-IsSafe rs)
]

-- A name that can stand as one component of a path: not empty, neither `.` nor `..`, and of safe
-- bytes only.
abbrev pub IsComponent : Text → Type 0
IsComponent s = IsSafe s × (s ≢ []) × (s ≢ codes ".") × (s ≢ codes "..")

or_app-IsComponent :
    (b : Text)
    → IsSafe b
    → IsComponent
        (if is_empty b || text_eq b (codes ".") || text_eq b (codes "..") then codes "app" else b)
unfolding is_safe_byte
or_app-IsComponent b h =
    elim (Bool-cases (is_empty b || text_eq b (codes ".") || text_eq b (codes ".."))) [
      | inl t ↦ rw t ((refl, (refl, (refl, tt))), λ x. cc, λ x. cc, λ x. cc)
      | inr f ↦ rw f (h, λ x. cc (rw x at f), λ x. cc (rw x at f), λ x. cc (rw x at f))
    ]

-- A sanitized name is a component of a path, whatever the name was.
pub sanitize_name-IsComponent : (name : List ℕ) → IsComponent (sanitize_name name)
unfolding sanitize_name
sanitize_name-IsComponent name =
    or_app-IsComponent (sanitize_runes name) (sanitize_runes-IsSafe name)

-- What stands behind the last dash.
abbrev or_behind : Option Text → ℕ → Text → Option Text
or_behind (some t) c s = some t
or_behind none c s = if c == b'-' then some s else none

abbrev behind_dash : Text → Option Text
behind_dash [] = none
behind_dash (c ∷ s) = or_behind (behind_dash s) c s

digits_behind : (s : Text) → AreDigits s → behind_dash s ≡ none
digits_behind [] h = refl
digits_behind (c ∷ s) h = rw (digits_behind s h.1) (let d = h.0 in unfold is_digit in ground arith)

behind-append : (xs s : Text) → AreDigits s → behind_dash (xs ++ (b'-' ∷ s)) ≡ some s
behind-append [] s h = rw (digits_behind s h) refl
behind-append (x ∷ xs) s h = rw (behind-append xs s h) refl

pos_inj : {m n : ℕ} → pos m ≡ pos n → m ≡ n
pos_inj e = cc

-- Two apps with the same marker have the same id, whatever their names are.
pub attrib-id :
    (name other : Text) (m n : ℕ) → m < 2 ^ 63 → n < 2 ^ 63 → attrib name m ≡ attrib other n → m ≡ n
unfolding attrib
attrib-id name other m n hm hn e =
    let behind =
      sym (behind-append (sanitize_name name) (itoa m) (itoa-AreDigits m))
      ∙ ap behind_dash e
      ∙ behind-append (sanitize_name other) (itoa n) (itoa-AreDigits n) in
    let same = some-injective (itoa m) (itoa n) behind in
    pos_inj (some-injective (pos m) (pos n) (sym (atoi-itoa m hm) ∙ ap atoi same ∙ atoi-itoa n hn))
