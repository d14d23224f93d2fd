-- ===== src/Daemon/Expand/Family.antt =====
-- internal/daemon/control.go, `ScaleProcess`: the proofs on the names of new instances in fork mode.
use pm.Base.{
  strip_prefix, ℕ, zero, suc, ◌+◌, ◌<◌, ◌^◌, ◌≡◌, refl, sym, ap, ◌∙◌, inl, inr, true, false,
  Bool-cases, none, some, List, [], ◌∷◌, ◌++◌, All, Text, text_eq, is_empty, arith, ℤ, pos, negsuc,
  pos_part, ◌≤ℤ◌, ◌<ℤ◌, ◌+ℤ◌, wrap64-pos, itoa, itoa-AreDigits, atoi, atoi-itoa, AreDigits,
}
use pm.Machine.Env.Getenv.{text_eq→eq}
use pm.Config.{Config}
use pm.Supervisor.Commands.{AppView}
use pm.Daemon.Select.{instance_index, are_digits, suffix_of, suffix_index}
use pm.Daemon.Expand.{
  is_cluster, numbered, max_int, max_name_index, max_index, next_instances, scaled_up,
}

strip_prefix-append : (p s : Text) → strip_prefix p (p ++ s) ≡ some s
unfolding strip_prefix
strip_prefix-append [] s = refl
strip_prefix-append (c ∷ p) s = let ih = strip_prefix-append p s in ground arith

are_digits-AreDigits : (s : Text) → AreDigits s → are_digits s ≡ true
unfolding are_digits
are_digits-AreDigits [] h = refl
are_digits-AreDigits (c ∷ s) h = rw (h.0) (are_digits-AreDigits s h.1)

no_number : atoi [] ≡ none
unfolding atoi
no_number = refl

read_full : (t : Text) (n : ℕ) → atoi t ≡ some (pos n) → is_empty t ≡ false
read_full [] n e = let f = no_number in cc
read_full (c ∷ t) n e = refl

index_of_digits :
    (s : Text) (n : ℕ) → AreDigits s → atoi s ≡ some (pos n) → suffix_index (some s) ≡ pos n
index_of_digits s n d e = rw (read_full s n e) (rw (are_digits-AreDigits s d) (rw e refl))

append_dash : (name s : Text) → (name ++ (b'-' ∷ [])) ++ s ≡ name ++ (b'-' ∷ s)
append_dash [] s = refl
append_dash (c ∷ name) s = ap (λ (t : Text). c ∷ t) (append_dash name s)

suffix_of-numbered : (name s : Text) → suffix_of (name ++ (b'-' ∷ s)) name ≡ some s
suffix_of-numbered name s =
    ap (λ t. strip_prefix (name ++ (b'-' ∷ [])) t) (sym (append_dash name s))
    ∙ strip_prefix-append (name ++ (b'-' ∷ [])) s

-- The number of a numbered name is read back.
pub instance_index-numbered :
    (name : Text) (n : ℕ) → n < 2 ^ 63 → instance_index (numbered name (pos n)) name ≡ pos n
unfolding instance_index
instance_index-numbered name n h =
    rw (suffix_of-numbered name (itoa n))
      (index_of_digits (itoa n) n (itoa-AreDigits n) (atoi-itoa n h))

-- No number of the family is above the bound.
abbrev AreBelow : Text → ℤ → List AppView → Type 0
AreBelow name best vs = All (λ v. instance_index v.app.cfg.name name ≤ℤ best) vs

le-max_name_index :
    (name : Text) (vs : List AppView) (best : ℤ) → best ≤ℤ max_name_index name vs best
unfolding max_name_index
le-max_name_index name [] best = omega arith
le-max_name_index name (v ∷ vs) best =
    let e = le-max_name_index name vs (max_int best (instance_index v.app.cfg.name name)) in
    ground arith

max_name_index-AreBelow :
    (name : Text) (vs : List AppView) (best : ℤ) → AreBelow name (max_name_index name vs best) vs
unfolding max_name_index
max_name_index-AreBelow name [] best = tt
max_name_index-AreBelow name (v ∷ vs) best =
    let i = instance_index v.app.cfg.name name in
    let e = le-max_name_index name vs (max_int best i) in
    (ground arith, max_name_index-AreBelow name vs (max_int best i))

-- The numbers of the new instances go on from the bound, and no app of the family has their names.
abbrev pub IsGrown : Text → List AppView → ℤ → ℕ → List Config → Type 0
IsGrown name vs best from [] = Unit
IsGrown name vs best from (c ∷ cs) =
    (instance_index c.name name ≡ best +ℤ pos from)
    × All (λ v. text_eq v.app.cfg.name c.name ≡ false) vs
    × IsGrown name vs best (suc from) cs

sum_pos :
    (best : ℤ) (n : ℕ)
    → negsuc 0 ≤ℤ best
    → pos_part best + suc n < 2 ^ 63
    → (k : ℕ) × (best +ℤ pos (suc n) ≡ pos k) × (k < 2 ^ 63) × (best <ℤ pos k)
unfolding ◌+ℤ◌
sum_pos (pos m) n low h = (m + suc n, ground arith, omega arith, omega arith)
sum_pos (negsuc zero) n low h = (n, ground arith, omega arith, omega arith)
sum_pos (negsuc (suc m)) n low h = absurd (omega arith)

are_fresh :
    (name : Text) (best : ℤ) (k : ℕ) (vs : List AppView)
    → k < 2 ^ 63
    → best <ℤ pos k
    → AreBelow name best vs
    → All (λ v. text_eq v.app.cfg.name (numbered name (pos k)) ≡ false) vs
are_fresh name best k [] h l b = tt
are_fresh name best k (v ∷ vs) h l b = (
  elim (Bool-cases (text_eq v.app.cfg.name (numbered name (pos k)))) [
    | inl same ↦
        let e = text_eq→eq v.app.cfg.name (numbered name (pos k)) same in
        let i = ap (λ t. instance_index t name) e ∙ instance_index-numbered name k h in
        let low = b.0 in absurd (ground arith)
    | inr other ↦ other
  ],
  are_fresh name best k vs h l b.1,
)

next_instances-IsGrown :
    (name : Text) (base : Config) (vs : List AppView) (best : ℤ) (from n : ℕ)
    → is_cluster base ≡ false
    → AreBelow name best vs
    → negsuc 0 ≤ℤ best
    → pos_part best + (suc from + n) < 2 ^ 63
    → IsGrown name vs best (suc from) (next_instances name base best (suc from) n)
unfolding next_instances
next_instances-IsGrown name base vs best from zero f b low h = tt
next_instances-IsGrown name base vs best from (suc n) f b low h =
    let (k, e, bound, above) = sum_pos best from low (omega arith) in
    rw f (
      rw e (
        rw (wrap64-pos k bound) (
          instance_index-numbered name k bound,
          are_fresh name best k vs bound above b,
          next_instances-IsGrown name base vs best (suc from) n f b low (omega arith),
        )))

-- A scale-up of an app in fork mode numbers its new instances on from the highest number of the
-- family, so that no app of the family has the name of a new one, where an int holds the numbers.
pub scaled_up-IsGrown :
    (name : Text) (first : AppView) (rest : List AppView) (n : ℕ)
    → is_cluster first.app.cfg ≡ false
    → let best = max_name_index name (first ∷ rest) (negsuc 0) in
      pos_part best + suc n < 2 ^ 63
      → IsGrown name (first ∷ rest) best 1 (scaled_up name first rest n)
unfolding scaled_up max_index
scaled_up-IsGrown name first rest n f h =
    let best = max_name_index name (first ∷ rest) (negsuc 0) in
    simp f (
      next_instances-IsGrown name first.app.cfg (first ∷ rest) best 0 n f
        (max_name_index-AreBelow name (first ∷ rest) (negsuc 0))
        (le-max_name_index name (first ∷ rest) (negsuc 0)) (omega arith))
