-- ===== src/Logbus/Ring/Refine.antt =====
-- The ring against its specification: a list of lines, oldest first.
use native.Mathlib.Nat.{mod-lt, mod-mod, mod-add-mod, mod-eq_of_lt, mod-eq-sub-mod}
use pm.Base.{
  ℕ, zero, suc, ◌+◌, ◌-◌, ◌%◌, ◌≤◌, ◌<◌, ◌≡◌, ◌≢◌, refl, sym, ap, ◌∙◌, inl, inr, Bool-cases, List,
  [], ◌∷◌, ◌++◌, length, ltb, ltb→lt, not_ltb→le, ◌⊎◌, ◌==◌, if◌then◌else◌, ℤ, pos, ltb_ℤ, get_or,
  set, length-set, get_or-set_self, get_or-set_ne, arith,
}
use pm.Logbus.{Entry, Route, blank}
use pm.Logbus.Ring.{evict}

-- The `n` lines from position `h` on.
abbrev pub entries : List Entry → ℕ → ℕ → List Entry
entries ring h zero = []
entries ring h (suc n) = get_or ring (h % length ring) blank ∷ entries ring (h + 1) n

-- The abstract view: the lines that the ring holds, oldest first.
abbrev pub contents : Route → List Entry
contents r = entries r.ring r.head r.count

abbrev pub bytes : List Entry → ℕ
bytes [] = 0
bytes (e ∷ es) = length e.content + bytes es

abbrev pub tail : List Entry → List Entry
tail [] = []
tail (e ∷ es) = es

-- The oldest lines go until a line of `n` bytes fits the budget, or none is left.
unfoldable pub room_for : ℤ → ℕ → List Entry → List Entry
room_for budget n [] = []
room_for budget n (e ∷ es) =
    let rest = room_for budget n es in
    if ltb_ℤ budget (pos (bytes (e ∷ es) + n)) then rest else e ∷ es

-- The specification of a push to at most `limit` lines within a byte budget.
unfoldable pub push : ℕ → ℤ → Entry → List Entry → List Entry
push limit budget e es =
    room_for budget (length e.content) (if length es == limit then tail es else es) ++ (e ∷ [])

-- The positions lie in the array, and the byte count is that of the lines.
pub record Fits (r : Route) : Type 0 where
  pub head_in : r.head < length r.ring
  pub count_in : r.count ≤ length r.ring
  pub counted : r.ring_len ≡ bytes (contents r)

entries-mod : (ring : List Entry) (h n : ℕ) → entries ring (h % length ring) n ≡ entries ring h n
entries-mod ring h zero = refl
entries-mod ring h (suc n) =
    let c = length ring in
    let next =
      sym (entries-mod ring (h % c + 1) n)
      ∙ ap (λ k. entries ring k n) (mod-add-mod h c 1)
      ∙ entries-mod ring (h + 1) n in
    rw (mod-mod h c) (ap (λ l. get_or ring (h % c) blank ∷ l) next)

pub length-entries : (ring : List Entry) (h n : ℕ) → length (entries ring h n) ≡ n
length-entries ring h zero = refl
length-entries ring h (suc n) = ap suc (length-entries ring (h + 1) n)

-- A position that has wrapped around at most once.
wrapped : (c i : ℕ) → i < c + c → (i < c) × (i % c ≡ i) ⊎ (c ≤ i) × (i % c ≡ i - c)
wrapped c i h = elim (Bool-cases (ltb i c)) [
  | inl e ↦ let lt = ltb→lt i c e in inl (lt, mod-eq_of_lt lt)
  | inr e ↦
      let le = not_ltb→le i c e in
      inr (le, mod-eq-sub-mod le ∙ mod-eq_of_lt (let lt : i - c < c = omega arith in lt))
]

apart : (c i j : ℕ) → i < j → j < i + c → j < c + c → i % c ≢ j % c
apart c i j lt near small =
    λ e. let wi = wrapped c i (omega arith) in let wj = wrapped c j small in ground arith

module _ (ring : List Entry) (e : Entry) (j : ℕ) (small : j < length ring + length ring) where
  unfoldable pub written : List Entry
  written = set ring (j % length ring) e

  -- What stands elsewhere is kept.
  kept :
      (i : ℕ)
      → i < j
      → j < i + length ring
      → get_or written (i % length written) blank ≡ get_or ring (i % length ring) blank
  unfolding written
  kept i lt near =
      let c = length ring in
      rw (length-set ring (j % c) e)
        (get_or-set_ne ring (j % c) (i % c) e blank (λ q. apart c i j lt near small (sym q)))

  -- A write behind the last position is the last line.
  pub entries-written :
      (h n : ℕ)
      → h + n ≡ j
      → n < length ring
      → entries written h (suc n) ≡ entries ring h n ++ (e ∷ [])
  unfolding written
  entries-written h zero a b =
      let c = length ring in
      let same : h % c ≡ j % c = ap (λ k. k % c) (omega arith) in
      ap (λ l. l ∷ [])
        (rw (length-set ring (j % c) e)
          (rw same (get_or-set_self ring (j % c) e blank (mod-lt j (omega arith)))))
  entries-written h (suc n) a b = rw (kept h (omega arith) (omega arith)) (
      ap (λ l. get_or ring (h % length ring) blank ∷ l)
        (entries-written (h + 1) n (omega arith) (omega arith)))

pub entries-none : (ring : List Entry) (h n : ℕ) → n ≡ 0 → entries ring h n ≡ []
entries-none ring h zero e = refl
entries-none ring h (suc n) e = absurd (omega arith)

entries-cons :
    (ring : List Entry) (h n : ℕ)
    → 0 < n
    → entries ring h n
      ≡ get_or ring (h % length ring) blank ∷ entries ring ((h + 1) % length ring) (n - 1)
entries-cons ring h zero p = absurd (omega arith)
entries-cons ring h (suc n) p =
    ap (λ l. get_or ring (h % length ring) blank ∷ l)
      (sym (entries-mod ring (h + 1) n)
        ∙ ap (λ k. entries ring ((h + 1) % length ring) k) (omega arith))

unfoldable pub oldest : Route → Entry
oldest r = get_or r.ring r.head blank

pub contents-evict : (r : Route) → Fits r → 0 < r.count → contents r ≡ oldest r ∷ contents (evict r)
unfolding oldest evict
contents-evict r v p =
    entries-cons r.ring r.head r.count p
    ∙ ap (λ k. get_or r.ring k blank ∷ entries r.ring ((r.head + 1) % length r.ring) (r.count - 1))
        (mod-eq_of_lt v.head_in)

pub evict-Fits : (r : Route) → Fits r → 0 < r.count → Fits (evict r)
unfolding evict oldest
evict-Fits r v p = record {
  head_in = mod-lt (r.head + 1) (omega (arith, v.head_in));
  count_in = omega (arith, v.count_in);
  counted = omega (arith, v.counted, ap bytes (contents-evict r v p));
}
