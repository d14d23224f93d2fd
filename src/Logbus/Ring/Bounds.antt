-- ===== src/Logbus/Ring/Bounds.antt =====
-- internal/logbus/logbus.go, `pushRing`: the bounds that its specification keeps.
use pm.Base.{
  ℕ, ◌+◌, ◌≤◌, ◌<◌, ◌≡◌, ◌⊎◌, refl, ap, ◌∙◌, inl, inr, Bool-cases, List, [], ◌∷◌, ◌++◌, length,
  length-append, ◌==◌, ==_iff, if◌then◌else◌, ℤ, pos, ltb_ℤ, ltb_ℤ→le, ◌≤ℤ◌, arith,
}
use pm.Logbus.{Entry, Route}
use pm.Logbus.Ring.{push_ring}
use pm.Logbus.Ring.Refine.{bytes, contents, Fits, tail, room_for, length-entries, push}
use pm.Logbus.Ring.Push.{
  push_ring-refines, tail-lt, bytes-append, room_clash, lt_of_differ, room_for-length-le,
}

less_lines :
    (limit : ℕ) (es : List Entry)
    → 0 < limit
    → length es ≤ limit
    → length (if length es == limit then tail es else es) < limit
less_lines limit es p h = elim (Bool-cases (length es == limit)) [
  | inl full ↦
      let same = (==_iff (length es) limit).0 full in
      rw full (let less = tail-lt es (omega arith) in omega arith)
  | inr room ↦ rw room (lt_of_differ (length es) limit h (λ e. room_clash (length es) limit e room))
]

room_for-within :
    (budget : ℤ) (n : ℕ) (es : List Entry)
    → (pos (bytes (room_for budget n es) + n) ≤ℤ budget) ⊎ (room_for budget n es ≡ [])
unfolding room_for
room_for-within budget n [] = inr refl
room_for-within budget n (e ∷ es) = elim (Bool-cases (ltb_ℤ budget (pos (bytes (e ∷ es) + n)))) [
  | inl over ↦ rw (over, room_for) (room_for-within budget n es)
  | inr fit ↦ rw (fit, room_for) (inl (ltb_ℤ→le budget (pos (bytes (e ∷ es) + n)) fit))
]

push_bounds :
    (limit : ℕ) (budget : ℤ) (e : Entry) (es : List Entry)
    → 0 < limit
    → length es ≤ limit
    → (length (push limit budget e es) ≤ limit)
      × ((pos (bytes (push limit budget e es)) ≤ℤ budget) ⊎ (push limit budget e es ≡ e ∷ []))
unfolding push
push_bounds limit budget e es p h =
    let fs = if length es == limit then tail es else es in
    let n = length e.content in
    let left = room_for budget n fs in
    (
      let few = less_lines limit es p h in
          let short = room_for-length-le budget n fs in omega (arith, length-append left (e ∷ [])),
      elim (room_for-within budget n fs) [
        | inl within ↦ inl (let sum = bytes-append left (e ∷ []) in omega arith)
        | inr none_left ↦ inr (ap (λ l. l ++ (e ∷ [])) none_left)
      ],
    )

-- A push leaves no more lines than the ring has room for, and no more bytes than the budget, unless
-- the new line alone is left; `ring_len` is their sum.
pub push_ring-bounds :
    (e : Entry) (r : Route)
    → Fits r
    → let s = push_ring e r in
      (s.count ≤ length r.ring)
      × (s.ring_len ≡ bytes (contents s))
      × ((pos s.ring_len ≤ℤ r.opts.ring_bytes) ⊎ (contents s ≡ e ∷ []))
push_ring-bounds e r v =
    let s = push_ring e r in
    let (view, fits, same, tally) = push_ring-refines e r v in
    let (few, small) =
      push_bounds (length r.ring) r.opts.ring_bytes e (contents r) (omega (arith, v.head_in))
        (omega (arith, v.count_in, length-entries r.ring r.head r.count)) in
    let sum = fits.counted ∙ ap bytes view in
    (
      omega (arith, fits.count_in),
      fits.counted,
      elim small [ inl within ↦ inl (rw sum within) | inr alone ↦ inr (view ∙ alone) ],
    )
