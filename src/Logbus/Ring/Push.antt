-- ===== src/Logbus/Ring/Push.antt =====
-- internal/logbus/logbus.go, `pushRing`: the proofs on the ring's contents and bounds.
use pm.Base.{
  ℕ, zero, suc, ◌+◌, ◌%◌, ◌≤◌, ◌<◌, ◌≡◌, refl, sym, ap, ◌∙◌, inl, inr, Bool, true, false,
  Bool-cases, ◌&&◌, List, [], ◌∷◌, ◌++◌, length, length-append, ltb, ltb→lt, not_ltb→le, ◌==◌,
  ==_iff, if◌then◌else◌, ℤ, pos, ltb_ℤ, set, length-set, arith,
}
use pm.Logbus.{Entry, Route, Options}
use pm.Logbus.Ring.{evict, over_bytes, make_room, place, push_ring}
use pm.Logbus.Ring.Refine.{
  entries, contents, bytes, tail, room_for, push, Fits, oldest, contents-evict, evict-Fits,
  entries-written, entries-none, length-entries, written,
}

-- A state from which some of the oldest lines of `r` have gone, each of them counted.
record Trimmed (r s : Route) (es : List Entry) : Type 0 where
  fits : Fits s
  view : contents s ≡ es
  same_ring : s.ring ≡ r.ring
  same_opts : s.opts ≡ r.opts
  tally : s.evicted + length es ≡ r.evicted + length (contents r)

count-contents : (r : Route) → length (contents r) ≡ r.count
count-contents r = length-entries r.ring r.head r.count

whole-Trimmed : (r : Route) → Fits r → Trimmed r r (contents r)
whole-Trimmed r v = record {
  fits = v;
  view = refl;
  same_ring = refl;
  same_opts = refl;
  tally = refl;
}

evict-Trimmed : (r : Route) → Fits r → 0 < r.count → Trimmed r (evict r) (tail (contents r))
unfolding evict
evict-Trimmed r v p =
    let split = contents-evict r v p in
    record {
      fits = evict-Fits r v p;
      view = ap tail (sym split);
      same_ring = refl;
      same_opts = refl;
      tally = rw split (omega arith);
    }

after-Trimmed :
    (r s t : Route) (es fs : List Entry) → Trimmed r s es → Trimmed s t fs → Trimmed r t fs
after-Trimmed r s t es fs a b = record {
  fits = b.fits;
  view = b.view;
  same_ring = b.same_ring ∙ a.same_ring;
  same_opts = b.same_opts ∙ a.same_opts;
  tally = omega (arith, a.tally, b.tally, ap length a.view);
}

room_for-fit :
    (budget : ℤ) (n : ℕ) (es : List Entry)
    → ltb_ℤ budget (pos (bytes es + n)) ≡ false
    → room_for budget n es ≡ es
unfolding room_for
room_for-fit budget n [] h = refl
room_for-fit budget n (e ∷ es) h = rw (h, room_for) refl

room_for-over :
    (budget : ℤ) (n : ℕ) (e : Entry) (es : List Entry)
    → ltb_ℤ budget (pos (bytes (e ∷ es) + n)) ≡ true
    → room_for budget n (e ∷ es) ≡ room_for budget n es
unfolding room_for
room_for-over budget n e es h = rw (h, room_for) refl

and_true : (a b : Bool) → (a && b) ≡ true → (a ≡ true) × (b ≡ true)
and_true true b h = (refl, h)
and_true false b h = cc

-- The test of the loop is that of the specification.
same_test :
    (n : ℕ) (r : Route)
    → Fits r
    → ltb_ℤ r.opts.ring_bytes (pos (bytes (contents r) + n))
      ≡ ltb_ℤ r.opts.ring_bytes (pos (r.ring_len + n))
same_test n r v = ap (λ k. ltb_ℤ r.opts.ring_bytes (pos (k + n))) (sym v.counted)

room_for-contents :
    (n : ℕ) (r : Route)
    → Fits r
    → over_bytes n r ≡ false
    → room_for r.opts.ring_bytes n (contents r) ≡ contents r
unfolding room_for
room_for-contents n r v h = elim (Bool-cases (ltb 0 r.count)) [
  | inl some_lines ↦
      room_for-fit r.opts.ring_bytes n (contents r) (same_test n r v ∙ rw some_lines at h)
  | inr no_lines ↦
      let gone =
        entries-none r.ring r.head r.count
          (let le = not_ltb→le 0 r.count no_lines in omega arith) in
      ap (room_for r.opts.ring_bytes n) gone ∙ sym gone
]

make_room-Trimmed :
    (fuel n : ℕ) (r : Route)
    → Fits r
    → r.count ≤ fuel
    → Trimmed r (make_room fuel n r) (room_for r.opts.ring_bytes n (contents r))
unfolding make_room evict
make_room-Trimmed zero n r v h =
    rw (room_for-contents n r v (let e : ltb 0 r.count ≡ false = ground arith in rw e refl))
      (whole-Trimmed r v)
make_room-Trimmed (suc fuel) n r v h = elim (Bool-cases (over_bytes n r)) [
  | inl over ↦
      let (lines, bytes_over) = and_true _ _ over in
      let p = ltb→lt 0 r.count lines in
      let split = contents-evict r v p in
      let less =
        ap (room_for r.opts.ring_bytes n) split
        ∙ room_for-over r.opts.ring_bytes n (oldest r) (contents (evict r)) (
            ap (λ l. ltb_ℤ r.opts.ring_bytes (pos (bytes l + n))) (sym split)
            ∙ same_test n r v
            ∙ bytes_over) in
      rw (over, make_room)
        (rw less (
          after-Trimmed r (evict r) (make_room fuel n (evict r)) (tail (contents r))
            (room_for r.opts.ring_bytes n (contents (evict r))) (evict-Trimmed r v p)
            (make_room-Trimmed fuel n (evict r) (evict-Fits r v p) (omega arith))))
  | inr fit ↦ rw (fit, make_room) (rw (room_for-contents n r v fit) (whole-Trimmed r v))
]

pub room_for-length-le :
    (budget : ℤ) (n : ℕ) (es : List Entry) → length (room_for budget n es) ≤ length es
unfolding room_for
room_for-length-le budget n [] = omega arith
room_for-length-le budget n (e ∷ es) = ground (arith, room_for-length-le budget n es)

abbrev one_less : Route → Route
one_less r = if r.count == length r.ring then evict r else r

abbrev one_fewer : Route → List Entry
one_fewer r = if length (contents r) == length r.ring then tail (contents r) else contents r

one_less-Trimmed : (r : Route) → Fits r → Trimmed r (one_less r) (one_fewer r)
one_less-Trimmed r v = elim (Bool-cases (r.count == length r.ring)) [
  | inl full ↦ rw (count-contents r) (
      rw full (
        evict-Trimmed r v
          (let same = (==_iff r.count (length r.ring)).0 full in omega (arith, v.head_in))))
  | inr room ↦ rw (count-contents r) (rw room (whole-Trimmed r v))
]

pub room_clash : (m n : ℕ) → m ≡ n → (m == n) ≡ false → ⊥
room_clash m n e h = ground arith

pub lt_of_differ : (m n : ℕ) → m ≤ n → (m ≡ n → ⊥) → m < n
lt_of_differ m n h d = ground arith

pub tail-lt : (es : List Entry) → 0 < length es → length (tail es) < length es
tail-lt [] h = h
tail-lt (e ∷ es) h = omega arith

pub bytes-append : (es fs : List Entry) → bytes (es ++ fs) ≡ bytes es + bytes fs
bytes-append [] fs = omega arith
bytes-append (e ∷ es) fs = omega (arith, bytes-append es fs)

one_fewer-lt : (r : Route) → Fits r → length (one_fewer r) < length r.ring
one_fewer-lt r v = elim (Bool-cases (length (contents r) == length r.ring)) [
  | inl full ↦
      let same = (==_iff (length (contents r)) (length r.ring)).0 full in
      rw full (let less = tail-lt (contents r) (omega (arith, v.head_in)) in omega arith)
  | inr room ↦
      let counted = count-contents r in
      let differ = λ (e : length (contents r) ≡ length r.ring).
        room_clash (length (contents r)) (length r.ring) e room in
      rw room
        (lt_of_differ (length (contents r)) (length r.ring) (omega (arith, v.count_in)) differ)
]

place-contents :
    (e : Entry) (r : Route)
    → Fits r
    → r.count < length r.ring
    → contents (place e r) ≡ contents r ++ (e ∷ [])
unfolding place
place-contents e r v h =
    ap (entries (set r.ring ((r.head + r.count) % length r.ring) e) r.head)
      (let q : r.count + 1 ≡ suc r.count = omega arith in q)
    ∙ unfold written in
      entries-written r.ring e (r.head + r.count) (omega (arith, v.head_in)) r.head r.count refl h

place-Fits : (e : Entry) (r : Route) → Fits r → r.count < length r.ring → Fits (place e r)
unfolding place
place-Fits e r v h = record {
  head_in = rw (length-set r.ring ((r.head + r.count) % length r.ring) e) v.head_in;
  count_in = rw (length-set r.ring ((r.head + r.count) % length r.ring) e) (omega arith);
  counted =
      omega
        (arith, v.counted, ap bytes (place-contents e r v h), bytes-append (contents r) (e ∷ []));
}

-- The write behind what is left.
placed :
    (e : Entry) (r t : Route) (es : List Entry)
    → Trimmed r t es
    → length es < length r.ring
    → (contents (place e t) ≡ es ++ (e ∷ []))
      × Fits (place e t)
      × (length (place e t).ring ≡ length r.ring)
      × ((place e t).evicted + length (contents (place e t)) ≡ r.evicted + length (contents r) + 1)
unfolding place
placed e r t es m h =
    let room : t.count < length t.ring =
      omega (arith, count-contents t, ap length m.view, ap length m.same_ring) in
    let now = place-contents e t m.fits room ∙ ap (λ l. l ++ (e ∷ [])) m.view in
    (
      now,
      place-Fits e t m.fits room,
      length-set t.ring ((t.head + t.count) % length t.ring) e ∙ ap length m.same_ring,
      omega (arith, ap length now, length-append es (e ∷ []), m.tally),
    )

-- A push does to the lines of the ring what its specification says: the oldest go while there are
-- too many, or too many bytes, and the new line comes last. It keeps the positions in the array and
-- the byte count true, and counts each line that goes.
pub push_ring-refines :
    (e : Entry) (r : Route)
    → Fits r
    → let s = push_ring e r in
      (contents s ≡ push (length r.ring) r.opts.ring_bytes e (contents r))
      × Fits s
      × (length s.ring ≡ length r.ring)
      × (s.evicted + length (contents s) ≡ r.evicted + length (contents r) + 1)
unfolding push_ring push
push_ring-refines e r v =
    let s = one_less r in
    let n = length e.content in
    let t = make_room s.count n s in
    let one = one_less-Trimmed r v in
    let more = make_room-Trimmed s.count n s one.fits (omega arith) in
    let same =
      ap (λ (o : Options). room_for o.ring_bytes n (contents s)) one.same_opts
      ∙ ap (room_for r.opts.ring_bytes n) one.view in
    let all =
      after-Trimmed r s t (one_fewer r) (room_for s.opts.ring_bytes n (contents s)) one more in
    placed e r t (room_for r.opts.ring_bytes n (one_fewer r)) (rw same at all) (
      let short = room_for-length-le r.opts.ring_bytes n (one_fewer r) in
      omega (arith, one_fewer-lt r v))
