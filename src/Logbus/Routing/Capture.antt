-- ===== src/Logbus/Routing/Capture.antt =====
-- internal/logbus/logbus.go, `appendLines`: the proofs on a batch of captured lines.
use pm.Base.{
  ℕ, zero, suc, ◌+◌, ◌-◌, ◌≡◌, refl, ap, ◌∙◌, Bool, true, false, inl, inr, Bool-cases, List, [],
  ◌∷◌, ◌++◌, length, ◌==◌, if◌then◌else◌, Text, ℤ, pos_part, arith,
}
use pm.Logbus.{Stream, Entry, Options, Route}
use pm.Logbus.Ring.{evict, over_bytes, make_room, place, push_ring}
use pm.Logbus.Ring.Refine.{contents, push, Fits}
use pm.Logbus.Ring.Push.{push_ring-refines}
use pm.Logbus.Fanout.Accounts.{
  AllServed, AllAccount, fanout-AllServed, AllServed-AllAccount, AllServed-none, AllServed-trans,
}
use pm.Logbus.Routing.{
  clip, clipped, entry_of, Traffic, room_of, append_line, append_each, append_lines, Note,
  evictions,
}

-- What a push leaves as it was.
record Keeps (r s : Route) : Type 0 where
  opts : s.opts ≡ r.opts
  subs : s.subs ≡ r.subs
  seq : s.seq ≡ r.seq
  rotations : s.rotations ≡ r.rotations

make_room-Keeps : (fuel n : ℕ) (r : Route) → Keeps r (make_room fuel n r)
unfolding make_room evict
make_room-Keeps zero n r = record { opts = refl; subs = refl; seq = refl; rotations = refl }
make_room-Keeps (suc fuel) n r = elim (Bool-cases (over_bytes n r)) [
  | inl over ↦
      let rest = make_room-Keeps fuel n (evict r) in
      rw (over, make_room)
        (record { opts = rest.opts; subs = rest.subs; seq = rest.seq; rotations = rest.rotations })
  | inr fit ↦
      rw (fit, make_room) (record { opts = refl; subs = refl; seq = refl; rotations = refl })
]

push_ring-Keeps : (e : Entry) (r : Route) → Keeps r (push_ring e r)
unfolding push_ring evict place
push_ring-Keeps e r = elim (Bool-cases (r.count == length r.ring)) [
  | inl full ↦
      let k = make_room-Keeps (evict r).count (length e.content) (evict r) in
      rw (full, push_ring)
        (record { opts = k.opts; subs = k.subs; seq = k.seq; rotations = k.rotations })
  | inr room ↦
      let k = make_room-Keeps r.count (length e.content) r in
      rw (room, push_ring)
        (record { opts = k.opts; subs = k.subs; seq = k.seq; rotations = k.rotations })
]

-- The entries of a batch, numbered on from `seq`.
unfoldable pub captured : ℤ → Stream → ℕ → ℕ → List Text → List Entry
captured limit st at seq [] = []
captured limit st at seq (line ∷ lines) =
    record { stream = st; at = at; content = clip limit line; seq = seq + 1; dropped = 0 }
    ∷ captured limit st at (seq + 1) lines

-- The specification of a batch of pushes.
unfoldable pub push_all : ℕ → ℤ → List Entry → List Entry → List Entry
push_all limit budget [] es = es
push_all limit budget (e ∷ more) es = push_all limit budget more (push limit budget e es)

-- What a batch of `n` lines, whose entries are `new`, does to a route.
pub record Captures (n : ℕ) (new : List Entry) (r s : Route) : Type 0 where
  pub view : contents s ≡ push_all (length r.ring) r.opts.ring_bytes new (contents r)
  pub fits : Fits s
  pub same_opts : s.opts ≡ r.opts
  pub same_cap : length s.ring ≡ length r.ring
  pub numbered : s.seq ≡ r.seq + n
  pub tally : s.evicted + length (contents s) ≡ r.evicted + length (contents r) + n

append_line-Captures :
    (st : Stream) (at : ℕ) (traffic : Traffic) (line : Text) (r : Route)
    → Fits r
    → Captures 1 (entry_of r st at line ∷ []) r (append_line st at traffic r line)
unfolding append_line push_all
append_line-Captures st at traffic line r v =
    let e = entry_of r st at line in
    let r' = record r {
      truncated = r.truncated + clipped r.opts.max_line_bytes line;
      seq = r.seq + 1;
    } in
    let v' : Fits r' = record { head_in = v.head_in; count_in = v.count_in; counted = v.counted } in
    let (view, fits, same_cap, tally) = push_ring-refines e r' v' in
    let k = push_ring-Keeps e r' in
    record {
      view = view;
      fits = record { head_in = fits.head_in; count_in = fits.count_in; counted = fits.counted };
      same_opts = k.opts;
      same_cap = same_cap;
      numbered = k.seq;
      tally = tally;
    }

next-Captures :
    (n : ℕ) (e : Entry) (new : List Entry) (r s t : Route)
    → Captures 1 (e ∷ []) r s
    → Captures n new s t
    → Captures (suc n) (e ∷ new) r t
unfolding push_all
next-Captures n e new r s t a b = record {
  view =
      b.view
      ∙ ap (λ (k : ℕ). push_all k s.opts.ring_bytes new (contents s)) a.same_cap
      ∙ ap (λ (o : Options). push_all (length r.ring) o.ring_bytes new (contents s)) a.same_opts
      ∙ ap (push_all (length r.ring) r.opts.ring_bytes new) a.view;
  fits = b.fits;
  same_opts = b.same_opts ∙ a.same_opts;
  same_cap = b.same_cap ∙ a.same_cap;
  numbered = omega (arith, a.numbered, b.numbered);
  tally = omega (arith, a.tally, b.tally);
}

append_each-Captures :
    (st : Stream) (at : ℕ) (traffic : Traffic) (lines : List Text) (r : Route)
    → Fits r
    → Captures
        (length lines)
        (captured r.opts.max_line_bytes st at r.seq lines)
        r
        (append_each st at traffic lines r).0
unfolding append_each captured
append_each-Captures st at traffic [] r v = record {
  view = unfold push_all in refl;
  fits = v;
  same_opts = refl;
  same_cap = refl;
  numbered = omega arith;
  tally = omega arith;
}
append_each-Captures st at traffic (line ∷ lines) r v =
    let s = append_line st at traffic r line in
    let one = append_line-Captures st at traffic line r v in
    let same =
      ap (λ (o : Options). captured o.max_line_bytes st at s.seq lines) one.same_opts
      ∙ ap (λ k. captured r.opts.max_line_bytes st at k lines) one.numbered in
    next-Captures (length lines) (entry_of r st at line)
      (captured r.opts.max_line_bytes st at (r.seq + 1) lines) r s
      (append_each st at traffic lines s).0 one
      (rw same at (append_each-Captures st at traffic lines s one.fits))

not_taken : (b : Bool) (x y : Route × List Note) → b ≡ false → (if b then x else y) ≡ y
not_taken true x y h = cc
not_taken false x y h = refl

append_lines-open :
    (st : Stream) (at : ℕ) (traffic : Traffic) (lines : List Text) (r : Route)
    → r.closed ≡ false
    → (append_lines st at traffic lines r).0 ≡ (append_each st at traffic lines r).0
unfolding append_lines
append_lines-open st at traffic lines r open_yet =
    let (s, notes) = append_each st at traffic lines r in
    ap (λ (p : Route × List Note). p.0)
      (not_taken r.closed (r, []) (s, notes ++ evictions st (s.evicted - r.evicted)) open_yet)

-- A batch of lines that an open route captures goes to the ring as the specification pushes it, its
-- entries numbered without a gap; each line that leaves the ring is counted.
pub append_lines-Captures :
    (st : Stream) (at : ℕ) (traffic : Traffic) (lines : List Text) (r : Route)
    → Fits r
    → r.closed ≡ false
    → Captures
        (length lines)
        (captured r.opts.max_line_bytes st at r.seq lines)
        r
        (append_lines st at traffic lines r).0
append_lines-Captures st at traffic lines r v open_yet =
    rw (append_lines-open st at traffic lines r open_yet)
      (append_each-Captures st at traffic lines r v)

append_line-AllServed :
    (st : Stream) (at : ℕ) (traffic : Traffic) (line : Text) (r : Route)
    → AllAccount (room_of r) r.subs
    → AllServed (room_of r) 1 r.subs (append_line st at traffic r line).subs
unfolding append_line
append_line-AllServed st at traffic line r v =
    let e = entry_of r st at line in
    let r' = record r {
      truncated = r.truncated + clipped r.opts.max_line_bytes line;
      seq = r.seq + 1;
    } in
    rw (push_ring-Keeps e r').subs (fanout-AllServed (room_of r) at e (traffic e) r.subs refl v)

append_line-room :
    (st : Stream) (at : ℕ) (traffic : Traffic) (line : Text) (r : Route)
    → room_of (append_line st at traffic r line) ≡ room_of r
unfolding append_line
append_line-room st at traffic line r =
    let e = entry_of r st at line in
    let r' = record r {
      truncated = r.truncated + clipped r.opts.max_line_bytes line;
      seq = r.seq + 1;
    } in
    ap (λ (o : Options). pos_part o.sub_buffer) (push_ring-Keeps e r').opts

append_each-AllServed :
    (st : Stream) (at : ℕ) (traffic : Traffic) (lines : List Text) (r : Route)
    → AllAccount (room_of r) r.subs
    → AllServed (room_of r) (length lines) r.subs (append_each st at traffic lines r).0.subs
unfolding append_each
append_each-AllServed st at traffic [] r v = AllServed-none (room_of r) r.subs v
append_each-AllServed st at traffic (line ∷ lines) r v =
    let s = append_line st at traffic r line in
    let one = append_line-AllServed st at traffic line r v in
    let same = append_line-room st at traffic line r in
    let rest =
      append_each-AllServed st at traffic lines s
        (rw same (AllServed-AllAccount (room_of r) 1 r.subs s.subs one)) in
    let both =
      AllServed-trans (room_of r) 1 (length lines) r.subs s.subs
        (append_each st at traffic lines s).0.subs one (rw same at rest) in
    rw (let k : suc (length lines) ≡ 1 + length lines = omega arith in k) both

-- No line of a batch is lost in silence: for each subscriber of an open route it is sent or dropped,
-- and each line that was ever dropped is pending or announced by a marker that was sent. No channel
-- holds more than its room.
pub append_lines-AllServed :
    (st : Stream) (at : ℕ) (traffic : Traffic) (lines : List Text) (r : Route)
    → AllAccount (room_of r) r.subs
    → r.closed ≡ false
    → AllServed (room_of r) (length lines) r.subs (append_lines st at traffic lines r).0.subs
append_lines-AllServed st at traffic lines r v open_yet =
    rw (append_lines-open st at traffic lines r open_yet)
      (append_each-AllServed st at traffic lines r v)

-- What a batch leaves as it was.
pub record Settled (r s : Route) : Type 0 where
  pub opts : s.opts ≡ r.opts
  pub rotations : s.rotations ≡ r.rotations

append_each-Settled :
    (st : Stream) (at : ℕ) (traffic : Traffic) (lines : List Text) (r : Route)
    → Settled r (append_each st at traffic lines r).0
unfolding append_each append_line
append_each-Settled st at traffic [] r = record { opts = refl; rotations = refl }
append_each-Settled st at traffic (line ∷ lines) r =
    let e = entry_of r st at line in
    let r' = record r {
      truncated = r.truncated + clipped r.opts.max_line_bytes line;
      seq = r.seq + 1;
    } in
    let k = push_ring-Keeps e r' in
    let rest = append_each-Settled st at traffic lines (append_line st at traffic r line) in
    record { opts = rest.opts ∙ k.opts; rotations = rest.rotations ∙ k.rotations }

either-Settled :
    (b : Bool) (r : Route) (x y : Route × List Note)
    → Settled r x.0
    → Settled r y.0
    → Settled r (if b then x else y).0
either-Settled true r x y h k = h
either-Settled false r x y h k = k

pub append_lines-Settled :
    (st : Stream) (at : ℕ) (traffic : Traffic) (lines : List Text) (r : Route)
    → Settled r (append_lines st at traffic lines r).0
unfolding append_lines
append_lines-Settled st at traffic lines r =
    let (s, notes) = append_each st at traffic lines r in
    either-Settled r.closed r (r, []) (s, notes ++ evictions st (s.evicted - r.evicted))
      (record { opts = refl; rotations = refl }) (append_each-Settled st at traffic lines r)
