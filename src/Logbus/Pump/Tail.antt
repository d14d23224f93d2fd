-- ===== src/Logbus/Pump/Tail.antt =====
-- internal/logbus/logbus.go, `pump`: the proofs that a tail loses no line, and on its interval.
use pm.Base.{
  ℕ, ◌+◌, ◌-◌, ◌≤◌, ◌≡◌, ◌≢◌, refl, ap, ◌∙◌, Bool, true, false, Option, some, List, [], ◌∷◌, length,
  ltb, ◌==◌, if◌then◌else◌, is_empty, Text, ℤ, pos, ◌≤ℤ◌, ltb_ℤ, arith,
}
use pm.Logbus.{Stream, Route, max_batch_bytes, max_idle_poll}
use pm.Logbus.Routing.{Traffic, Note, append_lines}
use pm.Logbus.Routing.Capture.{append_lines-Settled}
use pm.Logbus.Lines.{read_new_into_prefix}
use pm.Logbus.Lines.Conserved.{IsOneLine, remaining, carried, Delivers, read-Delivers}
use pm.Logbus.Pump.{
  Pump, Archive, Look, backoff, snap_back, rotated, capture, read_batch, read_live, is_due,
  read_sink, pump_tick,
}

-- The interval lies between the base and a second, where the base does.
pub backoff-interval :
    (base : ℕ) (p : Pump)
    → base ≤ p.interval
    → p.interval ≤ max_idle_poll
    → (p.interval ≤ (backoff p).interval)
      × ((backoff p).interval ≤ max_idle_poll)
      × (base ≤ (backoff p).interval)
unfolding backoff
backoff-interval base p low high = ground arith

-- The route, but for the counters of truncations and rotations.
pub record Same (r s : Route) : Type 0 where
  pub ring : s.ring ≡ r.ring
  pub head : s.head ≡ r.head
  pub count : s.count ≡ r.count
  pub seq : s.seq ≡ r.seq
  pub evicted : s.evicted ≡ r.evicted
  pub subs : s.subs ≡ r.subs

-- What a tick does with the bytes that remained: lines go to the route, the rest remains.
pub record Tails (st : Stream) (traffic : Traffic) (now : ℕ) (before : Text) (r : Route)
    (lines : List Text) (after : Text) (s : Route) : Type 0 where
  pub delivers : Delivers lines before after
  pub to_route : Same (append_lines st now traffic lines r).0 s

same_carried :
    (lines : List Text) (prefix : Text)
    → (if is_empty lines then prefix else []) ≡ carried lines prefix
same_carried [] prefix = refl
same_carried (l ∷ ls) prefix = refl

-- The bytes that a tick reads: they fit a batch, and there are new ones.
pub record IsFresh (p : Pump) (file : Text) (size : ℕ) : Type 0 where
  pub one_line : IsOneLine p.carry
  pub behind : p.offset ≤ size
  pub grown : size ≤ length file
  pub fits : length p.carry + (length file - p.offset) ≤ max_batch_bytes
  pub is_new : p.offset ≢ length file

le→not_ltb : (m n : ℕ) → n ≤ m → ltb m n ≡ false
le→not_ltb m n h = ground arith

not_same : (m n : ℕ) → m ≢ n → (m == n) ≡ false
not_same m n h = ground arith

le→not_ltb_ℤ : (a b : ℤ) → a ≤ℤ b → ltb_ℤ b a ≡ false
le→not_ltb_ℤ a b h = ground arith

in_batch : (n : ℕ) → n ≤ max_batch_bytes → ltb max_batch_bytes n ≡ false
in_batch n h = ground arith

module _ (st : Stream) (traffic : Traffic) (now base : ℕ) (file : Text) (p : Pump) (r : Route) where
  abbrev pub read_lines : List Text
  read_lines = (read_new_into_prefix file p.offset p.carry).lines

  abbrev pub read_partial : Text
  read_partial = (read_new_into_prefix file p.offset p.carry).partial

  capture-live-Tails :
      (size : ℕ)
      → IsFresh p file size
      → let (s, q, notes) = capture st traffic now false file (snap_back base p) r [] in
        Tails st traffic now
          (remaining p.carry p.offset file)
          r
          read_lines
          (remaining q.carry q.offset file)
          s
  unfolding capture snap_back
  capture-live-Tails size v =
      let (d, same) =
        read-Delivers file p.carry p.offset v.one_line (omega (arith, v.behind, v.grown)) v.fits
          v.is_new in
      rw (same_carried read_lines p.carry) (record {
        delivers = d;
        to_route = record {
          ring = refl;
          head = refl;
          count = refl;
          seq = refl;
          evicted = refl;
          subs = refl;
        };
      })

  read_batch-fits :
      (archived : Bool) (size : ℕ)
      → IsFresh p file size
      → read_batch st traffic base now archived (some file) p r size
        ≡ capture st traffic now archived file (snap_back base p) r []
  unfolding read_batch
  read_batch-fits archived size v =
      let within : ltb max_batch_bytes (size - p.offset + length p.carry) ≡ false =
        in_batch (size - p.offset + length p.carry) (omega (arith, v.grown, v.fits)) in
      rw within refl

  -- A tick that finds new bytes, and no rotation due, hands the complete lines to the route, in their
  -- order; the prefix that it carries and the file from its new offset on are what has not been
  -- delivered.
  pub pump_tick-Tails :
      (size : ℕ) (archive : Option Archive)
      → IsFresh p file size
      → size ≢ p.offset
      → is_due r size ≡ false
      → let look : Look = record {
        now = now;
        size = some size;
        archive = archive;
        file = some file;
      } in
        let (s, q, notes) = pump_tick st traffic base look p r in
        Tails st traffic now
          (remaining p.carry p.offset file)
          r
          read_lines
          (remaining q.carry q.offset file)
          s
  unfolding pump_tick read_sink read_live
  pump_tick-Tails size archive v moved not_due =
      let kept : ltb size p.offset ≡ false = le→not_ltb size p.offset v.behind in
      rw kept (
        rw not_due (
          rw (not_same size p.offset moved)
            (rw (read_batch-fits false size v) (capture-live-Tails size v))))

  rotated-short :
      (s : Route) (q : Pump) (notes : List Note)
      → pos (length read_partial) ≤ℤ s.opts.max_line_bytes
      → let (t, q', notes') = rotated st read_partial (s, q, notes) in
        Same s t × (q'.carry ≡ read_partial) × (q'.offset ≡ 0) × (t.rotations ≡ s.rotations + 1)
  unfolding rotated
  rotated-short s q notes short =
      let fits = le→not_ltb_ℤ (pos (length read_partial)) s.opts.max_line_bytes short in
      (
        record { ring = refl; head = refl; count = refl; seq = refl; evicted = refl; subs = refl },
        rw fits refl,
        refl,
        refl,
      )

  capture-archive-Tails :
      (size : ℕ)
      → IsFresh p file size
      → pos (length read_partial) ≤ℤ r.opts.max_line_bytes
      → let (s, q, notes) = capture st traffic now true file (snap_back base p) r [] in
        Tails st traffic now (remaining p.carry p.offset file) r read_lines q.carry s
        × (q.offset ≡ 0)
        × (s.rotations ≡ r.rotations + 1)
  unfolding capture snap_back
  capture-archive-Tails size v short =
      let step = append_lines st now traffic read_lines r in
      let k = append_lines-Settled st now traffic read_lines r in
      let (d, same) =
        read-Delivers file p.carry p.offset v.one_line (omega (arith, v.behind, v.grown)) v.fits
          v.is_new in
      let next : Pump = record (snap_back base p) {
        offset = (read_new_into_prefix file p.offset p.carry).offset;
        carry = if is_empty read_lines then p.carry else [];
      } in
      let o = k.opts in
      let (t, carry, offset, turns) = rotated-short step.0 next step.1 (rw o short) in
      (
        record { delivers = rw carry (rw same at d); to_route = t },
        offset,
        turns ∙ ap (λ n. n + 1) k.rotations,
      )

  -- A tick that rotates delivers the copy that it is given, where that can be measured and read and what
  -- is unread of it fits into one batch: its complete lines go to the route, its partial line, where it
  -- is no longer than a line may be, is carried over, and the live file is read from its start.
  pub pump_tick-rotation-Tails :
      (size n : ℕ) (live : Option Text)
      → IsFresh p file n
      → p.offset ≤ size
      → is_due r size ≡ true
      → pos (length read_partial) ≤ℤ r.opts.max_line_bytes
      → let archive : Option Archive = some (record { size = some n; file = some file }) in
        let look : Look = record { now = now; size = some size; archive = archive; file = live } in
        let (s, q, notes) = pump_tick st traffic base look p r in
        Tails st traffic now (remaining p.carry p.offset file) r read_lines q.carry s
        × (q.offset ≡ 0)
        × (s.rotations ≡ r.rotations + 1)
  unfolding pump_tick read_sink
  pump_tick-rotation-Tails size n live v behind due short =
      let kept : ltb size p.offset ≡ false = le→not_ltb size p.offset behind in
      rw kept (rw due (rw (read_batch-fits true n v) (capture-archive-Tails n v short)))
