-- ===== src/Tests/LogbusTests.antt =====
-- The theorems on the log bus, at concrete inputs.
use pm.Base.{
  ℕ, ◌+◌, ◌≤◌, ◌≡◌, refl, false, Option, none, some, [], ◌∷◌, length, Text, codes, pos, arith,
}
use pm.Logbus.{Stream, stdout, Entry, Options, Sub, Route, blank}
use pm.Logbus.Ring.{push_ring}
use pm.Logbus.Ring.Refine.{Fits, contents, push, room_for}
use pm.Logbus.Ring.Push.{push_ring-refines}
use pm.Logbus.Fanout.{offer, pending}
use pm.Logbus.Fanout.Accounts.{Accounts, AllServed, offer-unannounced}
use pm.Logbus.Routing.{Traffic, append_lines}
use pm.Logbus.Routing.Capture.{append_lines-AllServed}
use pm.Logbus.Lines.{split_complete_consumed}
use pm.Logbus.Lines.Conserved.{remaining}
use pm.Logbus.Pump.{Pump, Archive, Look, pump_tick}
use pm.Logbus.Pump.Tail.{IsFresh, Tails, read_lines, pump_tick-Tails, pump_tick-rotation-Tails}

abbrev opts : Options
opts = record {
  out_path = codes "out";
  err_path = codes "err";
  ring_lines = pos 2;
  ring_bytes = pos 8;
  max_line_bytes = pos 6;
  sub_buffer = pos 1;
  rotate_max_bytes = pos 5;
  rotate_retain = pos 30;
  poll_interval = pos 100;
}

abbrev line_of : ℕ → Text → Entry
line_of n s = record { stream = stdout; at = 0; content = s; seq = n; dropped = 0 }

-- A slow subscriber: its channel is full.
abbrev slow : Sub
slow = record {
  id = 0;
  queue = line_of 1 (codes "a") ∷ [];
  sent = line_of 1 (codes "a") ∷ [];
  drops = 1;
  pending_out = 1;
  pending_err = 0;
}

-- A full ring, whose oldest line stands at its end.
abbrev route : Route
route = record {
  opts = opts;
  ring = line_of 2 (codes "bb") ∷ line_of 1 (codes "a") ∷ [];
  head = 1;
  count = 2;
  ring_len = 3;
  seq = 2;
  evicted = 0;
  truncated = 0;
  rotations = 0;
  subs = slow ∷ [];
  closed = false;
}

route-Fits : Fits route
route-Fits = record { head_in = omega arith; count_in = omega arith; counted = refl }

push_ring-refines_example :
    let s = push_ring (line_of 3 (codes "ccc")) route in
    (contents s ≡ push 2 (pos 8) (line_of 3 (codes "ccc")) (contents route))
    × Fits s
    × (length s.ring ≡ 2)
    × (s.evicted + length (contents s) ≡ 0 + 2 + 1)
push_ring-refines_example = push_ring-refines (line_of 3 (codes "ccc")) route route-Fits

pushed :
    push 2 (pos 8) (line_of 3 (codes "ccc")) (contents route)
    ≡ line_of 2 (codes "bb") ∷ line_of 3 (codes "ccc") ∷ []
unfolding push room_for
pushed = refl

abbrev none_taken : Traffic
none_taken e s = (0, 0)

slow-Accounts : Accounts 1 slow
slow-Accounts = record { announces = refl; bounded = omega arith }

append_lines-AllServed_example :
    AllServed 1 2
      (slow ∷ [])
      (append_lines stdout 5 none_taken (codes "c" ∷ codes "d" ∷ []) route).0.subs
append_lines-AllServed_example =
    append_lines-AllServed stdout 5 none_taken (codes "c" ∷ codes "d" ∷ []) route
      (slow-Accounts, tt) refl

offer-unannounced_example :
    let t = offer 1 5 (line_of 3 (codes "c")) (0, 1) slow in
    (t.sent ≡ line_of 1 (codes "a") ∷ line_of 3 (codes "c") ∷ []) × (pending stdout t ≡ 1)
offer-unannounced_example =
    offer-unannounced 1 5 (line_of 3 (codes "c")) 1 slow refl (omega arith) (omega arith)
      (omega arith)

abbrev two_lines : Text
two_lines = 97 ∷ 10 ∷ 98 ∷ 10 ∷ 99 ∷ []

-- A tail that has read the first line.
abbrev tail_at_2 : Pump
tail_at_2 = record { offset = 2; carry = []; interval = 100; idle_ticks = 3 }

tail-IsFresh : (size : ℕ) → 2 ≤ size → size ≤ 5 → IsFresh tail_at_2 two_lines size
tail-IsFresh size low high = record {
  one_line = tt;
  behind = low;
  grown = high;
  fits = omega arith;
  is_new = omega arith;
}

abbrev grown : Look
grown = record { now = 5; size = some 4; archive = none; file = some two_lines }

pump_tick-Tails_example :
    let calm : Route = record route { opts = record opts { rotate_max_bytes = pos 0 } } in
    let (s, q, notes) = pump_tick stdout none_taken 100 grown tail_at_2 calm in
    Tails stdout none_taken 5
      (remaining [] 2 two_lines)
      calm
      (read_lines stdout none_taken 5 100 two_lines tail_at_2 calm)
      (remaining q.carry q.offset two_lines)
      s
pump_tick-Tails_example =
    let calm : Route = record route { opts = record opts { rotate_max_bytes = pos 0 } } in
    pump_tick-Tails stdout none_taken 5 100 two_lines tail_at_2 calm 4 none
      (tail-IsFresh 4 (omega arith) (omega arith)) (omega arith) refl

abbrev copied : Option Archive
copied = some (record { size = some 5; file = some two_lines })

abbrev full : Look
full = record { now = 5; size = some 5; archive = copied; file = some [] }

pump_tick-rotation-Tails_example :
    let (s, q, notes) = pump_tick stdout none_taken 100 full tail_at_2 route in
    Tails stdout none_taken 5
      (remaining [] 2 two_lines)
      route
      (read_lines stdout none_taken 5 100 two_lines tail_at_2 route)
      q.carry
      s
    × (q.offset ≡ 0)
    × (s.rotations ≡ 0 + 1)
pump_tick-rotation-Tails_example =
    pump_tick-rotation-Tails stdout none_taken 5 100 two_lines tail_at_2 route 5 5 (some [])
      (tail-IsFresh 5 (omega arith) (omega arith)) (omega arith) refl
      (unfold pm.Logbus.Lines.read_new_into_prefix in omega arith)
