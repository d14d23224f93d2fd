-- ===== src/Logbus/Ring.antt =====
-- internal/logbus/logbus.go, `pushRing`: the ring under its bounds of lines and of bytes.
pub mod Refine
pub mod Push
pub mod Bounds
use pm.Base.{
  ℕ, zero, suc, ◌+◌, ◌-◌, ◌%◌, Bool, true, false, ◌&&◌, List, length, ltb, ◌==◌, if◌then◌else◌, ℤ,
  pos, ltb_ℤ, get_or, set,
}
use pm.Logbus.{Entry, Route, blank}

-- The oldest line leaves the ring, and is counted.
unfoldable pub evict : Route → Route
evict r =
    let old = get_or r.ring r.head blank in
    record r {
      ring_len = r.ring_len - length old.content;
      head = (r.head + 1) % length r.ring;
      count = r.count - 1;
      evicted = r.evicted + 1;
    }

-- Whether the ring holds lines and a line of `n` bytes would exceed the byte budget.
abbrev pub over_bytes : ℕ → Route → Bool
over_bytes n r = ltb 0 r.count && ltb_ℤ r.opts.ring_bytes (pos (r.ring_len + n))

-- The loop over the byte budget; the lines in the ring are fuel enough.
unfoldable pub make_room : ℕ → ℕ → Route → Route
unfolding evict
make_room zero n r = r
make_room (suc fuel) n r =
    let rest = make_room fuel n (evict r) in if over_bytes n r then rest else r

-- The write behind the newest line.
unfoldable pub place : Entry → Route → Route
place e r = record r {
  ring = set r.ring ((r.head + r.count) % length r.ring) e;
  ring_len = r.ring_len + length e.content;
  count = r.count + 1;
}

-- `pushRing`; what it evicted is the growth of `evicted`.
unfoldable pub push_ring : Entry → Route → Route
unfolding evict make_room place
push_ring e r =
    let s = if r.count == length r.ring then evict r else r in
    place e (make_room s.count (length e.content) s)
