-- ===== src/Logbus/Routing.antt =====
-- internal/logbus/logbus.go: the operations on a route: captured lines are numbered and go to the
-- ring and to the subscribers; the backlog reads the ring.
pub mod Capture
use pm.Base.{
  ℕ, zero, suc, ◌+◌, ◌-◌, ◌%◌, Bool, true, false, not, ◌&&◌, ◌||◌, List, [], ◌∷◌, ◌++◌, length, ltb,
  ◌==◌, leb_ℤ, if◌then◌else◌, Text, codes, ℤ, pos, pos_part, ltb_ℤ, take, drop, replicate, get_or,
}
use pm.Logbus.{Stream, stdout, stderr, Entry, Sub, Route, blank, merged}
use pm.Logbus.Ring.{push_ring}
use pm.Logbus.Fanout.{Taken, fanout, refused}

-- A report to `OnDrop`.
pub data Note : Type 0 where
  evicted truncated subscriber skipped : Stream → ℕ → Note

-- A line that is longer than the limit is cut in the ring.
unfoldable pub clip : ℤ → Text → Text
clip limit line =
    if ltb_ℤ limit (pos (length line))
    then take (pos_part limit) line ++ codes "...[truncated]"
    else line

abbrev pub clipped : ℤ → Text → ℕ
clipped limit line = if ltb_ℤ limit (pos (length line)) then 1 else 0

-- The entry of a captured line.
abbrev pub entry_of : Route → Stream → ℕ → Text → Entry
entry_of r st at line = record {
  stream = st;
  at = at;
  content = clip r.opts.max_line_bytes line;
  seq = r.seq + 1;
  dropped = 0;
}

-- What the consumers of the subscribers receive during the delivery of an entry.
abbrev pub Traffic : Type 0
Traffic = Entry → Sub → Taken

abbrev pub room_of : Route → ℕ
room_of r = pos_part r.opts.sub_buffer

-- One round of the loop of `appendLines`.
unfoldable pub append_line : Stream → ℕ → Traffic → Route → Text → Route
unfolding clip
append_line st at traffic r line =
    let e = entry_of r st at line in
    let s = push_ring e (record r {
      truncated = r.truncated + clipped r.opts.max_line_bytes line;
      seq = r.seq + 1;
    }) in
    record s { subs = fanout (room_of r) at e (traffic e) s.subs }

-- The reports that the round makes.
unfoldable pub line_notes : Stream → ℕ → Traffic → Route → Text → List Note
unfolding clip
line_notes st at traffic r line =
    let e = entry_of r st at line in
    let n = refused (room_of r) at e (traffic e) r.subs in
    (if clipped r.opts.max_line_bytes line == 1 then truncated st 1 ∷ [] else [])
    ++ replicate n (subscriber st 1)

-- The loop of `appendLines`.
unfoldable pub append_each : Stream → ℕ → Traffic → List Text → Route → Route × List Note
append_each st at traffic [] r = (r, [])
append_each st at traffic (line ∷ lines) r =
    let notes = line_notes st at traffic r line in
    let (s, more) = append_each st at traffic lines (append_line st at traffic r line) in
    (s, notes ++ more)

-- The report of the evictions of a batch.
abbrev pub evictions : Stream → ℕ → List Note
evictions st n = if ltb 0 n then evicted st n ∷ [] else []

-- `appendLines`.
unfoldable pub append_lines : Stream → ℕ → Traffic → List Text → Route → Route × List Note
append_lines st at traffic lines r =
    if r.closed
    then (r, [])
    else (let (s, notes) = append_each st at traffic lines r in
        (s, notes ++ evictions st (s.evicted - r.evicted)))

abbrev wanted : Bool → Route → Entry → Bool
wanted include_stderr r e = elim e.stream [
  | stdout ↦ true
  | stderr ↦ include_stderr || merged r.opts
]

-- The loop of `Backlog` and of `BacklogAll`, over `n` entries from position `i` on.
unfoldable pub collect : Bool → Route → ℕ → ℕ → List Entry
unfolding merged
collect include_stderr r i zero = []
collect include_stderr r i (suc n) =
    let e = get_or r.ring (i % length r.ring) blank in
    let rest = collect include_stderr r (i + 1) n in
    if wanted include_stderr r e then e ∷ rest else rest

-- `BacklogAll`.
unfoldable pub backlog_all : Bool → Route → List Entry
unfolding collect
backlog_all include_stderr r = collect include_stderr r r.head r.count

-- The newest `n` entries.
abbrev pub last_of : ℕ → List Entry → List Entry
last_of n es = if ltb n (length es) then drop (length es - n) es else es

-- `Backlog`.
unfoldable pub backlog : ℤ → Bool → Route → List Entry
unfolding backlog_all
backlog n include_stderr r =
    if leb_ℤ n (pos 0) then [] else last_of (pos_part n) (backlog_all include_stderr r)

-- `Clear`.
unfoldable pub clear : Route → Route
clear r = record r {
  ring = replicate (pos_part r.opts.ring_lines) blank;
  head = 0;
  count = 0;
  ring_len = 0;
}

-- `Subscribe`: a closed route gives a closed channel, and registers nothing.
unfoldable pub subscribe : ℕ → Route → Route
subscribe id r = if r.closed then r else record r {
  subs =
      record { id = id; queue = []; sent = []; drops = 0; pending_out = 0; pending_err = 0 }
      ∷ r.subs;
}

abbrev without : ℕ → List Sub → List Sub
without id [] = []
without id (s ∷ subs) = if s.id == id then without id subs else s ∷ without id subs

-- `unsubscribe`.
unfoldable pub unsubscribe : ℕ → Route → Route
unsubscribe id r = record r { subs = without id r.subs }

-- `Close`.
unfoldable pub close : Route → Route
close r = if r.closed then r else record r { closed = true; subs = [] }

-- `Stats`.
pub record Stats : Type 0 where
  pub evicted : ℕ
  pub truncated : ℕ
  pub rotations : ℕ
  pub subs_active : ℕ

unfoldable pub stats : Route → Stats
stats r = record {
  evicted = r.evicted;
  truncated = r.truncated;
  rotations = r.rotations;
  subs_active = length r.subs;
}
