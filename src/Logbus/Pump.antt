-- ===== src/Logbus/Pump.antt =====
-- internal/logbus/logbus.go, `pump`: one tick of the loop that tails a sink, with the rotation, and
-- the polling interval. What the file system answers during a tick is a `Look`.
pub mod Tail
use pm.Base.{
  ℕ, suc, ◌+◌, ◌-◌, ◌*◌, ◌/◌, ◌^◌, Bool, true, false, ◌&&◌, ◌||◌, not, Option, none, some, List, [],
  ◌∷◌, ◌++◌, length, ltb, leb, ◌==◌, if◌then◌else◌, Text, is_empty, take, ℤ, pos, pos_part, ltb_ℤ,
  leb_ℤ,
}
use pm.Logbus.{Stream, Route, max_batch_bytes, max_idle_poll, fast_poll_window}
use pm.Logbus.Routing.{Traffic, Note, skipped, truncated, append_lines, clear}
use pm.Logbus.Lines.{read_new_into_prefix}

-- The variables of the loop. The read buffer, which is reused, is left out.
pub record Pump : Type 0 where
  pub offset : ℕ
  pub carry : Text
  pub interval : ℕ
  pub idle_ticks : ℕ

-- The copy that a rotation has made: its size by `os.Stat`, and what is read from it. Each may fail.
pub record Archive : Type 0 where
  pub size : Option ℕ
  pub file : Option Text

-- The size by `os.Stat`, what a rotation that is due makes (`rotateIfDue`; none where it fails), and
-- what is read from the live file.
pub record Look : Type 0 where
  pub now : ℕ
  pub size : Option ℕ
  pub archive : Option Archive
  pub file : Option Text

-- `backoff`: the interval doubles up to a second, once a whole window was silent.
unfoldable pub backoff : Pump → Pump
backoff p =
    let ticks = suc p.idle_ticks in
    let next = p.interval * 2 in
    if leb max_idle_poll p.interval
    then record p { idle_ticks = ticks }
    else if ltb max_idle_poll next
    then record p { idle_ticks = ticks; interval = max_idle_poll }
    else if leb fast_poll_window (ticks * p.interval)
    then record p { idle_ticks = ticks; interval = next }
    else record p { idle_ticks = ticks }

-- `snapBack`.
unfoldable pub snap_back : ℕ → Pump → Pump
snap_back base p = record p { idle_ticks = 0; interval = base }

abbrev pub Step : Type 0
Step = Route × Pump × List Note

-- The end of a rotation: the partial line is carried over, cut to the limit, and the live file is
-- read from its start.
unfoldable pub rotated : Stream → Text → Step → Step
rotated st partial (r, p, notes) =
    let long = ltb_ℤ r.opts.max_line_bytes (pos (length partial)) in
    let kept = if long then take (pos_part r.opts.max_line_bytes) partial else partial in
    let cut = if long then 1 else 0 in
    (
      record r { truncated = r.truncated + cut; rotations = r.rotations + 1 },
      record p { carry = kept; offset = 0 },
      notes ++ (if long then truncated st 1 ∷ [] else []),
    )

-- The capture of new bytes; `archived` tells that they are read from the copy.
unfoldable pub capture : Stream → Traffic → ℕ → Bool → Text → Pump → Route → List Note → Step
capture st traffic now archived file p r notes =
    let read = read_new_into_prefix file p.offset p.carry in
    let (s, more) = append_lines st now traffic read.lines r in
    let next = record p {
      offset = read.offset;
      carry = if is_empty read.lines then p.carry else [];
    } in
    if archived then rotated st read.partial (s, next, notes ++ more) else (s, next, notes ++ more)

abbrev pub opened : Stream → Traffic → ℕ → Bool → Option Text → Pump → Route → List Note → Step
opened st traffic now archived none p r notes = (r, record p { offset = 0 }, notes)
opened st traffic now archived (some file) p r notes =
    capture st traffic now archived file p r notes

-- The head of an overlong batch is skipped, and reported in MiB; a file that is itself shorter than
-- the limit, which a carried prefix made overlong, gives a negative offset that no seek accepts.
unfoldable pub read_batch : Stream → Traffic → ℕ → ℕ → Bool → Option Text → Pump → Route → ℕ → Step
read_batch st traffic base now archived file p r size =
    let skip = size - p.offset in
    if ltb max_batch_bytes (skip + length p.carry)
    then (let q = snap_back base (record p { carry = []; offset = size - max_batch_bytes }) in
        let file' = if ltb size max_batch_bytes then none else file in
        opened st traffic now archived file' q r (skipped st (skip / 2 ^ 20) ∷ []))
    else opened st traffic now archived file (snap_back base p) r []

-- The look at the live file.
unfoldable pub read_live : Stream → Traffic → ℕ → Look → Pump → Route → ℕ → Step
read_live st traffic base look p r size =
    if size == p.offset
    then (r, backoff p, [])
    else read_batch st traffic base look.now false look.file p r size

abbrev pub read_archive : Stream → Traffic → ℕ → Look → Pump → Route → Archive → Step
read_archive st traffic base look p r a = elim a.size [
  | none ↦ (r, record p { offset = 0 }, [])
  | some size ↦ read_batch st traffic base look.now true a.file p r size
]

-- Whether the sink is due for a rotation.
abbrev pub is_due : Route → ℕ → Bool
is_due r size = ltb_ℤ (pos 0) r.opts.rotate_max_bytes && leb_ℤ r.opts.rotate_max_bytes (pos size)

unfoldable pub read_sink : Stream → Traffic → ℕ → Look → Pump → Route → ℕ → Step
read_sink st traffic base look p r size =
    if is_due r size
    then elim look.archive [
      | none ↦ read_live st traffic base look p r size
      | some a ↦ read_archive st traffic base look p r a
    ]
    else read_live st traffic base look p r size

-- One tick. A sink that shrank is read from its start, and an emptied one clears the ring. The
-- pruning of old archives, which only removes files, is left out.
unfoldable pub pump_tick : Stream → Traffic → ℕ → Look → Pump → Route → Step
pump_tick st traffic base look p r = elim look.size [
  | none ↦ (r, backoff (record p { offset = 0 }), [])
  | some size ↦
      if ltb size p.offset
      then read_sink st traffic base look (record p { offset = 0 })
          (if size == 0 then clear r else r) size
      else read_sink st traffic base look p r size
]
