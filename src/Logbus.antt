-- ===== src/Logbus.antt =====
-- internal/logbus/logbus.go: the log router of one app. This file has the data: entries, options,
-- subscribers and the route.
pub mod Ring
pub mod Fanout
pub mod Routing
pub mod Lines
pub mod Pump
use pm.Base.{
  ℕ, ◌*◌, ◌^◌, Bool, true, false, ◌&&◌, not, List, [], ◌∷◌, ◌++◌, Text, codes, text_eq, is_empty, ℤ,
  pos, pos_part, leb_ℤ, if◌then◌else◌, replicate, length,
}
use pm.Config.{millisecond, second}

pub data Stream : Type 0 where
  stdout stderr : Stream

-- `Label`.
abbrev pub label : Stream → Text
label stdout = codes "stdout"
label stderr = codes "stderr"

-- `Entry`; `content` is the field `Data`, `at` the time.
pub record Entry : Type 0 where
  pub stream : Stream
  pub at : ℕ
  pub content : Text
  pub seq : ℕ
  pub dropped : ℕ

-- The entry that a fresh array holds.
abbrev pub blank : Entry
blank = record { stream = stdout; at = 0; content = []; seq = 0; dropped = 0 }

abbrev pub default_ring_lines : ℤ
default_ring_lines = pos 1000

abbrev pub default_ring_bytes : ℤ
default_ring_bytes = pos (2 ^ 20)

abbrev pub default_max_line_bytes : ℤ
default_max_line_bytes = pos (8 * 2 ^ 10)

abbrev pub default_sub_buffer : ℤ
default_sub_buffer = pos 1024

abbrev pub default_rotate_retain : ℤ
default_rotate_retain = pos 30

abbrev pub default_poll_interval : ℤ
default_poll_interval = pos (100 * millisecond)

abbrev pub max_idle_poll : ℕ
max_idle_poll = second

abbrev pub fast_poll_window : ℕ
fast_poll_window = second

-- 64 MiB.
abbrev pub max_batch_bytes : ℕ
max_batch_bytes = 64 * 2 ^ 20

pub record Options : Type 0 where
  pub out_path : Text
  pub err_path : Text
  pub ring_lines : ℤ
  pub ring_bytes : ℤ
  pub max_line_bytes : ℤ
  pub sub_buffer : ℤ
  pub rotate_max_bytes : ℤ
  pub rotate_retain : ℤ
  pub poll_interval : ℤ

-- A subscriber. `id` stands for its identity, `queue` is what its channel holds, `pending` the undelivered lines of each stream.
-- `sent` is not in the source: all that the channel ever accepted, oldest first.
pub record Sub : Type 0 where
  pub id : ℕ
  pub queue : List Entry
  pub sent : List Entry
  pub drops : ℕ
  pub pending_out : ℕ
  pub pending_err : ℕ

-- `Route`, without its locks and channels. `ring_len` is the sum of the lengths in the ring.
pub record Route : Type 0 where
  pub opts : Options
  pub ring : List Entry
  pub head : ℕ
  pub count : ℕ
  pub ring_len : ℕ
  pub seq : ℕ
  pub evicted : ℕ
  pub truncated : ℕ
  pub rotations : ℕ
  pub subs : List Sub
  pub closed : Bool

abbrev lift_option : ℤ → ℤ → ℤ
lift_option n def = if leb_ℤ n (pos 0) then def else n

-- The defaults that `NewRoute` fills in.
unfoldable pub with_defaults : Options → Options
with_defaults o = record o {
  ring_lines = lift_option o.ring_lines default_ring_lines;
  ring_bytes = lift_option o.ring_bytes default_ring_bytes;
  max_line_bytes = lift_option o.max_line_bytes default_max_line_bytes;
  sub_buffer = lift_option o.sub_buffer default_sub_buffer;
  poll_interval = lift_option o.poll_interval default_poll_interval;
  rotate_retain = lift_option o.rotate_retain default_rotate_retain;
}

-- `NewRoute`, without its pumps.
unfoldable pub new_route : Options → Route
unfolding with_defaults
new_route o =
    let opts = with_defaults o in
    record {
      opts = opts;
      ring = replicate (pos_part opts.ring_lines) blank;
      head = 0;
      count = 0;
      ring_len = 0;
      seq = 0;
      evicted = 0;
      truncated = 0;
      rotations = 0;
      subs = [];
      closed = false;
    }

-- `merged`.
unfoldable pub merged : Options → Bool
merged o = not (is_empty o.out_path) && text_eq o.out_path o.err_path

-- The pumps that `NewRoute` starts: the sinks with the streams that their lines are tagged with.
unfoldable pub pumps : Options → List (Text × Stream)
unfolding merged
pumps o =
    if merged o
    then (o.out_path, stdout) ∷ []
    else (if is_empty o.out_path then [] else (o.out_path, stdout) ∷ [])
      ++ (if is_empty o.err_path then [] else (o.err_path, stderr) ∷ [])
