-- ===== src/Daemon/DropLog.antt =====
-- internal/daemon/logroute.go, `dropLogger`: the counters of lost log lines and their delayed report.
-- Drops and the flush run on goroutines of their own, so the model is a step relation whose steps are
-- the atomic operations.
pub mod Accounts
use pm.Base.{ℕ, suc, ◌+◌, ◌≡◌, Bool, true, false, Option, none, some, if◌then◌else◌}

-- The kinds of loss.
pub data Kind : Type 0 where
  evicted truncated subscriber skipped : Kind

pub record Counts : Type 0 where
  pub evicted : ℕ
  pub truncated : ℕ
  pub subscriber : ℕ
  pub skipped : ℕ

abbrev pub no_counts : Counts
no_counts = record { evicted = 0; truncated = 0; subscriber = 0; skipped = 0 }

-- The switch of `onDrop`.
unfoldable pub add : Kind → ℕ → Counts → Counts
add evicted n c = record c { evicted = c.evicted + n }
add truncated n c = record c { truncated = c.truncated + n }
add subscriber n c = record c { subscriber = c.subscriber + n }
add skipped n c = record c { skipped = c.skipped + n }

-- Where a flush stands: the swaps that it has to do, and the store behind them.
pub data Phase : Type 0 where
  swap_evicted swap_truncated swap_subscriber swap_skipped clear_flag : Phase

-- What a flush has swapped out so far.
pub record Flush : Type 0 where
  pub phase : Phase
  pub window : Counts

-- The logger. `dropping` is the number of drops between their two operations, `armed` tells that the
-- timer runs. `dropped` and `announced` are not in the source: all that was counted, and all that the
-- printed summaries say.
pub record DropLogger : Type 0 where
  pub counts : Counts
  pub flush_set : Bool
  pub dropping : ℕ
  pub armed : Bool
  pub flushing : Option Flush
  pub dropped : Counts
  pub announced : Counts

abbrev pub new_logger : DropLogger
new_logger = record {
  counts = no_counts;
  flush_set = false;
  dropping = 0;
  armed = false;
  flushing = none;
  dropped = no_counts;
  announced = no_counts;
}

-- `onDrop`, first operation.
unfoldable pub count_drop : Kind → ℕ → DropLogger → DropLogger
unfolding add
count_drop k n d = record d {
  counts = add k n d.counts;
  dropped = add k n d.dropped;
  dropping = suc d.dropping;
}

-- `onDrop`, second operation: the first drop of a window arms the timer.
unfoldable pub set_flag : ℕ → DropLogger → DropLogger
set_flag rest d = record d {
  dropping = rest;
  flush_set = true;
  armed = if d.flush_set then d.armed else true;
}

-- `flush` begins when the timer fires.
unfoldable pub begin_flush : DropLogger → DropLogger
begin_flush d = record d {
  armed = false;
  flushing = some (record { phase = swap_evicted; window = no_counts });
}

-- The operations of `flush`; the last one is the store, and the summary that follows it.
unfoldable pub go_on : Phase → Counts → DropLogger → DropLogger
go_on swap_evicted w d = record d {
  counts = record d.counts { evicted = 0 };
  flushing =
      some (record { phase = swap_truncated; window = record w { evicted = d.counts.evicted } });
}
go_on swap_truncated w d = record d {
  counts = record d.counts { truncated = 0 };
  flushing =
      some
        (record { phase = swap_subscriber; window = record w { truncated = d.counts.truncated } });
}
go_on swap_subscriber w d = record d {
  counts = record d.counts { subscriber = 0 };
  flushing =
      some
        (record { phase = swap_skipped; window = record w { subscriber = d.counts.subscriber } });
}
go_on swap_skipped w d = record d {
  counts = record d.counts { skipped = 0 };
  flushing = some (record { phase = clear_flag; window = record w { skipped = d.counts.skipped } });
}
go_on clear_flag w d = record d {
  flush_set = false;
  flushing = none;
  announced = record {
    evicted = d.announced.evicted + w.evicted;
    truncated = d.announced.truncated + w.truncated;
    subscriber = d.announced.subscriber + w.subscriber;
    skipped = d.announced.skipped + w.skipped;
  };
}

-- The states that the operations of any number of goroutines lead to, in any order.
pub data Reach : DropLogger → Type 0 where
  start : Reach new_logger
  drops : {d : DropLogger} → (k : Kind) → (n : ℕ) → Reach d → Reach (count_drop k n d)
  flags : {d : DropLogger} → (rest : ℕ) → d.dropping ≡ suc rest → Reach d → Reach (set_flag rest d)
  fires : {d : DropLogger} → d.armed ≡ true → Reach d → Reach (begin_flush d)
  flushes :
      {d : DropLogger}
      → (f : Flush) → d.flushing ≡ some f
      → Reach d
      → Reach (go_on f.phase f.window d)
