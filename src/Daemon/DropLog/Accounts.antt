-- ===== src/Daemon/DropLog/Accounts.antt =====
-- internal/daemon/logroute.go, `dropLogger`: the proofs on what is announced.
use pm.Base.{
  ℕ, ◌+◌, ◌≡◌, refl, ap, ◌∙◌, Bool, true, false, Option, none, some, if◌then◌else◌, arith,
}
use pm.Daemon.DropLog.{
  Kind, evicted, truncated, subscriber, skipped, Counts, no_counts, add, Phase, swap_evicted,
  swap_truncated, swap_subscriber, swap_skipped, clear_flag, Flush, DropLogger, new_logger,
  count_drop, set_flag, begin_flush, go_on, Reach, start, drops, flags, fires, flushes,
}

-- What the flush under way holds.
abbrev pub held : Option Flush → Counts
held none = no_counts
held (some f) = f.window

-- Every loss that was counted is announced, held by the flush, or still in the counters.
pub record IsBalanced (d : DropLogger) : Type 0 where
  pub evicted :
      d.dropped.evicted ≡ d.counts.evicted + (held d.flushing).evicted + d.announced.evicted
  pub truncated :
      d.dropped.truncated ≡ d.counts.truncated + (held d.flushing).truncated + d.announced.truncated
  pub subscriber :
      d.dropped.subscriber
      ≡ d.counts.subscriber + (held d.flushing).subscriber + d.announced.subscriber
  pub skipped :
      d.dropped.skipped ≡ d.counts.skipped + (held d.flushing).skipped + d.announced.skipped

-- The kinds that a flush has not swapped yet are empty in its window.
abbrev pub IsPartial : Phase → Counts → Type 0
IsPartial swap_evicted w =
    (w.evicted ≡ 0) × (w.truncated ≡ 0) × (w.subscriber ≡ 0) × (w.skipped ≡ 0)
IsPartial swap_truncated w = (w.truncated ≡ 0) × (w.subscriber ≡ 0) × (w.skipped ≡ 0)
IsPartial swap_subscriber w = (w.subscriber ≡ 0) × (w.skipped ≡ 0)
IsPartial swap_skipped w = w.skipped ≡ 0
IsPartial clear_flag w = Unit

-- The flag is set while the timer runs or a flush is under way, never both.
abbrev pub IsScheduled : Bool → Bool → Option Flush → Type 0
IsScheduled set armed none = set ≡ armed
IsScheduled set armed (some f) = (set ≡ true) × (armed ≡ false) × IsPartial f.phase f.window

pub record IsSound (d : DropLogger) : Type 0 where
  pub balanced : IsBalanced d
  pub scheduled : IsScheduled d.flush_set d.armed d.flushing

add-IsBalanced : (k : Kind) (n : ℕ) (d : DropLogger) → IsBalanced d → IsBalanced (count_drop k n d)
unfolding count_drop add
add-IsBalanced evicted n d v = ground (arith, v.evicted, v.truncated, v.subscriber, v.skipped)
add-IsBalanced truncated n d v = ground (arith, v.evicted, v.truncated, v.subscriber, v.skipped)
add-IsBalanced subscriber n d v = ground (arith, v.evicted, v.truncated, v.subscriber, v.skipped)
add-IsBalanced skipped n d v = ground (arith, v.evicted, v.truncated, v.subscriber, v.skipped)

count_drop-IsSound : (k : Kind) (n : ℕ) (d : DropLogger) → IsSound d → IsSound (count_drop k n d)
unfolding count_drop
count_drop-IsSound k n d v = record {
  balanced = add-IsBalanced k n d v.balanced;
  scheduled = v.scheduled;
}

flagged :
    (set armed : Bool) (o : Option Flush)
    → IsScheduled set armed o
    → IsScheduled true (if set then armed else true) o
flagged true armed none v = v
flagged false armed none v = refl
flagged true armed (some f) v = v
flagged false armed (some f) v = cc

set_flag-IsSound : (rest : ℕ) (d : DropLogger) → IsSound d → IsSound (set_flag rest d)
unfolding set_flag
set_flag-IsSound rest d v = record {
  balanced = record {
    evicted = v.balanced.evicted;
    truncated = v.balanced.truncated;
    subscriber = v.balanced.subscriber;
    skipped = v.balanced.skipped;
  };
  scheduled = flagged d.flush_set d.armed d.flushing v.scheduled;
}

-- A timer that runs leaves no flush under way, and the flag is set.
none_flushing :
    (set armed : Bool) (o : Option Flush)
    → armed ≡ true
    → IsScheduled set armed o
    → (set ≡ true) × (held o ≡ no_counts)
none_flushing set armed none a v = (v ∙ a, refl)
none_flushing set armed (some f) a v = let off = v.1 in cc

begin_flush-IsSound : (d : DropLogger) → d.armed ≡ true → IsSound d → IsSound (begin_flush d)
unfolding begin_flush
begin_flush-IsSound d a v =
    let (set, empty) = none_flushing d.flush_set d.armed d.flushing a v.scheduled in
    record {
      balanced = record {
        evicted = omega (arith, v.balanced.evicted, ap (λ (c : Counts). c.evicted) empty);
        truncated = omega (arith, v.balanced.truncated, ap (λ (c : Counts). c.truncated) empty);
        subscriber = omega (arith, v.balanced.subscriber, ap (λ (c : Counts). c.subscriber) empty);
        skipped = omega (arith, v.balanced.skipped, ap (λ (c : Counts). c.skipped) empty);
      };
      scheduled = (set, refl, (refl, refl, refl, refl));
    }

-- The state in front of an operation of a flush, as the flush sees it.
record Sees (d : DropLogger) (phase : Phase) (w : Counts) : Type 0 where
  evicted : d.dropped.evicted ≡ d.counts.evicted + w.evicted + d.announced.evicted
  truncated : d.dropped.truncated ≡ d.counts.truncated + w.truncated + d.announced.truncated
  subscriber : d.dropped.subscriber ≡ d.counts.subscriber + w.subscriber + d.announced.subscriber
  skipped : d.dropped.skipped ≡ d.counts.skipped + w.skipped + d.announced.skipped
  set : d.flush_set ≡ true
  not_armed : d.armed ≡ false
  part : IsPartial phase w

IsSound-Sees :
    (d : DropLogger) (f : Flush) → d.flushing ≡ some f → IsSound d → Sees d f.phase f.window
IsSound-Sees d f e v =
    let b = v.balanced in
    let same = ap held e in
    let (set, not_armed, part) = rw e at v.scheduled in
    record {
      evicted = omega (arith, b.evicted, ap (λ (c : Counts). c.evicted) same);
      truncated = omega (arith, b.truncated, ap (λ (c : Counts). c.truncated) same);
      subscriber = omega (arith, b.subscriber, ap (λ (c : Counts). c.subscriber) same);
      skipped = omega (arith, b.skipped, ap (λ (c : Counts). c.skipped) same);
      set = set;
      not_armed = not_armed;
      part = part;
    }

go_on-IsSound :
    (phase : Phase) (w : Counts) (d : DropLogger) → Sees d phase w → IsSound (go_on phase w d)
unfolding go_on
go_on-IsSound swap_evicted w d v =
    let p = v.part in
    ground (arith, v.evicted, v.truncated, v.subscriber, v.skipped, v.set, v.not_armed)
go_on-IsSound swap_truncated w d v =
    let p = v.part in
    ground (arith, v.evicted, v.truncated, v.subscriber, v.skipped, v.set, v.not_armed)
go_on-IsSound swap_subscriber w d v =
    let p = v.part in
    ground (arith, v.evicted, v.truncated, v.subscriber, v.skipped, v.set, v.not_armed)
go_on-IsSound swap_skipped w d v =
    let p = v.part in
    ground (arith, v.evicted, v.truncated, v.subscriber, v.skipped, v.set, v.not_armed)
go_on-IsSound clear_flag w d v =
    ground (arith, v.evicted, v.truncated, v.subscriber, v.skipped, v.set, v.not_armed)

-- In every order of the operations each loss that was counted is announced, held by the flush under
-- way or still in the counters, and the flag is set exactly while a flush is to come or under way.
pub Reach-IsSound : (d : DropLogger) → Reach d → IsSound d
Reach-IsSound d start = record {
  balanced = record { evicted = refl; truncated = refl; subscriber = refl; skipped = refl };
  scheduled = refl;
}
Reach-IsSound d (drops k n r) = count_drop-IsSound k n _ (Reach-IsSound _ r)
Reach-IsSound d (flags rest e r) = set_flag-IsSound rest _ (Reach-IsSound _ r)
Reach-IsSound d (fires a r) = begin_flush-IsSound _ a (Reach-IsSound _ r)
Reach-IsSound d (flushes f e r) =
    go_on-IsSound f.phase f.window _ (IsSound-Sees _ f e (Reach-IsSound _ r))

-- A drop whose two operations fall between the first swap of a flush and its store.
abbrev stranded_at : ℕ → DropLogger
stranded_at n = record new_logger {
  counts = record no_counts { evicted = 0 + n };
  dropped = record no_counts { evicted = 0 + 1 + n };
  announced = record no_counts { evicted = 0 + (0 + 1) };
}

stranded : (n : ℕ) → Reach (stranded_at n)
unfolding count_drop add set_flag begin_flush go_on
stranded n =
    let one = flags 0 refl (drops evicted 1 start) in
    let swapped = flushes _ refl (fires refl one) in
    let late = flags 0 refl (drops evicted n swapped) in
    flushes _ refl (flushes _ refl (flushes _ refl (flushes _ refl late)))

-- Any number of lost lines can end in a counter with no flush to come and none under way: they are
-- not announced until another loss arms the timer.
pub Reach-stranded :
    (n : ℕ)
    → (d : DropLogger) × Reach d
      × (d.counts.evicted ≡ n)
      × (d.dropped.evicted ≡ d.announced.evicted + n)
      × (d.dropping ≡ 0)
      × (d.armed ≡ false)
      × (d.flushing ≡ none)
Reach-stranded n = (stranded_at n, stranded n, omega arith, omega arith, refl, refl, refl)
