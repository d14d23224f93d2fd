-- ===== src/Store/RoundTrip.antt =====
-- internal/store/store.go: the proof that a dump gives back the apps that were saved.
use pm.Base.{
  ℕ, ◌*◌, ◌^◌, ◌<◌, ◌≡◌, refl, sym, ap, ◌∙◌, false, some, List, [], ◌∷◌, map, ℤ, pos, ◌≤ℤ◌, ◌<ℤ◌,
  leb_ℤ, int_eq, wrap64, wrap64-pos, *ℤ-pos, All, arith,
}
use pm.Config.{Config, millisecond}
use pm.Store.{
  Entry, Dump, dump_version, milliseconds, ms, lift_dur, lift_int, wire_rotate_max, mem_rotate_max,
  mem_rotate_retain, app_to_record, record_to_app, saved, loaded,
}

-- A duration of whole milliseconds that is in the range of int64.
pub record IsWhole (d : ℤ) : Type 0 where
  pub count : ℕ
  pub is_count : d ≡ pos (count * millisecond)
  pub in_range : count * millisecond < 2 ^ 63

milliseconds-whole : (k : ℕ) → milliseconds (pos (k * millisecond)) ≡ pos k
unfolding milliseconds
milliseconds-whole k = ap pos (omega arith)

ms-pos : (k : ℕ) → k * millisecond < 2 ^ 63 → ms (pos k) ≡ pos (k * millisecond)
unfolding ms
ms-pos k h = ap wrap64 (*ℤ-pos k millisecond) ∙ wrap64-pos (k * millisecond) h

ms-milliseconds : (d : ℤ) → IsWhole d → ms (milliseconds d) ≡ d
ms-milliseconds d v =
    ap (λ z. ms (milliseconds z)) v.is_count
    ∙ ap ms (milliseconds-whole v.count)
    ∙ ms-pos v.count v.in_range
    ∙ sym v.is_count

lift_dur-pos : (k : ℕ) (def : ℤ) → 0 < k → lift_dur (pos k) def ≡ ms (pos k)
unfolding lift_dur
lift_dur-pos k def h = let e : leb_ℤ (pos k) (pos 0) ≡ false = ground arith in rw e refl

count-pos : (d : ℤ) → (v : IsWhole d) → pos 0 <ℤ d → 0 < v.count
count-pos d v h = let e = v.is_count in ground arith

lift_dur-milliseconds : (d def : ℤ) → IsWhole d → pos 0 <ℤ d → lift_dur (milliseconds d) def ≡ d
lift_dur-milliseconds d def v h =
    ap (λ z. lift_dur (milliseconds z) def) v.is_count
    ∙ ap (λ z. lift_dur z def) (milliseconds-whole v.count)
    ∙ lift_dur-pos v.count def (count-pos d v h)
    ∙ ms-pos v.count v.in_range
    ∙ sym v.is_count

lift_int-pos : (n def : ℤ) → pos 0 <ℤ n → lift_int n def ≡ n
unfolding lift_int
lift_int-pos n def h = ground arith

mem_rotate_max-wire : (n : ℤ) → pos 0 ≤ℤ n → mem_rotate_max (wire_rotate_max n) ≡ n
unfolding mem_rotate_max wire_rotate_max int_eq
mem_rotate_max-wire n h = ground arith

mem_rotate_retain-pos : (n : ℤ) → pos 0 <ℤ n → mem_rotate_retain n ≡ n
unfolding mem_rotate_retain
mem_rotate_retain-pos n h = ground arith

-- A configuration that a dump can hold: whole milliseconds, knobs that are set, no negative size.
pub record IsSavable (c : Config) : Type 0 where
  pub min_uptime : IsWhole c.min_uptime
  pub restart_delay : IsWhole c.restart_delay
  pub backoff_delay : IsWhole c.exp_backoff_restart_delay
  pub backoff_cap : IsWhole c.exp_backoff_cap
  pub kill_wait : IsWhole c.kill_timeout
  pub listen_timeout : IsWhole c.listen_timeout
  pub probe_interval : IsWhole c.health_check_interval × (pos 0 <ℤ c.health_check_interval)
  pub probe_timeout : IsWhole c.health_check_timeout × (pos 0 <ℤ c.health_check_timeout)
  pub probe_retries : pos 0 <ℤ c.health_check_retries
  pub rotate_max : pos 0 ≤ℤ c.log_rotate_max_bytes
  pub rotate_retain : pos 0 <ℤ c.log_rotate_retain

record_to_app-app_to_record : (e : Entry) → IsSavable e.app → record_to_app (app_to_record e) ≡ e
unfolding record_to_app app_to_record
record_to_app-app_to_record e v =
    rw
      (
        ms-milliseconds e.app.min_uptime v.min_uptime,
        ms-milliseconds e.app.restart_delay v.restart_delay,
        ms-milliseconds e.app.exp_backoff_restart_delay v.backoff_delay,
        ms-milliseconds e.app.exp_backoff_cap v.backoff_cap,
        ms-milliseconds e.app.kill_timeout v.kill_wait,
        ms-milliseconds e.app.listen_timeout v.listen_timeout,
        lift_dur-milliseconds e.app.health_check_interval _ v.probe_interval.0 v.probe_interval.1,
        lift_dur-milliseconds e.app.health_check_timeout _ v.probe_timeout.0 v.probe_timeout.1,
        lift_int-pos e.app.health_check_retries _ v.probe_retries,
        mem_rotate_max-wire e.app.log_rotate_max_bytes v.rotate_max,
        mem_rotate_retain-pos e.app.log_rotate_retain v.rotate_retain,
      )
      refl

map-record_to_app :
    (es : List Entry)
    → All (λ e. IsSavable e.app) es
    → map record_to_app (map app_to_record es) ≡ es
map-record_to_app [] v = refl
map-record_to_app (e ∷ es) v = rw (record_to_app-app_to_record e v.0, map-record_to_app es v.1) refl

-- A load of a saved dump gives the apps that were saved, in their order and with their ids, under the
-- current version, where each configuration is savable.
pub loaded-saved :
    (d : Dump)
    → All (λ e. IsSavable e.app) d.apps
    → loaded (saved d) ≡ some (record d { version = dump_version })
unfolding loaded saved
loaded-saved d v = rw (map-record_to_app d.apps v) refl
