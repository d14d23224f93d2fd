-- ===== src/Ops/Watch.antt =====
-- internal/ops/watch_linux.go: which file events count, and the debounce of the restarts. The events
-- of fsnotify come with the time at which the loop takes them, and with whether their path is a
-- directory then. Where an event and the end of the window are both there, the loop may take either:
-- here the window ends first. Left out: the walk over the subdirectories of a tree that is added.
pub mod Quiet
use pm.Base.{
  ℕ, ◌+◌, Bool, true, false, ◌||◌, ◌&&◌, Option, none, some, List, [], ◌∷◌, ◌++◌, Text, codes,
  text_eq, leb, if◌then◌else◌, split, strip_suffix,
}
use pm.Config.Interp.{base_of}

-- `fsnotify.Event`.
pub record Event : Type 0 where
  pub name : Text
  pub is_create : Bool
  pub is_write : Bool
  pub is_remove : Bool
  pub is_rename : Bool
  pub is_dir : Bool

unfoldable pub has_ignored : List Text → Bool
has_ignored [] = false
has_ignored (c ∷ cs) =
    text_eq c (codes "node_modules") || text_eq c (codes ".git") || has_ignored cs

abbrev pub is_some {ℓ} : {A : Type ℓ} → Option A → Bool
is_some none = false
is_some (some a) = true

-- `watchIgnore`.
unfoldable pub watch_ignore : Text → Bool
unfolding has_ignored
watch_ignore path =
    has_ignored (split b'/' path)
    || is_some (strip_suffix (codes ".swp") (base_of path))
    || is_some (strip_suffix (codes ".tmp") (base_of path))

-- The state of the loop: when the window ends, the trees that were added, and when the callback ran.
pub record Watcher : Type 0 where
  pub window : Option ℕ
  pub added : List Text
  pub fired : List ℕ

abbrev pub add_tree : Event → Watcher → Watcher
add_tree ev w =
    if ev.is_create && ev.is_dir then record w { added = w.added ++ (ev.name ∷ []) } else w

-- A change of permissions alone arms no window.
abbrev pub is_change : Event → Bool
is_change ev = ev.is_create || ev.is_write || ev.is_remove || ev.is_rename

abbrev pub arm : ℕ → ℕ → Event → Watcher → Watcher
arm debounce now ev w = if is_change ev then record w { window = some (now + debounce) } else w

-- The case of the loop for an event.
unfoldable pub on_event : ℕ → ℕ → Event → Watcher → Watcher
on_event debounce now ev w = if watch_ignore ev.name then w else arm debounce now ev (add_tree ev w)

-- The case for the end of the window, where it has come.
abbrev pub fire : ℕ → Watcher → Watcher
fire d w = record w { window = none; fired = w.fired ++ (d ∷ []) }

abbrev pub expire_at : ℕ → Option ℕ → Watcher → Watcher
expire_at now none w = w
expire_at now (some d) w = if leb d now then fire d w else w

unfoldable pub expire : ℕ → Watcher → Watcher
expire now w = expire_at now w.window w

-- The loop over the events, with the times at which it takes them.
unfoldable pub loop : ℕ → List (ℕ × Event) → Watcher → Watcher
unfolding on_event expire
loop debounce [] w = w
loop debounce ((now, ev) ∷ evs) w = loop debounce evs (on_event debounce now ev (expire now w))

-- After the last event the window that is open ends.
abbrev pub settle_at : Option ℕ → Watcher → Watcher
settle_at none w = w
settle_at (some d) w = fire d w

unfoldable pub settle : Watcher → Watcher
settle w = settle_at w.window w
