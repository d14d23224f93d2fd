-- ===== src/Proc.antt =====
-- internal/proc/proc.go, handle_linux.go and detect_linux.go: the values that the process layer
-- exchanges with the state machine. The kernel's side of it (spawning, the kill paths) is an
-- argument of the machine.
pub mod Stat
pub mod Snapshot
pub mod Cgroup
pub mod Detect
pub mod Scan
pub mod Kill
use pm.Base.{
  ℕ, Bool, ◌&&◌, ◌||◌, List, [], ◌∷◌, Text, codes, text_eq, is_empty, leb, ◌==◌, ℤ, if◌then◌else◌,
}

-- Handle and TreeInfo: what is fixed when a tree is launched or adopted. `has_ready` says that the
-- handle has a ready channel: an adopted handle has none.
pub record Handle : Type 0 where
  pub pid : ℕ
  pub mode : Text
  pub cg_path : Text
  pub leader_start : ℕ
  pub has_ready : Bool

pub record ExitInfo : Type 0 where
  pub exit_code : ℤ
  pub signaled : Bool
  pub term_sig : ℕ
  pub oom_kill : Bool

pub record Spec : Type 0 where
  pub name : Text
  pub bin_path : Text
  pub args : List Text
  pub env : List Text
  pub cwd : Text
  pub kill_signal : ℕ
  pub kill_timeout : ℤ
  pub out_file : Text
  pub err_file : Text

unfoldable pub is_safe_byte : ℕ → Bool
is_safe_byte c =
    (leb b'a' c && leb c b'z')
    || (leb b'A' c && leb c b'Z')
    || (leb b'0' c && leb c b'9')
    || c == b'-'
    || c == b'_'
    || c == b'.'

-- The loop of `SanitizeName` over the runes of the name.
unfoldable pub sanitize_runes : List ℕ → Text
sanitize_runes [] = []
sanitize_runes (r ∷ rs) = (if is_safe_byte r then r else b'_') ∷ sanitize_runes rs

unfoldable pub sanitize_name : List ℕ → Text
unfolding sanitize_runes is_safe_byte
sanitize_name name =
    let b = sanitize_runes name in
    if is_empty b || text_eq b (codes ".") || text_eq b (codes "..") then codes "app" else b
