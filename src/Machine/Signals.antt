-- ===== src/Machine/Signals.antt =====
-- internal/machine/machine.go, `parseKillSignal` and `signalByName`: the names of kill signals, with
-- the numbers that Linux gives them.
use pm.Base.{
  ℕ, Option, none, some, List, [], ◌∷◌, ◌++◌, map, Text, codes, text_eq, is_empty, if◌then◌else◌,
  has_prefix, to_upper, trim_space,
}

-- `signalTable`.
abbrev pub signal_table : List (Text × ℕ)
signal_table =
    (codes "SIGABRT", 6)
    ∷ (codes "SIGALRM", 14)
    ∷ (codes "SIGBUS", 7)
    ∷ (codes "SIGCHLD", 17)
    ∷ (codes "SIGCONT", 18)
    ∷ (codes "SIGFPE", 8)
    ∷ (codes "SIGHUP", 1)
    ∷ (codes "SIGILL", 4)
    ∷ (codes "SIGINT", 2)
    ∷ (codes "SIGIO", 29)
    ∷ (codes "SIGIOT", 6)
    ∷ (codes "SIGKILL", 9)
    ∷ (codes "SIGPIPE", 13)
    ∷ (codes "SIGPROF", 27)
    ∷ (codes "SIGQUIT", 3)
    ∷ (codes "SIGSEGV", 11)
    ∷ (codes "SIGSTOP", 19)
    ∷ (codes "SIGSYS", 31)
    ∷ (codes "SIGTERM", 15)
    ∷ (codes "SIGTRAP", 5)
    ∷ (codes "SIGTSTP", 20)
    ∷ (codes "SIGTTIN", 21)
    ∷ (codes "SIGTTOU", 22)
    ∷ (codes "SIGURG", 23)
    ∷ (codes "SIGUSR1", 10)
    ∷ (codes "SIGUSR2", 12)
    ∷ (codes "SIGVTALRM", 26)
    ∷ (codes "SIGWINCH", 28)
    ∷ (codes "SIGXCPU", 24)
    ∷ (codes "SIGXFSZ", 25)
    ∷ []

unfoldable pub find_signal : Text → List (Text × ℕ) → Option ℕ
find_signal s [] = none
find_signal s ((name, sig) ∷ rest) = if text_eq name s then some sig else find_signal s rest

-- The lookup of a trimmed name in upper case.
unfoldable pub lookup_upper : Text → Option ℕ
unfolding find_signal has_prefix
lookup_upper s = if is_empty s then none else elim (find_signal s signal_table) [
  | some sig ↦ some sig
  | none ↦ if has_prefix (codes "SIG") s then none else find_signal (codes "SIG" ++ s) signal_table
]

-- `signalByName`.
unfoldable pub signal_by_name : Text → Option ℕ
unfolding lookup_upper to_upper trim_space
signal_by_name name = lookup_upper (map to_upper (trim_space name))

abbrev signal_or : Option ℕ → ℕ
signal_or none = 2
signal_or (some sig) = sig

-- `parseKillSignal`: SIGINT for an unknown name.
unfoldable pub parse_kill_signal : Text → ℕ
unfolding signal_by_name
parse_kill_signal name = signal_or (signal_by_name name)
