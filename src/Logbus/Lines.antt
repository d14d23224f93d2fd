-- ===== src/Logbus/Lines.antt =====
-- internal/logbus/logbus.go, `SplitCompleteConsumed` and `readNewIntoPrefix`: complete lines out of
-- bytes. That equal neighbours share one string is a matter of memory only.
pub mod Conserved
use pm.Base.{
  ℕ, zero, suc, ◌+◌, ◌-◌, Bool, Option, none, some, List, [], ◌∷◌, ◌++◌, length, ltb, ◌==◌,
  if◌then◌else◌, Text, take, drop,
}
use pm.Logbus.{max_batch_bytes}

abbrev pub longer : ℕ → Option (Text × Text) → Option (Text × Text)
longer c none = none
longer c (some (line, rest)) = some (c ∷ line, rest)

-- What stands in front of the first newline, and behind it.
unfoldable pub next_line : Text → Option (Text × Text)
next_line [] = none
next_line (c ∷ s) = let later = longer c (next_line s) in if c == 10 then some ([], s) else later

abbrev pub add_line : Text → List Text × Text × ℕ → List Text × Text × ℕ
add_line line (lines, partial, consumed) = (line ∷ lines, partial, consumed)

-- The loop over the newlines, with what is left to scan and where it starts; a byte is fuel enough
-- for a line.
unfoldable pub split_from : ℕ → ℕ → Text → List Text × Text × ℕ
unfolding next_line
split_from zero start s = ([], s, start)
split_from (suc fuel) start s = elim (next_line s) [
  | none ↦ ([], s, start)
  | some (line, rest) ↦ add_line line (split_from fuel (start + length line + 1) rest)
]

-- `SplitCompleteConsumed`: the complete lines, the partial one, and the bytes of the complete ones.
unfoldable pub split_complete_consumed : Text → List Text × Text × ℕ
unfolding split_from
split_complete_consumed buf = split_from (suc (length buf)) 0 buf

-- `SplitComplete`.
unfoldable pub split_complete : Text → List Text × Text
split_complete buf =
    let (lines, partial, consumed) = split_complete_consumed buf in (lines, partial)

-- What `readNewIntoPrefix` returns: the new offset, the lines and the partial line.
pub record Read : Type 0 where
  pub offset : ℕ
  pub lines : List Text
  pub partial : Text

abbrev pub read_from : Text → ℕ → Text → Read
read_from file off prefix =
    let want = prefix ++ take (max_batch_bytes - length prefix) (drop off file) in
    let (lines, partial, consumed) = split_complete_consumed want in
    record { offset = off + (consumed - length prefix); lines = lines; partial = partial }

-- `readNewIntoPrefix` of a file that could be opened and read. The prefix is the partial line of a
-- rotated file.
unfoldable pub read_new_into_prefix : Text → ℕ → Text → Read
unfolding split_complete_consumed
read_new_into_prefix file offset prefix =
    let off = if ltb (length file) offset then 0 else offset in
    if length file == off
    then record { offset = off; lines = []; partial = prefix }
    else read_from file off prefix
