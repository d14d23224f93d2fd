-- ===== src/Proc/Cgroup.antt =====
-- internal/proc/detect_linux.go: where the cgroup of the daemon is. The texts of /proc/self/cgroup
-- and /proc/self/mountinfo are given; filepath.Rel and filepath.Join are arguments.
use pm.Base.{
  ℕ, Bool, true, false, not, ◌&&◌, ◌||◌, Option, none, some, List, [], ◌∷◌, Text, codes, text_eq,
  is_empty, length, ltb, ◌==◌, if◌then◌else◌, split, cut, fields, has_prefix, strip_prefix,
}
use pm.Proc.Stat.{field}

-- `strings.SplitN(s, c, 3)`.
abbrev pub behind_first : Text → Text × Text × Bool → List Text
behind_first a (b, c, found) = if found then a ∷ b ∷ c ∷ [] else a ∷ b ∷ []

abbrev pub first_of : ℕ → Text × Text × Bool → List Text
first_of sep (a, rest, found) = if found then behind_first a (cut sep rest) else a ∷ []

unfoldable pub split_3 : ℕ → Text → List Text
split_3 sep s = first_of sep (cut sep s)

-- `ownCgroup` on the lines of /proc/self/cgroup.
abbrev pub unified_entry : List Text → Option Text → Option Text
unified_entry (a ∷ b ∷ path ∷ []) rest =
    if text_eq a (codes "0") && is_empty b then some path else rest
unified_entry parts rest = rest

unfoldable pub unified_path : List Text → Option Text
unfolding split_3
unified_path [] = none
unified_path (l ∷ ls) = unified_entry (split_3 b':' l) (unified_path ls)

unfoldable pub own_cgroup : Text → Option Text
unfolding unified_path
own_cgroup contents = unified_path (split 10 contents)

-- The replacer of the escapes of a mountinfo line: \040, \011, \012 and \134.
unfoldable pub escape : ℕ → ℕ → ℕ → ℕ → Option ℕ
escape a b c d =
    if not (a == 92)
    then none
    else if b == b'0' && c == b'4' && d == b'0'
    then some 32
    else if b == b'0' && c == b'1' && d == b'1'
    then some 9
    else if b == b'0' && c == b'1' && d == b'2'
    then some 10
    else if b == b'1' && c == b'3' && d == b'4'
    then some 92
    else none

abbrev pub replaced : Option ℕ → ℕ → Text → Text → Text
replaced none a kept skipped = a ∷ kept
replaced (some x) a kept skipped = x ∷ skipped

unfoldable pub unescape : Text → Text
unfolding escape
unescape (a ∷ b ∷ c ∷ d ∷ s) = replaced (escape a b c d) a (unescape (b ∷ c ∷ d ∷ s)) (unescape s)
unescape (a ∷ b ∷ c ∷ []) = a ∷ b ∷ c ∷ []
unescape (a ∷ b ∷ []) = a ∷ b ∷ []
unescape (a ∷ []) = a ∷ []
unescape [] = []

-- `strings.Cut(line, " - ")`.
abbrev pub cut_or : ℕ → Option Text → Text × Text × Bool → Text × Text × Bool
cut_or c (some after) later = ([], after, true)
cut_or c none (before, after, found) = (c ∷ before, after, found)

unfoldable pub cut_dash : Text → Text × Text × Bool
unfolding strip_prefix
cut_dash [] = ([], [], false)
cut_dash (c ∷ s) = cut_or c (strip_prefix (codes " - ") (c ∷ s)) (cut_dash s)

-- The hierarchy root and the mount point of a line that mounts a cgroup2.
abbrev pub mount_fields : Text × Text × Bool → Option (Text × Text)
mount_fields (before, after, found) =
    if found
      && not (ltb (length (fields before)) 5)
      && text_eq (field (fields after) 0) (codes "cgroup2")
    then some (unescape (field (fields before) 3), unescape (field (fields before) 4))
    else none

abbrev pub is_inside : Text → Bool
is_inside r = not (text_eq r (codes "..")) && not (has_prefix (codes "../") r)

unfoldable pub has_dots : List Text → Bool
has_dots [] = false
has_dots (p ∷ ps) = text_eq p (codes "..") || has_dots ps

module _ (rel : Text → Text → Option Text) (join : Text → Text → Text) where
  abbrev pub inside_or_root : Text → Text → Option Text → Option Text
  inside_or_root path mount (some r) =
      if is_inside r
      then some (join mount r)
      else if text_eq path (codes "/")
      then some mount
      else none
  inside_or_root path mount none = if text_eq path (codes "/") then some mount else none

  abbrev pub try_line : Text → Option (Text × Text) → Option Text → Option Text
  try_line path none later = later
  try_line path (some (root, mount)) later = elim (inside_or_root path mount (rel root path)) [
    | none ↦ later
    | some d ↦ some d
  ]

  unfoldable pub try_lines : Text → List Text → Option Text
  unfolding cut_dash unescape
  try_lines path [] = none
  try_lines path (l ∷ ls) = try_line path (mount_fields (cut_dash l)) (try_lines path ls)

  -- `resolveCgroupMount`.
  unfoldable pub resolve_cgroup_mount : Text → Text → Option Text
  unfolding try_lines has_dots
  resolve_cgroup_mount path mountinfo =
      if not (has_prefix (codes "/") path) || has_dots (split b'/' path)
      then none
      else try_lines path (split 10 mountinfo)
