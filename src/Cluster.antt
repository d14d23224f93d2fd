-- ===== src/Cluster.antt =====
-- internal/cluster/cluster.go: the version of node that the cluster mode wants. The run of
-- `node --version` is an argument; the text of the preload script is not modelled.
pub mod Versions
use pm.Base.{
  ℕ, Bool, true, false, not, ◌&&◌, ◌||◌, Option, none, some, List, [], ◌∷◌, Text, codes, text_eq,
  is_empty, ◌==◌, if◌then◌else◌, ℤ, pos, negsuc, ltb_ℤ, int_eq, atoi, split, trim_space,
}

-- A version: the numbers in front of the dots.
pub record Version : Type 0 where
  pub major : ℤ
  pub minor : ℤ
  pub patch : ℤ

abbrev pub trim_byte : ℕ → Text → Text
trim_byte c [] = []
trim_byte c (d ∷ s) = if d == c then s else d ∷ s

-- What stands in front of a '-' or a '+'.
unfoldable pub strip_metadata : Text → Text
strip_metadata [] = []
strip_metadata (c ∷ s) = if c == b'-' || c == b'+' then [] else c ∷ strip_metadata s

abbrev pub version : Option ℤ → Option ℤ → Option ℤ → Option Version
version (some a) (some b) (some c) = some (record { major = a; minor = b; patch = c })
version (some a) (some b) none = none
version (some a) none c = none
version none b c = none

abbrev pub number : Text → Option ℤ
number s = atoi (trim_space s)

-- The loop reads the first three parts.
abbrev pub version_of : List Text → Option Version
version_of [] = none
version_of (a ∷ []) = none
version_of (a ∷ b ∷ []) = version (number a) (number b) (some (pos 0))
version_of (a ∷ b ∷ c ∷ rest) = version (number a) (number b) (number c)

-- `parseVersion`.
unfoldable pub parse_version : Text → Option Version
unfolding strip_metadata
parse_version s =
    version_of (split b'.' (strip_metadata (trim_byte b'V' (trim_byte b'v' (trim_space s)))))

-- `compareVersion`: negative, zero or positive.
abbrev pub sign : ℤ → ℤ → ℤ
sign a b = if ltb_ℤ a b then negsuc 0 else pos 1

unfoldable pub compare_version : Version → Version → ℤ
compare_version a b =
    if not (int_eq a.major b.major)
    then sign a.major b.major
    else if not (int_eq a.minor b.minor)
    then sign a.minor b.minor
    else if not (int_eq a.patch b.patch)
    then sign a.patch b.patch
    else pos 0

-- `MinNodeVersion`, 23.2.0.
abbrev pub min_node_version : Version
min_node_version = record { major = pos 23; minor = pos 2; patch = pos 0 }

abbrev pub is_new_enough : Option Version → Bool
is_new_enough none = false
is_new_enough (some v) = not (ltb_ℤ (compare_version v min_node_version) (pos 0))

-- `checkVersionString`: whether it passes.
unfoldable pub check_version_string : Text → Bool
check_version_string ver = is_new_enough (parse_version ver)

-- `versionCache`: what `node --version` printed, by binary.
abbrev pub Cache : Type 0
Cache = List (Text × Text)

unfoldable pub cached : Text → Cache → Option Text
cached bin [] = none
cached bin ((b, v) ∷ c) = if text_eq b bin then some v else cached bin c

abbrev pub node_or : Text → Text
node_or bin = if is_empty bin then codes "node" else bin

abbrev pub probed : Text → Option Text → Cache → Cache × Bool
probed bin none c = (c, false)
probed bin (some out) c = ((bin, trim_space out) ∷ c, check_version_string (trim_space out))

abbrev pub by_cache : (Text → Option Text) → Text → Option Text → Cache → Cache × Bool
by_cache probe bin (some ver) c = (c, check_version_string ver)
by_cache probe bin none c = probed bin (probe bin) c

-- `CheckNodeVersion`; a probe that fails is not remembered.
unfoldable pub check_node_version : (Text → Option Text) → Text → Cache → Cache × Bool
unfolding cached
check_node_version probe bin c = by_cache probe (node_or bin) (cached (node_or bin) c) c
