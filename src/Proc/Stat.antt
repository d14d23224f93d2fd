-- ===== src/Proc/Stat.antt =====
-- internal/proc/starttime_linux.go and snapshot_linux.go: reading the text of /proc/<pid>/stat. A
-- file that cannot be read or parsed is `none`; the texts of the errors are left out.
pub mod Image
use pm.Base.{
  ℕ, ◌^◌, ◌+◌, Option, none, some, List, [], ◌∷◌, Text, length, get_or, ltb, ◌==◌, if◌then◌else◌, ℤ,
  atoi, fields, read_ℕ,
}

-- `statInfo`.
pub record StatInfo : Type 0 where
  pub state : ℕ
  pub ppid : ℤ
  pub pgrp : ℤ
  pub utime : ℕ
  pub stime : ℕ
  pub starttime : ℕ
  pub rss : ℕ

-- What follows the last occurrence of the byte (`bytes.LastIndexByte`).
abbrev pub or_here : ℕ → ℕ → Text → Option Text → Option Text
or_here c b s (some t) = some t
or_here c b s none = if b == c then some s else none

unfoldable pub after_last : ℕ → Text → Option Text
after_last c [] = none
after_last c (b ∷ s) = or_here c b s (after_last c s)

-- The fields behind the comm: the byte that follows the last ')' is skipped.
abbrev pub fields_after : Option Text → Option (List Text)
fields_after none = none
fields_after (some []) = none
fields_after (some (b ∷ s)) = some (fields s)

unfoldable pub post_comm : Text → Option (List Text)
post_comm stat = fields_after (after_last b')' stat)

abbrev pub bind {ℓ κ} : {A : Type ℓ} {B : Type κ} → Option A → (A → Option B) → Option B
bind none f = none
bind (some a) f = f a

abbrev pub below : ℕ → Option ℕ → Option ℕ
below k none = none
below k (some n) = if ltb n k then some n else none

-- `strconv.ParseUint(s, 10, 64)`.
unfoldable pub parse_uint : Text → Option ℕ
unfolding read_ℕ
parse_uint s = below (2 ^ 64) (read_ℕ s)

abbrev pub field : List Text → ℕ → Text
field f i = get_or f i []

abbrev pub first_byte : Text → ℕ
first_byte s = get_or s 0 0

abbrev pub starttime_field : List Text → Option ℕ
starttime_field f = if ltb (length f) 20 then none else parse_uint (field f 19)

unfoldable pub parse_starttime : Text → Option ℕ
parse_starttime stat = bind (post_comm stat) starttime_field

abbrev pub ppid_pgrp_fields : List Text → Option (ℤ × ℤ)
ppid_pgrp_fields f =
    if ltb (length f) 3
    then none
    else bind (atoi (field f 1)) (λ p. bind (atoi (field f 2)) (λ g. some (p, g)))

unfoldable pub stat_ppid_grp : Text → Option (ℤ × ℤ)
stat_ppid_grp stat = bind (post_comm stat) ppid_pgrp_fields

abbrev pub state_field : List Text → Option ℕ
state_field [] = none
state_field (s ∷ f) = some (first_byte s)

unfoldable pub proc_state : Text → Option ℕ
proc_state stat = bind (post_comm stat) state_field

abbrev pub numbers : List Text → Option StatInfo
numbers f = bind (atoi (field f 1)) (λ ppid. bind (atoi (field f 2)) (λ pgrp.
    bind (parse_uint (field f 11)) (λ utime. bind (parse_uint (field f 12)) (λ stime.
      bind (parse_uint (field f 19)) (λ starttime. bind (parse_uint (field f 21)) (λ rss.
        some (record {
          state = first_byte (field f 0);
          ppid = ppid;
          pgrp = pgrp;
          utime = utime;
          stime = stime;
          starttime = starttime;
          rss = rss;
        })))))))

abbrev pub stat_fields : List Text → Option StatInfo
stat_fields f = if ltb (length f) 22 then none else numbers f

unfoldable pub parse_stat : Text → Option StatInfo
parse_stat stat = bind (post_comm stat) stat_fields
