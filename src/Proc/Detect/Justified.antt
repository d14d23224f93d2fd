-- ===== src/Proc/Detect/Justified.antt =====
-- internal/proc/detect_linux.go, `detectUncached`: the proofs on the mode that it chooses.
use pm.Base.{
  ◌≡◌, refl, inl, inr, Bool, true, false, Bool-cases, Option, none, some, Text, codes, is_empty, ℕ,
  ℤ, pos, int_eq_iff, ◌⊎◌, ◌<ℤ◌, ◌≤ℤ◌, arith,
}
use pm.Proc.Cgroup.{own_cgroup}
use pm.Proc.Detect.{
  Host, Detection, silent, lacks_kill, lacks_freezer, bad_release, no_subtree, no_mount, no_unified,
  unreadable, default_root, pgid, probed, by_version, by_mount, by_given, by_usable, by_path,
  by_cgroup, automatic, is_mode, detect_uncached, kernel_version, at_least,
}

-- The version of the kernel is 5.`n` or later.
abbrev pub IsFrom : ℕ → ℤ → ℤ → Type 0
IsFrom n major minor = (pos 5 <ℤ major) ⊎ (major ≡ pos 5) × (pos n ≤ℤ minor)

at_least-IsFrom : (n : ℕ) (major minor : ℤ) → at_least n major minor ≡ true → IsFrom n major minor
at_least-IsFrom n major minor h = ground (arith, int_eq_iff major (pos 5))

not-IsFrom : (n : ℕ) (major minor : ℤ) → at_least n major minor ≡ false → ¬ IsFrom n major minor
not-IsFrom n major minor h = ground (arith, int_eq_iff major (pos 5))

-- The directory that is probed: the given one, or where the unified cgroup of the daemon is mounted.
abbrev pub IsRoot : Host → Detection → Type 0
IsRoot h d =
    (is_empty h.cgroup_root ≡ false) × (d.cgroup_root ≡ h.cgroup_root)
    ⊎ ((contents : Text) × (path : Text) × (root : Text) × (h.self_cgroup ≡ some contents)
        × (own_cgroup contents ≡ some path)
        × (h.mount path ≡ some root)
        × (d.cgroup_root ≡ default_root root))

-- The results: cgroup.kill with no warning, freeze-drain with its warning, and the fallback, with the
-- warning that tells why neither was possible.
pub data IsJustified (h : Host) (d : Detection) : Type 0 where
  by_kill :
      (major minor : ℤ)
      → d.mode ≡ codes "cgroup-kill"
      → d.warning ≡ silent
      → IsRoot h d
      → h.probe d.cgroup_root ≡ true
      → kernel_version h.release ≡ some (major, minor)
      → IsFrom 14 major minor
      → IsJustified h d
  by_freeze :
      (major minor : ℤ)
      → d.mode ≡ codes "cgroup-freeze"
      → d.warning ≡ lacks_kill major minor
      → IsRoot h d
      → h.probe d.cgroup_root ≡ true
      → kernel_version h.release ≡ some (major, minor)
      → ¬ IsFrom 14 major minor
      → IsFrom 2 major minor
      → IsJustified h d
  too_old :
      (major minor : ℤ)
      → d.mode ≡ codes "pgid"
      → d.warning ≡ lacks_freezer major minor
      → kernel_version h.release ≡ some (major, minor)
      → ¬ IsFrom 2 major minor
      → IsJustified h d
  unknown_kernel :
      d.mode ≡ codes "pgid"
      → d.warning ≡ bad_release
      → kernel_version h.release ≡ none
      → IsJustified h d
  not_usable :
      d.mode ≡ codes "pgid"
      → d.warning ≡ no_subtree
      → IsRoot h d
      → h.probe d.cgroup_root ≡ false
      → IsJustified h d
  not_mounted :
      (contents path : Text)
      → d.mode ≡ codes "pgid"
      → d.warning ≡ no_mount
      → h.self_cgroup ≡ some contents
      → own_cgroup contents ≡ some path
      → h.mount path ≡ none
      → IsJustified h d
  not_unified :
      (contents : Text)
      → d.mode ≡ codes "pgid"
      → d.warning ≡ no_unified
      → h.self_cgroup ≡ some contents
      → own_cgroup contents ≡ none
      → IsJustified h d
  not_readable :
      d.mode ≡ codes "pgid" → d.warning ≡ unreadable → h.self_cgroup ≡ none → IsJustified h d

-- A result on the way: still the fallback, with no warning yet.
abbrev IsOpen : Detection → Type 0
IsOpen d = (d.mode ≡ pgid) × (d.warning ≡ silent)

by_version-IsJustified :
    (h : Host) (v : Option (ℤ × ℤ)) (d : Detection)
    → kernel_version h.release ≡ v
    → IsRoot h d
    → h.probe d.cgroup_root ≡ true
    → IsOpen d
    → IsJustified h (by_version v d)
by_version-IsJustified h none d e q u m = unknown_kernel m.0 refl e
by_version-IsJustified h (some (major, minor)) d e q u m =
    elim (Bool-cases (at_least 14 major minor)) [
      | inl k ↦ rw k (by_kill major minor refl m.1 q u e (at_least-IsFrom 14 major minor k))
      | inr k ↦
          let old = not-IsFrom 14 major minor k in
          elim (Bool-cases (at_least 2 major minor)) [
            | inl f ↦
                rw k (
                  rw f
                    (by_freeze major minor refl refl q u e old (at_least-IsFrom 2 major minor f)))
            | inr f ↦ rw k (rw f (too_old major minor m.0 refl e (not-IsFrom 2 major minor f)))
          ]
    ]

by_usable-IsJustified :
    (h : Host) (b : Bool) (d : Detection)
    → IsRoot h d
    → h.probe d.cgroup_root ≡ b
    → IsOpen d
    → IsJustified h (by_usable h b d)
by_usable-IsJustified h true d q u m =
    by_version-IsJustified h (kernel_version h.release) d refl q u m
by_usable-IsJustified h false d q u m = not_usable m.0 refl q u

by_mount-IsJustified :
    (h : Host) (contents path : Text) (o : Option Text) (d : Detection)
    → h.self_cgroup ≡ some contents
    → own_cgroup contents ≡ some path
    → h.mount path ≡ o
    → IsOpen d
    → IsJustified h (by_mount h o d)
by_mount-IsJustified h contents path none d s p o m = not_mounted contents path m.0 refl s p o
by_mount-IsJustified h contents path (some root) d s p o m =
    by_usable-IsJustified h _ (probed h root d) (inr (contents, path, root, s, p, o, refl)) refl m

given_root : (dir : Text) → is_empty dir ≡ false → default_root dir ≡ dir
given_root dir e = rw e refl

by_given-IsJustified :
    (h : Host) (b : Bool) (contents path : Text) (d : Detection)
    → is_empty h.cgroup_root ≡ b
    → h.self_cgroup ≡ some contents
    → own_cgroup contents ≡ some path
    → IsOpen d
    → IsJustified h (by_given h b path d)
by_given-IsJustified h true contents path d g s p m =
    by_mount-IsJustified h contents path (h.mount path) d s p refl m
by_given-IsJustified h false contents path d g s p m =
    by_usable-IsJustified h _ (probed h h.cgroup_root d) (inl (g, given_root h.cgroup_root g)) refl
      m

by_path-IsJustified :
    (h : Host) (contents : Text) (o : Option Text) (d : Detection)
    → h.self_cgroup ≡ some contents
    → own_cgroup contents ≡ o
    → IsOpen d
    → IsJustified h (by_path h o d)
by_path-IsJustified h contents none d s p m = not_unified contents m.0 refl s p
by_path-IsJustified h contents (some path) d s p m =
    by_given-IsJustified h (is_empty h.cgroup_root) contents path _ refl s p m

by_cgroup-IsJustified :
    (h : Host) (o : Option Text) → h.self_cgroup ≡ o → IsJustified h (by_cgroup h o)
by_cgroup-IsJustified h none s = not_readable refl refl s
by_cgroup-IsJustified h (some contents) s =
    by_path-IsJustified h contents (own_cgroup contents) _ s refl (refl, refl)

-- Without an override the mode that the detection chooses is justified by the host, and its warning
-- says why: cgroup.kill with no warning on a usable root and a kernel of 5.14 or later; freeze-drain
-- on a usable root and a kernel of 5.2 or later but before 5.14; and else the fallback, where the
-- kernel is before 5.2, its release cannot be read, the root is not usable, the cgroup has no mount,
-- or the daemon has no unified cgroup or none that can be read. The root is the one that is given, or
-- that at which the unified cgroup is mounted.
pub detect_uncached-IsJustified :
    (h : Host) → is_mode h.kill_mode ≡ false → IsJustified h (detect_uncached h)
unfolding detect_uncached automatic
detect_uncached-IsJustified h e = rw e (by_cgroup-IsJustified h h.self_cgroup refl)
