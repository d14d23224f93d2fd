-- ===== src/Cron.antt =====
-- internal/cron/cron.go: the parser of cron_restart expressions. Bitsets are uint64 values. A step
-- of 2 ^ 63 - 64 or more, whose addition overflows int in the source, is out of scope.
pub mod Calendar
pub mod Next
use Prim.Native.Nat.{bit_and, bit_or}
use pm.Base.{
  ℕ, zero, suc, ◌+◌, ◌-◌, ◌*◌, ◌/◌, ◌%◌, ◌^◌, Bool, true, false, not, ◌&&◌, ◌||◌, Option, none,
  some, List, [], ◌∷◌, map, Text, codes, text_eq, is_empty, ltb, leb, ◌==◌, if◌then◌else◌, ℤ, pos,
  negsuc, atoi, to_lower, trim_space, split, cut, fields,
}

pub record Schedule : Type 0 where
  pub spec : Text
  pub min : ℕ
  pub hour : ℕ
  pub dom : ℕ
  pub mon : ℕ
  pub dow : ℕ
  pub dom_restricted : Bool
  pub dow_restricted : Bool

pub data Error : Type 0 where
  empty_expression bad_field_count empty_element bad_step bad_value out_of_range no_time : Error

pub data Result {ℓ} (A : Type ℓ) : Type ℓ where
  ok : A → Result A
  err : Error → Result A

infixl 5 ◌>>=◌
abbrev pub ◌>>=◌ {ℓ κ} : {A : Type ℓ} {B : Type κ} → Result A → (A → Result B) → Result B
ok a >>= f = f a
err e >>= f = err e

-- `bit`: the bits from `lo` up to, and without, `hi`.
unfoldable pub bit : ℕ → ℕ → ℕ
bit lo hi =
    let top = if ltb 64 hi then 64 else hi in
    if leb top lo then 0 else (2 ^ 64 - 1) / 2 ^ (64 - (top - lo)) * 2 ^ lo % 2 ^ 64

abbrev pub all_hour : ℕ
all_hour = bit 0 24

abbrev pub all_dom : ℕ
all_dom = bit 1 32

abbrev pub all_mon : ℕ
all_mon = bit 1 13

abbrev pub all_dow : ℕ
all_dow = bit 0 7

-- `uint64(1) << v`.
abbrev pub shift_one : ℕ → ℕ
shift_one v = 2 ^ v % 2 ^ 64

-- `set & (1 << v) != 0`.
unfoldable pub has : ℕ → ℕ → Bool
has set v = not (bit_and set (shift_one v) == 0)

abbrev pub month_names : List (Text × ℕ)
month_names =
    (codes "jan", 1)
    ∷ (codes "feb", 2)
    ∷ (codes "mar", 3)
    ∷ (codes "apr", 4)
    ∷ (codes "may", 5)
    ∷ (codes "jun", 6)
    ∷ (codes "jul", 7)
    ∷ (codes "aug", 8)
    ∷ (codes "sep", 9)
    ∷ (codes "oct", 10)
    ∷ (codes "nov", 11)
    ∷ (codes "dec", 12)
    ∷ []

abbrev pub dow_names : List (Text × ℕ)
dow_names =
    (codes "sun", 0)
    ∷ (codes "mon", 1)
    ∷ (codes "tue", 2)
    ∷ (codes "wed", 3)
    ∷ (codes "thu", 4)
    ∷ (codes "fri", 5)
    ∷ (codes "sat", 6)
    ∷ []

unfoldable pub find_name : Text → List (Text × ℕ) → Option ℕ
find_name s [] = none
find_name s ((name, v) ∷ rest) = if text_eq name s then some v else find_name s rest

abbrev named : Option ℕ → Result ℤ
named none = err bad_value
named (some v) = ok (pos v)

abbrev number_or : Option ℤ → Result ℤ → Result ℤ
number_or (some n) r = ok n
number_or none r = r

-- `parseValue`: a number, or a name in any case.
unfoldable pub parse_value : Text → List (Text × ℕ) → Result ℤ
unfolding find_name
parse_value text names =
    let tok = map to_lower (trim_space text) in number_or (atoi tok) (named (find_name tok names))

-- The step of a list element, 1 where none is given.
unfoldable pub parse_step : Text → Result ℕ
parse_step [] = ok 1
parse_step (c ∷ s) = elim (atoi (c ∷ s)) [
  | none ↦ err bad_step
  | some (pos n) ↦ if n == 0 then err bad_step else ok n
  | some (negsuc n) ↦ err bad_step
]

-- The first and the last value of a list element: `*`, a range, or one value, from which a step
-- goes on to the end of the field.
unfoldable pub parse_range : Text → Bool → ℕ → ℕ → List (Text × ℕ) → Result (ℤ × ℤ)
unfolding cut parse_value
parse_range base stepped lo hi names =
    if text_eq base (codes "*")
    then ok (pos lo, pos hi)
    else (let (left, right, ranged) = cut b'-' base in
        if ranged
        then (parse_value left names >>= λ a. parse_value right names >>= λ b. ok (a, b))
        else (parse_value base names >>= λ a. ok (a, if stepped then pos hi else a)))

-- `for v := a; v <= b; v += step`; one round for each value of the field is enough.
unfoldable pub fill : ℕ → ℕ → ℕ → ℕ → ℕ → ℕ
fill zero v b step out = out
fill (suc fuel) v b step out =
    let rest = fill fuel (v + step) b step (bit_or out (shift_one v)) in
    if leb v b then rest else out

-- The range check of a list element, and its loop.
unfoldable pub fill_range : ℕ → ℕ → ℕ → ℕ → ℤ × ℤ → Result ℕ
unfolding fill
fill_range lo hi step out (pos a, pos b) =
    if ltb a lo || ltb hi b || ltb b a then err out_of_range else ok (fill (suc b) a b step out)
fill_range lo hi step out (pos a, negsuc b) = err out_of_range
fill_range lo hi step out (negsuc a, b) = err out_of_range

-- One list element.
unfoldable pub parse_part : ℕ → ℕ → List (Text × ℕ) → ℕ → Text → Result ℕ
unfolding parse_step parse_range fill_range
parse_part lo hi names out raw =
    let part = trim_space raw in
    if is_empty part
    then err empty_element
    else (let (base, step_text, slashed) = cut b'/' part in
        parse_step step_text >>= λ step.
        parse_range base (not (is_empty step_text)) lo hi names >>= λ range.
        fill_range lo hi step out range)

unfoldable pub parse_parts : ℕ → ℕ → List (Text × ℕ) → ℕ → List Text → Result ℕ
parse_parts lo hi names out [] = ok out
parse_parts lo hi names out (part ∷ parts) =
    parse_part lo hi names out part >>= λ next. parse_parts lo hi names next parts

-- `parseField`.
unfoldable pub parse_field : Text → ℕ → ℕ → List (Text × ℕ) → Result ℕ
unfolding parse_parts
parse_field f lo hi names = parse_parts lo hi names 0 (split b',' f)

abbrev only_zero : ℕ
only_zero = bit 0 1

abbrev only_one : ℕ
only_one = bit 1 2

-- `aliases`: the bitsets of minute, hour, day of month, month and day of week.
abbrev pub aliases : List (Text × (ℕ × ℕ × ℕ × ℕ × ℕ))
aliases =
    (codes "@yearly", (only_zero, only_zero, only_one, only_one, all_dow))
    ∷ (codes "@annually", (only_zero, only_zero, only_one, only_one, all_dow))
    ∷ (codes "@monthly", (only_zero, only_zero, only_one, all_mon, all_dow))
    ∷ (codes "@weekly", (only_zero, only_zero, all_dom, all_mon, only_zero))
    ∷ (codes "@daily", (only_zero, only_zero, all_dom, all_mon, all_dow))
    ∷ (codes "@midnight", (only_zero, only_zero, all_dom, all_mon, all_dow))
    ∷ (codes "@hourly", (only_zero, all_hour, all_dom, all_mon, all_dow))
    ∷ []

unfoldable pub find_alias : Text → List (Text × (ℕ × ℕ × ℕ × ℕ × ℕ)) → Option (ℕ × ℕ × ℕ × ℕ × ℕ)
find_alias s [] = none
find_alias s ((name, bits) ∷ rest) = if text_eq name s then some bits else find_alias s rest

unfoldable pub alias_schedule : Text → ℕ × ℕ × ℕ × ℕ × ℕ → Schedule
alias_schedule s (min, hour, dom, mon, dow) = record {
  spec = s;
  min = min;
  hour = hour;
  dom = dom;
  mon = mon;
  dow = dow;
  dom_restricted = not (dom == all_dom);
  dow_restricted = not (dow == all_dow);
}

-- `maxDays`, by month.
unfoldable pub max_days : ℕ → ℕ
max_days m = if m == 2 then 29 else if m == 4 || m == 6 || m == 9 || m == 11 then 30 else 31

-- The loop of `checkFeasible` over `n` months from `m` on.
unfoldable pub some_day : Schedule → ℕ → ℕ → Bool
unfolding has max_days bit
some_day s zero m = false
some_day s (suc n) m =
    (has s.mon m && not (bit_and s.dom (bit 1 (max_days m + 1)) == 0)) || some_day s n (m + 1)

-- `checkFeasible`.
unfoldable pub check_feasible : Schedule → Result Schedule
unfolding some_day
check_feasible s =
    if s.dom == 0 || s.dow_restricted then ok s else if some_day s 12 1 then ok s else err no_time

unfoldable pub parse_fields : Text → List Text → Result Schedule
unfolding parse_field check_feasible bit
parse_fields s (f0 ∷ f1 ∷ f2 ∷ f3 ∷ f4 ∷ []) = do
  min ← parse_field f0 0 59 []
  hour ← parse_field f1 0 23 []
  dom ← parse_field f2 1 31 []
  mon ← parse_field f3 1 12 month_names
  raw_dow ← parse_field f4 0 7 dow_names
  let dow = bit_or (bit_and raw_dow (bit 0 7)) (bit_and (raw_dow / 2 ^ 7) 1)
  if min == 0 || hour == 0 || (dom == 0 && dow == 0) || mon == 0
      then err no_time
      else check_feasible (record {
        spec = s;
        min = min;
        hour = hour;
        dom = dom;
        mon = mon;
        dow = dow;
        dom_restricted = not (text_eq f2 (codes "*"));
        dow_restricted = not (text_eq f4 (codes "*"));
      })
parse_fields s _ = err bad_field_count

-- `Parse`.
unfoldable pub parse : Text → Result Schedule
unfolding parse_fields find_alias alias_schedule bit
parse text =
    let s = trim_space text in
    if is_empty s then err empty_expression else elim (find_alias (map to_lower s) aliases) [
      | some bits ↦ ok (alias_schedule s bits)
      | none ↦ parse_fields s (fields s)
    ]

-- `dayMatches`, for the day of the month and the day of the week of an instant.
unfoldable pub day_matches : Schedule → ℕ → ℕ → Bool
unfolding has
day_matches s day weekday =
    if s.dom_restricted && s.dow_restricted
    then has s.dom day || has s.dow weekday
    else if s.dom_restricted
    then has s.dom day
    else if s.dow_restricted
    then has s.dow weekday
    else true
