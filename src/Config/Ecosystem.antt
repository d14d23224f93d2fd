-- ===== src/Config/Ecosystem.antt =====
-- internal/config/ecosystem.go, the coercions: what the values of an ecosystem file stand for. The
-- evaluation of the file, strconv.ParseFloat and the number of processors are arguments. A failed
-- coercion is `none`; its text is left out.
pub mod Units
pub mod Keys
use pm.Base.{
  ℕ, ◌*◌, ◌^◌, Bool, true, false, ◌&&◌, Option, none, some, List, [], ◌∷◌, Text, codes, text_eq,
  if◌then◌else◌, ℤ, pos, negsuc, ltb_ℤ, ◌*ℤ◌, wrap64, atoi, trim_space, fields, to_lower,
  strip_suffix,
}
use pm.Config.{millisecond}

-- What the code asks of a number: its text (`%v`), whether it is negative, its conversion to int64
-- and whether that is exact. A number is a float64 or an int64.
pub record Number : Type 0 where
  pub text : Text
  pub is_negative : Bool
  pub truncated : ℤ
  pub is_integer : Bool

-- An evaluated value. `other` is what no coercion accepts, such as a function.
mutual
  pub data Value : Type 0 where
    null other : Value
    bool : Bool → Value
    num : Number → Value
    str : Text → Value
    array : Values → Value
    object : Fields → Value

  pub data Values : Type 0 where
    no_more : Values
    item : Value → Values → Values

  pub data Fields : Type 0 where
    no_fields : Fields
    field : Text → Value → Fields → Fields

-- What the program asks of its surroundings: strconv.ParseFloat and runtime.NumCPU.
pub record Machine : Type 0 where
  pub parse_float : Text → Option Number
  pub cpus : ℤ

abbrev pub bind {ℓ κ} : {A : Type ℓ} {B : Type κ} → Option A → (A → Option B) → Option B
bind none f = none
bind (some a) f = f a

abbrev pub bool_text : Bool → Text
bool_text true = codes "true"
bool_text false = codes "false"

-- `jsString`.
unfoldable pub js_string : Value → Option Text
js_string (str s) = some s
js_string (bool b) = some (bool_text b)
js_string (num n) = some n.text
js_string _ = none

-- `jsBool`.
unfoldable pub js_bool : Value → Option Bool
js_bool (bool b) = some b
js_bool _ = none

-- `jsFloat`.
unfoldable pub js_float : Machine → Value → Option Number
js_float h (num n) = some n
js_float h (str s) = h.parse_float (trim_space s)
js_float h _ = none

abbrev pub exact : Number → Option ℤ
exact n = if n.is_integer then some n.truncated else none

-- `jsInt`.
unfoldable pub js_int : Machine → Value → Option ℤ
unfolding js_float
js_int h v = bind (js_float h v) exact

unfoldable pub lower : Text → Text
lower [] = []
lower (c ∷ s) = to_lower c ∷ lower s

abbrev pub is_max : Value → Bool
is_max (str s) = text_eq (lower (trim_space s)) (codes "max")
is_max _ = false

-- `jsInstances`.
unfoldable pub js_instances : Machine → Value → Option ℤ
unfolding js_int
js_instances h v = if is_max v then some h.cpus else js_int h v

-- The first unit that the text ends with, and what stands in front of it.
abbrev pub first_unit : Option Text → ℤ → Option (Text × ℤ) → Option (Text × ℤ)
first_unit none u later = later
first_unit (some digits) u later = some (digits, u)

unfoldable pub find_unit : Text → List (Text × ℤ) → Option (Text × ℤ)
find_unit s [] = none
find_unit s ((suffix, u) ∷ units) = first_unit (strip_suffix suffix s) u (find_unit s units)

abbrev pub scaled : ℤ → Option ℤ → Option ℤ
scaled u none = none
scaled u (some n) = if ltb_ℤ n (pos 0) then none else some (wrap64 (n *ℤ u))

abbrev pub in_units : Option (Text × ℤ) → Option ℤ
in_units none = none
in_units (some (digits, u)) = scaled u (atoi digits)

-- A number where the text is one, else what stands in front of a unit, in that unit.
abbrev pub plain_or : Option ℤ → Option ℤ → Option ℤ
plain_or none units = units
plain_or (some n) units = some n

unfoldable pub with_unit : List (Text × ℤ) → Text → Option ℤ
unfolding find_unit
with_unit units s = plain_or (atoi s) (in_units (find_unit s units))

abbrev pub not_negative : Number → Option ℤ
not_negative n = if n.is_negative then none else some n.truncated

abbrev pub by_text : List (Text × ℤ) → Value → Option ℤ
by_text units (str s) = with_unit units (trim_space (lower s))
by_text units _ = none

abbrev pub number_or_text : List (Text × ℤ) → Value → Option Number → Option ℤ
number_or_text units v (some n) = not_negative n
number_or_text units v none = by_text units v

abbrev pub duration_units : List (Text × ℤ)
duration_units =
    (codes "ms", pos 1)
    ∷ (codes "s", pos 1000)
    ∷ (codes "m", pos 60000)
    ∷ (codes "h", pos 3600000)
    ∷ (codes "d", pos 86400000)
    ∷ []

abbrev pub milliseconds : Option ℤ → Option ℤ
milliseconds none = none
milliseconds (some n) = some (wrap64 (n *ℤ pos millisecond))

-- `jsDuration`: both products wrap.
unfoldable pub js_duration : Machine → Value → Option ℤ
unfolding js_float
js_duration h v = milliseconds (number_or_text duration_units v (js_float h v))

abbrev pub size_units : List (Text × ℤ)
size_units =
    (codes "kib", pos (2 ^ 10))
    ∷ (codes "kb", pos (2 ^ 10))
    ∷ (codes "k", pos (2 ^ 10))
    ∷ (codes "mib", pos (2 ^ 20))
    ∷ (codes "mb", pos (2 ^ 20))
    ∷ (codes "m", pos (2 ^ 20))
    ∷ (codes "gib", pos (2 ^ 30))
    ∷ (codes "gb", pos (2 ^ 30))
    ∷ (codes "g", pos (2 ^ 30))
    ∷ (codes "tib", pos (2 ^ 40))
    ∷ (codes "tb", pos (2 ^ 40))
    ∷ (codes "t", pos (2 ^ 40))
    ∷ []

-- `jsSize`.
unfoldable pub js_size : Machine → Value → Option ℤ
unfolding js_float
js_size h v = number_or_text size_units v (js_float h v)

-- The loops over the elements of an array: an element that is not accepted ends them.
abbrev pub cons_some {ℓ} : {A : Type ℓ} → Option A → Option (List A) → Option (List A)
cons_some none rest = none
cons_some (some a) none = none
cons_some (some a) (some as_) = some (a ∷ as_)

unfoldable pub strings : Values → Option (List Text)
unfolding js_string
strings no_more = some []
strings (item v vs) = cons_some (js_string v) (strings vs)

unfoldable pub ints : Machine → Values → Option (List ℤ)
unfolding js_int
ints h no_more = some []
ints h (item v vs) = cons_some (js_int h v) (ints h vs)

-- `jsStringSlice` and `jsIntSlice`.
unfoldable pub js_string_slice : Value → Option (List Text)
unfolding strings
js_string_slice (str s) = some (fields s)
js_string_slice (array vs) = strings vs
js_string_slice _ = none

unfoldable pub js_int_slice : Machine → Value → Option (List ℤ)
unfolding ints
js_int_slice h (array vs) = ints h vs
js_int_slice h _ = none

-- `jsEnvMap`.
abbrev pub entry : Text → Option Text → Option (List (Text × Text)) → Option (List (Text × Text))
entry k none rest = none
entry k (some s) none = none
entry k (some s) (some es) = some ((k, s) ∷ es)

unfoldable pub env_entries : Fields → Option (List (Text × Text))
unfolding js_string
env_entries no_fields = some []
env_entries (field k v fs) = entry k (js_string v) (env_entries fs)

unfoldable pub js_env_map : Value → Option (List (Text × Text))
unfolding env_entries
js_env_map (object fs) = env_entries fs
js_env_map _ = none
