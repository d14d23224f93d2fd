-- ===== src/Daemon/Select.antt =====
-- internal/daemon/daemon.go and control.go: which apps a request is about. A name stands for its
-- family: the app of that name and the apps `<name>-<digits>`.
pub mod Chosen
use pm.Base.{
  strip_prefix, ℕ, Bool, true, false, not, ◌&&◌, ◌||◌, Option, none, some, List, [], ◌∷◌, ◌++◌,
  Text, codes, text_eq, is_empty, ltb, ◌==◌, if◌then◌else◌, ℤ, pos, negsuc, suc, atoi, itoa,
  is_digit,
}
use pm.Supervisor.Registry.{Registry}
use pm.Supervisor.Commands.{AppView, list, describe}

unfoldable pub are_digits : Text → Bool
are_digits [] = true
are_digits (c ∷ s) = is_digit c && are_digits s

-- The suffix of an instance.
abbrev pub is_suffix : Option Text → Bool
is_suffix none = false
is_suffix (some s) = not (is_empty s) && are_digits s

abbrev pub suffix_of : Text → Text → Option Text
suffix_of app base = strip_prefix (base ++ (b'-' ∷ [])) app

-- `isInstanceOf`.
unfoldable pub is_instance_of : Text → Text → Bool
unfolding are_digits
is_instance_of app base = is_suffix (suffix_of app base)

-- `instanceIndex`: -1 for what is no instance, or has a number that no int holds.
abbrev pub index_or : Option ℤ → ℤ
index_or none = negsuc 0
index_or (some i) = i

abbrev pub suffix_index : Option Text → ℤ
suffix_index none = negsuc 0
suffix_index (some s) = if is_suffix (some s) then index_or (atoi s) else negsuc 0

unfoldable pub instance_index : Text → Text → ℤ
unfolding are_digits
instance_index app base = suffix_index (suffix_of app base)

abbrev pub is_family : Text → AppView → Bool
is_family name v = text_eq v.app.cfg.name name || is_instance_of v.app.cfg.name name

unfoldable pub filter_family : Text → List AppView → List AppView
unfolding is_instance_of
filter_family name [] = []
filter_family name (v ∷ vs) =
    if is_family name v then v ∷ filter_family name vs else filter_family name vs

-- `resolveNameFamily`.
unfoldable pub resolve_name_family : Text → Registry → List AppView
unfolding filter_family
resolve_name_family name r = filter_family name (list r)

-- `Selector`: the ids are the int32 of the wire.
pub record Selector : Type 0 where
  pub all : Bool
  pub names : List Text
  pub pm_ids : List ℤ

abbrev pub int_text : ℤ → Text
int_text (pos n) = itoa n
int_text (negsuc n) = b'-' ∷ itoa (suc n)

-- `add`: what has been seen is not added again.
unfoldable pub has_id : ℕ → List AppView → Bool
has_id id [] = false
has_id id (v ∷ vs) = v.id == id || has_id id vs

unfoldable pub add_views : List AppView → List AppView → List AppView
unfolding has_id
add_views [] out = out
add_views (v ∷ vs) out = add_views vs (if has_id v.id out then out else out ++ (v ∷ []))

abbrev pub add_found : Option AppView → List AppView → List AppView
add_found none out = out
add_found (some v) out = add_views (v ∷ []) out

unfoldable pub add_ids : Registry → List ℤ → List AppView → List AppView
unfolding add_views
add_ids r [] out = out
add_ids r (id ∷ ids) out = add_ids r ids (add_found (describe (int_text id) r) out)

unfoldable pub add_names : Registry → List Text → List AppView → List AppView
unfolding add_views resolve_name_family
add_names r [] out = out
add_names r (name ∷ names) out = add_names r names (add_views (resolve_name_family name r) out)

-- `sortViews`.
unfoldable pub insert_view : AppView → List AppView → List AppView
insert_view v [] = v ∷ []
insert_view v (w ∷ ws) = if ltb w.id v.id then w ∷ insert_view v ws else v ∷ w ∷ ws

unfoldable pub sort_views : List AppView → List AppView
unfolding insert_view
sort_views [] = []
sort_views (v ∷ vs) = insert_view v (sort_views vs)

abbrev pub selects_all : Option Selector → Bool
selects_all none = true
selects_all (some s) = s.all && is_empty s.names && is_empty s.pm_ids

abbrev pub selected : Registry → Option Selector → List AppView
selected r none = []
selected r (some s) = add_names r s.names (add_ids r s.pm_ids [])

-- `resolveSelector`: no selector stands for all apps.
unfoldable pub resolve_selector : Option Selector → Registry → List AppView
unfolding add_ids add_names sort_views
resolve_selector sel r =
    sort_views (if selects_all sel then add_views (list r) [] else selected r sel)
