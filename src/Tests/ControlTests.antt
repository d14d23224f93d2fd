-- ===== src/Tests/ControlTests.antt =====
-- The theorems on the daemon's requests at concrete inputs, and runs of the code.
use pm.Base.{
  ℕ, ◌+◌, ◌≡◌, refl, true, false, Option, none, some, List, [], ◌∷◌, All, Text, length, codes,
  arith, ℤ, pos, negsuc, lookup, int_eq,
}
use pm.Config.{Config, default, second}
use pm.Supervisor.Commands.{AppView}
use pm.Supervisor.Listing.{ids_of}
use pm.Supervisor.Starting.{IdsBelow}
use pm.Daemon.Convert.{default_name, fill_paths}
use pm.Daemon.Select.{Selector, resolve_selector, has_id, is_instance_of, instance_index}
use pm.Daemon.Select.Chosen.{IsStrict, wants, resolve_selector-wants}
use pm.Daemon.Expand.{scaled_up, max_name_index}
use pm.Daemon.Expand.Family.{IsGrown, scaled_up-IsGrown}
use pm.Daemon.Scale.Shared.{HaveSameFiles, scaled_up-HaveSameFiles}
use pm.Daemon.Resurrect.{adopt_or_start_from_dump}
use pm.Daemon.Resurrect.Placed.{AreDealtWith}
use pm.Daemon.Resurrect.Preserved.{adopt_or_start_from_dump-keeps}
use pm.Samples.{web_config, serving, running, tree_a, one_app}

abbrev selector : Selector
selector = record { all = false; names = codes "web" ∷ []; pm_ids = pos 3 ∷ negsuc 0 ∷ [] }

resolve_selector-wants_example :
    let views = resolve_selector (some selector) one_app in
    IsStrict (ids_of views) × (has_id 3 views ≡ wants (some selector) one_app 3)
unfolding default
resolve_selector-wants_example = resolve_selector-wants (some selector) one_app 3

one_app-ids : IdsBelow one_app
unfolding default lookup int_eq
one_app-ids id e h = ground arith

abbrev dump : List (ℕ × Config)
unfolding default
dump = (3, web_config) ∷ (7, web_config) ∷ (5, web_config) ∷ []

adopt_or_start_from_dump-keeps_example :
    let (s, c) =
      adopt_or_start_from_dump
        (λ id. serving second)
        (λ id. some (tree_a, second))
        (some dump)
        one_app in
    IdsBelow s × AreDealtWith s dump c.started c.errored
unfolding default
adopt_or_start_from_dump-keeps_example =
    adopt_or_start_from_dump-keeps (λ id. serving second) (λ id. some (tree_a, second)) dump one_app
      one_app-ids

-- An instance with its files, as it is registered.
abbrev filled : Config
unfolding default
filled = record web_config {
  name = codes "web-7";
  out_file = codes "/logs/web-7-out.log";
  error_file = codes "/logs/web-7-error.log";
  pid_file = codes "/pids/web-7-3.pid";
}

abbrev view : AppView
unfolding default
view = record { id = 3; serial = 1; app = record running { cfg = filled } }

highest : max_name_index (codes "web") (view ∷ []) (negsuc 0) ≡ pos 7
unfolding default max_name_index instance_index pm.Daemon.Select.are_digits pm.Base.strip_prefix
    pm.Base.atoi pm.Base.is_digit pm.Base.read_ℕ
highest = refl

scaled_up-IsGrown_example :
    IsGrown
      (codes "web")
      (view ∷ [])
      (max_name_index (codes "web") (view ∷ []) (negsuc 0))
      1
      (scaled_up (codes "web") view [] 2)
unfolding default
scaled_up-IsGrown_example =
    scaled_up-IsGrown (codes "web") view [] 2 refl (rw highest (omega arith))

scaled_up-HaveSameFiles_example :
    All
      (λ c. HaveSameFiles (fill_paths (codes "/home") (λ parts. codes "/logs/web-8") c 4) filled)
      (scaled_up (codes "web") view [] 2)
unfolding default
scaled_up-HaveSameFiles_example =
    scaled_up-HaveSameFiles (codes "/home") (λ parts. codes "/logs/web-8") 4 2 (codes "web") view []
      (record { out = refl; err = refl; pid = refl })

server_name : default_name (codes "/srv/my.app.js") ≡ codes "my.app"
unfolding default_name pm.Daemon.Convert.without_ext pm.Daemon.Convert.after_slash
    pm.Daemon.Convert.before_dot
server_name = refl
