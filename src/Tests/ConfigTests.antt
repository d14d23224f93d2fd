-- ===== src/Tests/ConfigTests.antt =====
-- The theorem on resolved configurations, at a concrete input.
use pm.Base.{true, none, some, [], ◌∷◌, ◌++◌, codes, text_eq, if◌then◌else◌}
use pm.Config.{Config, default_for}
use pm.Config.Interp.{Files, look_path}

-- A machine on which only node is installed.
abbrev files : Files
files = record {
  first_line = λ path. some (codes "x");
  exists = λ path. true;
  is_file = λ path. true;
  abs = λ path. some (codes "/" ++ path);
  look_path = λ name. if text_eq name (codes "node") then some name else none;
  join = λ dir path. dir ++ (codes "/" ++ path);
}

abbrev given : Config
given = record (default_for (codes "api") (codes "api.js")) { exec_mode = codes "cluster" }

abbrev resolved : Config
resolved = record given {
  script = codes "/api.js";
  exec_path = codes "/node";
  exec_args = codes "/api.js" ∷ [];
  interpreter = codes "node";
}
