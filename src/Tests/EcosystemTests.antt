-- ===== src/Tests/EcosystemTests.antt =====
-- The theorems on ecosystem files at concrete inputs, and runs of the code.
use pm.Base.{◌*◌, ◌≡◌, refl, true, Option, none, some, [], ◌++◌, Text, codes, arith, pos, itoa}
use pm.Config.{default, millisecond}
use pm.Config.Interp.{Files}
use pm.Config.Ecosystem.{Machine, Fields, no_fields, field, null, str, js_duration}
use pm.Config.Ecosystem.Units.{minutes, suffix, factor, js_duration-unit}
use pm.Config.Ecosystem.Keys.{Place, EcosystemApp, parse_ecosystem_app}
use pm.Config.Ecosystem.Keys.Accepted.{AreAccepted, parse_ecosystem_app-AreAccepted}

abbrev machine : Machine
machine = record { parse_float = λ s. none; cpus = pos 8 }

js_duration-unit_example :
    js_duration machine (str (itoa 90 ++ suffix minutes))
    ≡ some (pos (90 * factor minutes * millisecond))
js_duration-unit_example = js_duration-unit machine 90 minutes refl (omega arith)

abbrev files : Files
files = record {
  first_line = λ p. none;
  exists = λ p. true;
  is_file = λ p. true;
  abs = λ p. some p;
  look_path = λ p. none;
  join = λ d p. d ++ (codes "/" ++ p);
}

abbrev site : Place
site = record { machine = machine; files = files; dir = codes "/srv" }

-- An app object with a key that is null.
abbrev web_fields : Fields
web_fields =
    field (codes "script") (str (codes "web.js")) (
      field (codes "scirpt") null (field (codes "exec_interpreter") (str (codes "node")) no_fields))

abbrev taken : Option EcosystemApp → EcosystemApp
unfolding default
taken none = record { app = default; envs = [] }
taken (some a) = a

abbrev web_app : EcosystemApp
unfolding default
web_app = taken (parse_ecosystem_app site web_fields)

is_parsed : parse_ecosystem_app site web_fields ≡ some web_app
unfolding parse_ecosystem_app pm.Config.Ecosystem.Keys.parse_keys pm.Config.Ecosystem.Keys.find_case
    pm.Config.Ecosystem.Keys.canonical pm.Config.Ecosystem.Keys.cases pm.Config.Ecosystem.js_string
is_parsed = refl

parse_ecosystem_app-AreAccepted_example : AreAccepted web_fields
parse_ecosystem_app-AreAccepted_example =
    parse_ecosystem_app-AreAccepted site web_fields web_app is_parsed

-- The aliases of one key: the later one in the order of the loop counts.
abbrev interpreter_in : Option EcosystemApp → Text
interpreter_in none = []
interpreter_in (some a) = a.app.interpreter

first_order :
    interpreter_in (
      parse_ecosystem_app site (
        field (codes "script") (str (codes "a")) (
          field
            (codes "interpreter")
            (str (codes "node"))
            (field (codes "exec_interpreter") (str (codes "bash")) no_fields))))
    ≡ codes "bash"
unfolding parse_ecosystem_app pm.Config.Ecosystem.Keys.parse_keys pm.Config.Ecosystem.Keys.find_case
    pm.Config.Ecosystem.Keys.canonical pm.Config.Ecosystem.Keys.cases pm.Config.Ecosystem.js_string
first_order = refl

second_order :
    interpreter_in (
      parse_ecosystem_app site (
        field (codes "script") (str (codes "a")) (
          field
            (codes "exec_interpreter")
            (str (codes "bash"))
            (field (codes "interpreter") (str (codes "node")) no_fields))))
    ≡ codes "node"
unfolding parse_ecosystem_app pm.Config.Ecosystem.Keys.parse_keys pm.Config.Ecosystem.Keys.find_case
    pm.Config.Ecosystem.Keys.canonical pm.Config.Ecosystem.Keys.cases pm.Config.Ecosystem.js_string
second_order = refl
