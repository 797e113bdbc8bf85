-- ===== src/Config/Sample.antt =====
-- A standard library for the values of the tests.
use go_max_tech_stack.Config.Lookup.{Platform}
use go_max_tech_stack.Text.{Text, codes, text_eq}
use go_max_tech_stack.Prelude.{
  List, Option, String, [], false, if◌then◌else◌, none, pos, some, str_eq, true, ◌∷◌,
}
use go_max_tech_stack.Config.Defaults.{default_base, seconds}
use go_max_tech_stack.Security.Access.{lower_ascii}
use go_max_tech_stack.Decimal.{parse_int}

abbrev pub given : List (String × Text) → String → Option Text
given [] key = none
given ((name, value) ∷ rest) key = if str_eq name key then some value else given rest key

abbrev pub base_text : Text
base_text = codes "http://localhost:8090"

abbrev pub split_known : Text → Option (Text × Text)
split_known s =
    if text_eq s (codes ":9090")
    then some ([], codes "9090")
    else if text_eq s (codes "localhost:9090")
    then some (codes "localhost", codes "9090")
    else none

-- The library for the values that the tests have.
abbrev pub on : List (String × Text) → Platform
on environment = record {
  Addr = Text;
  lookup_env = given environment;
  atoi = λ s. parse_int s;
  parse_bool = λ s. if text_eq s (codes "true") then some true else none;
  parse_duration = λ s. if text_eq s (codes "2s") then some (seconds 2) else none;
  split_host_port = split_known;
  parse_addr = λ s. none;
  is_loopback = λ a. false;
  prefix_of = λ a. record { text = a; bits = pos 32 };
  parse_prefix =
      λ s. if text_eq s (codes "0.0.0.0/0") then some (record { text = s; bits = pos 0 }) else none;
  masked = λ r. r;
  parse_url = λ s. if text_eq s base_text then some default_base else none;
  url_text = λ u. base_text;
  equal_fold = text_eq;
  lower = lower_ascii;
  upper = λ c. c;
  canonical_header_key = λ s. s;
}
