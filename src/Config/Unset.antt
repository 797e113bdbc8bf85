-- ===== src/Config/Unset.antt =====
-- `Load` of internal/config/config.go when no variable is set.
use go_max_tech_stack.Config.Loading.{loaded, ◌>>=◌, ◌>>◌, reject_if}
use go_max_tech_stack.Config.Lookup.{Platform, parse_base}
use go_max_tech_stack.Config.Load.{load, load_profile}
use go_max_tech_stack.Config.Defaults.{default_config, default_base}
use go_max_tech_stack.Text.{codes, index_byte, text_eq, trim_space, Text}
use go_max_tech_stack.Prelude.{arith, map, none, refl, some, ℕ, ◌≡◌, ◌≤◌, String, subst, sym}
use go_max_tech_stack.Config.Servers.{load_runtime}
use go_max_tech_stack.Config.Checks.{validate_environment}

abbrev pub unset : Platform → Platform
unset p = record p { lookup_env = λ key. none }

small :
    (p : Platform)
    → ((c : ℕ) → 97 ≤ c → c ≤ 122 → p.lower c ≡ c)
    → map p.lower (codes "development") ≡ codes "development"
small p h =
    rw
      (
        h 100 (omega arith) (omega arith),
        h 101 (omega arith) (omega arith),
        h 118 (omega arith) (omega arith),
        h 108 (omega arith) (omega arith),
        h 111 (omega arith) (omega arith),
        h 112 (omega arith) (omega arith),
        h 109 (omega arith) (omega arith),
        h 110 (omega arith) (omega arith),
        h 116 (omega arith) (omega arith),
      )
      refl

known_environment :
    (x : Text)
    → x ≡ codes "development"
    → (do validate_environment x; loaded (record { environment = x }))
      ≡ loaded default_config.runtime
unfolding validate_environment ◌>>=◌ ◌>>◌ reject_if text_eq
known_environment x e = rw e refl

runtime_default :
    (p : Platform)
    → map p.lower (codes "development") ≡ codes "development"
    → load_runtime (unset p) default_config.runtime ≡ loaded default_config.runtime
unfolding load_runtime ◌>>=◌ ◌>>◌ reject_if text_eq trim_space
runtime_default p h = known_environment _ h

base_default :
    (p : Platform) (key : String) (v : Text)
    → v ≡ codes "http://localhost:8090"
    → p.parse_url (codes "http://localhost:8090") ≡ some default_base
    → parse_base (unset p) key (trim_space v) ≡ loaded default_base
unfolding parse_base ◌>>=◌ ◌>>◌ reject_if text_eq trim_space
base_default p key v e r =
    subst (λ u. parse_base (unset p) key (trim_space u) ≡ loaded default_base) (sym e)
      (rw r (rw r refl))

profile_default :
    (p : Platform)
    → p.url_text default_base ≡ codes "http://localhost:8090"
    → p.parse_url (codes "http://localhost:8090") ≡ some default_base
    → load_profile (unset p) default_config.outbound.profile
      ≡ loaded default_config.outbound.profile
unfolding load_profile ◌>>=◌ ◌>>◌ reject_if text_eq trim_space
profile_default p u r =
    rw (base_default p "OUTBOUND_PROFILE_BASE_URL" (p.url_text default_base) u r) refl

-- With no variable set the configuration is the default one, if small letters are lower case and the
-- text of the default base URL is its address, which url.Parse reads back.
pub load_default :
    (p : Platform)
    → ((c : ℕ) → 97 ≤ c → c ≤ 122 → p.lower c ≡ c)
    → p.url_text default_base ≡ codes "http://localhost:8090"
    → p.parse_url (codes "http://localhost:8090") ≡ some default_base
    → load (unset p) ≡ loaded default_config
unfolding load ◌>>=◌ ◌>>◌ reject_if text_eq trim_space index_byte
load_default p h u r = rw (runtime_default p (small p h), profile_default p u r) refl
