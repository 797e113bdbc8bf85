-- ===== src/Config/Examples.antt =====
-- The configuration of a service in production.
use go_max_tech_stack.Config.{Config, JwtKey}
use go_max_tech_stack.Config.Loading.{
  loaded, rejects, needs_loopback, ◌>>=◌, ◌>>◌, reject_if, development_secret, trusts_everyone,
}
use go_max_tech_stack.Config.Defaults.{default_config, seconds}
use go_max_tech_stack.Config.Sound.{
  load-IsInRange, load-IsGuarded, load-IsProfiled, IsInRange, IsGuarded,
}
use go_max_tech_stack.Config.Load.{load}
use go_max_tech_stack.Text.{Text, codes, text_eq, index_byte, trim_space}
use go_max_tech_stack.Prelude.{List, String, [], pos, refl, ◌∷◌, ◌≡◌, arith}
use go_max_tech_stack.Config.Profile.{IsProfiled}
use go_max_tech_stack.Decimal.{parse_int, parse_nat}
use go_max_tech_stack.Config.Keys.{parse-join}
use go_max_tech_stack.Config.Items.{contains_string, join_jwt_keys, parse_jwt_keys}
use go_max_tech_stack.Config.Unset.{load_default, unset}
use go_max_tech_stack.Config.Sample.{on}

abbrev production : List (String × Text)
production =
    ("APP_ENV", codes " Production ")
    ∷ ("AUTH_JWT_ISSUER", codes "pets")
    ∷ ("AUTH_JWT_AUDIENCE", codes "pets")
    ∷ ("AUTH_JWT_KEYS", codes "k1:0123456789abcdef0123456789abcdef")
    ∷ ("WORKERS_COUNT", codes "4")
    ∷ ("HTTP_READ_TIMEOUT", codes "2s")
    ∷ []

abbrev served : Config
served = record default_config {
  runtime = record { environment = codes "production" };
  http = record default_config.http { read_timeout = seconds 2 };
  pool = record default_config.pool { workers = pos 4 };
  auth = record {
    jwt = record default_config.auth.jwt {
      issuer = codes "pets";
      audience = codes "pets";
      keys = record { kid = codes "k1"; secret = codes "0123456789abcdef0123456789abcdef" } ∷ [];
    };
  };
}

production_loads : load (on production) ≡ loaded served
unfolding load ◌>>=◌ ◌>>◌ reject_if text_eq trim_space index_byte parse_int parse_nat
production_loads = refl

-- Outside the development its secret is refused.
test_is_refused :
    load (on (("APP_ENV", codes "test") ∷ []))
    ≡ rejects "AUTH_JWT_KEYS" (codes "dev") development_secret
unfolding load ◌>>=◌ ◌>>◌ reject_if text_eq trim_space index_byte
test_is_refused = refl

everyone_is_refused :
    load
      (on (("PROXY_TRUSTED_PROXIES", codes "0.0.0.0/0") ∷ ("PROXY_TRUST_XFF", codes "true") ∷ []))
    ≡ rejects "PROXY_TRUSTED_PROXIES" (codes "0.0.0.0/0") trusts_everyone
unfolding load ◌>>=◌ ◌>>◌ reject_if text_eq trim_space index_byte
everyone_is_refused = refl

-- The default address of gRPC is not a loopback listener.
plaintext_is_refused :
    load (on (("GRPC_ENABLE", codes "true") ∷ []))
    ≡ rejects "GRPC_TLS_ENABLE" (codes ":9090") needs_loopback
unfolding load ◌>>=◌ ◌>>◌ reject_if text_eq trim_space index_byte
plaintext_is_refused = refl

load-IsInRange_example : IsInRange served
load-IsInRange_example = load-IsInRange (on production) served production_loads

load-IsGuarded_example : IsGuarded (on production) served
load-IsGuarded_example = load-IsGuarded (on production) served production_loads

load-IsProfiled_example : IsProfiled (on production) served
load-IsProfiled_example = load-IsProfiled (on production) served production_loads

abbrev two_keys : List JwtKey
two_keys =
    record { kid = codes "k2"; secret = codes "new:secret" }
    ∷ record { kid = codes "k1"; secret = codes "old" }
    ∷ []

parse-join_example : parse_jwt_keys "AUTH_JWT_KEYS" (join_jwt_keys two_keys) ≡ loaded two_keys
unfolding contains_string text_eq trim_space
parse-join_example =
    parse-join "AUTH_JWT_KEYS" (record { kid = codes "k2"; secret = codes "new:secret" })
      (record { kid = codes "k1"; secret = codes "old" } ∷ []) (ground arith) (ground arith)

defaults_are_loaded : load (unset (on [])) ≡ loaded default_config
unfolding text_eq
defaults_are_loaded = load_default (on []) (λ c h k. ground arith) refl refl
