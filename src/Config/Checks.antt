-- ===== src/Config/Checks.antt =====
-- What internal/config/config.go checks of the values together: the validate functions.
use go_max_tech_stack.Config.{Config, JwtConfig, JwtKey, ProxyConfig, Prefix}
use go_max_tech_stack.Config.Loading.{
  Loading, loaded, reject_if, ◌>>◌, unsupported, development_secret, short_secret, is_required,
  below_tls_12, headers_disabled, trusts_everyone,
}
use go_max_tech_stack.Config.Lookup.{Platform, one_of}
use go_max_tech_stack.Config.Defaults.{
  environment_development, environment_test, environment_staging, environment_production,
  minimum_tls_version,
}
use go_max_tech_stack.Text.{Text, codes, text_eq, trim_space}
use go_max_tech_stack.Prelude.{
  ◌&&◌, ◌+◌, Bool, List, [], false, if◌then◌else◌, is_zero, ltb, map, not, true, ◌||◌, ℕ, ◌∷◌,
}

abbrev pub environments : List Text
environments =
    environment_development ∷ environment_test ∷ environment_staging ∷ environment_production ∷ []

unfoldable pub validate_environment : Text → Loading (Unit {0})
unfolding one_of
validate_environment env = reject_if (not (one_of env environments)) "APP_ENV" env unsupported

abbrev pub is_protected_environment : Text → Bool
is_protected_environment env = text_eq env environment_staging || text_eq env environment_production

abbrev pub referrer_policies : List Text
referrer_policies =
    codes "no-referrer"
    ∷ codes "no-referrer-when-downgrade"
    ∷ codes "origin"
    ∷ codes "origin-when-cross-origin"
    ∷ codes "same-origin"
    ∷ codes "strict-origin"
    ∷ codes "strict-origin-when-cross-origin"
    ∷ codes "unsafe-url"
    ∷ []

unfoldable pub validate_referrer_policy : Text → Loading (Unit {0})
unfolding one_of
validate_referrer_policy policy =
    reject_if (not (one_of (trim_space policy) referrer_policies))
      "SECURITY_HEADERS_REFERRER_POLICY" policy unsupported

unfoldable pub validate_jwt_alg : Text → Loading (Unit {0})
validate_jwt_alg alg =
    reject_if (not (text_eq (trim_space alg) (codes "HS256"))) "AUTH_JWT_ALLOWED_ALG" alg
      unsupported

-- `len([]byte(s))`: the bytes of each character in UTF-8.
abbrev pub utf8_len : ℕ → ℕ
utf8_len c = if ltb c 128 then 1 else if ltb c 2048 then 2 else if ltb c 65536 then 3 else 4

unfoldable pub byte_length : Text → ℕ
byte_length [] = 0
byte_length (c ∷ s) = utf8_len c + byte_length s

-- The loop of ValidateTrustedProxyRequirements.
unfoldable pub check_proxies : List Prefix → Loading (Unit {0})
check_proxies [] = loaded tt
check_proxies (proxy ∷ rest) = do
  reject_if (is_zero proxy.bits) "PROXY_TRUSTED_PROXIES" proxy.text trusts_everyone
  check_proxies rest

abbrev pub is_empty_list {ℓ} : {A : Type ℓ} → List A → Bool
is_empty_list [] = true
is_empty_list (x ∷ xs) = false

unfoldable pub validate_trusted_proxy_requirements : ProxyConfig → Loading (Unit {0})
unfolding check_proxies
validate_trusted_proxy_requirements cfg =
    if not cfg.trust_xff && not cfg.trust_xfp then loaded tt else do
      reject_if (is_empty_list cfg.trusted_proxies) "PROXY_TRUSTED_PROXIES" [] is_required
      check_proxies cfg.trusted_proxies

-- The loop of validateProtectedJWT.
unfoldable pub check_lengths : List JwtKey → Loading (Unit {0})
unfolding byte_length
check_lengths [] = loaded tt
check_lengths (k ∷ ks) = do
  reject_if (ltb (byte_length k.secret) 32) "AUTH_JWT_KEYS" k.kid short_secret
  check_lengths ks

unfoldable pub validate_protected_jwt : JwtConfig → Loading (Unit {0})
unfolding check_lengths
validate_protected_jwt jwt = do
  reject_if (text_eq (trim_space jwt.issuer) []) "AUTH_JWT_ISSUER" [] is_required
  reject_if (text_eq (trim_space jwt.audience) []) "AUTH_JWT_AUDIENCE" [] is_required
  check_lengths jwt.keys

module _ (p : Platform) where
  open p use {lower}

  abbrev pub development_secrets : List Text
  development_secrets =
      codes "dev-secret"
      ∷ codes "test-secret"
      ∷ codes "local-secret"
      ∷ codes "secret"
      ∷ codes "password"
      ∷ codes "changeme"
      ∷ codes "change-me"
      ∷ []

  unfoldable pub is_development_jwt_secret : Text → Bool
  unfolding one_of
  is_development_jwt_secret secret = one_of (map lower (trim_space secret)) development_secrets

  -- The loop of validateJWTEnvironment.
  unfoldable pub check_secrets : List JwtKey → Loading (Unit {0})
  unfolding is_development_jwt_secret
  check_secrets [] = loaded tt
  check_secrets (k ∷ ks) = do
    reject_if (is_development_jwt_secret k.secret) "AUTH_JWT_KEYS" k.kid development_secret
    check_secrets ks

  unfoldable pub validate_jwt_environment : Text → JwtConfig → Loading (Unit {0})
  unfolding check_secrets
  validate_jwt_environment env jwt =
      if text_eq env environment_development then loaded tt else check_secrets jwt.keys

  unfoldable pub validate_protected : Config → Loading (Unit {0})
  unfolding validate_protected_jwt
  validate_protected cfg = do
    reject_if (ltb cfg.http.tls.min_version minimum_tls_version) "HTTP_TLS_MIN_VERSION" []
        below_tls_12
    reject_if (not cfg.security_headers.enable) "SECURITY_HEADERS_ENABLE" [] headers_disabled
    validate_protected_jwt cfg.auth.jwt

  unfoldable pub validate_security_profile : Config → Loading (Unit {0})
  unfolding validate_jwt_environment validate_trusted_proxy_requirements validate_protected
  validate_security_profile cfg = do
    validate_jwt_environment cfg.runtime.environment cfg.auth.jwt
    validate_trusted_proxy_requirements cfg.proxy
    if not (is_protected_environment cfg.runtime.environment)
        then loaded tt
        else validate_protected cfg
