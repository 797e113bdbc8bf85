-- ===== src/Config/Profile.antt =====
-- validateSecurityProfile of internal/config/config.go: what it lets pass.
use go_max_tech_stack.Config.{Config, JwtConfig, JwtKey, Prefix, ProxyConfig}
use go_max_tech_stack.Config.Loading.{
  Post, returns, Post-then, Post-if, Post-ite, Post-weaken, not-false, neither, not_ltb, true-not,
}
use go_max_tech_stack.Config.Lookup.{Platform}
use go_max_tech_stack.Text.{Text, text_eq, trim_space}
use go_max_tech_stack.Prelude.{
  ◌&&◌, All, List, [], false, inl, inr, is_zero, not, true, ◌∷◌, ◌≡◌, ◌≤◌, ◌⊎◌,
}
use go_max_tech_stack.Config.Checks.{
  byte_length, check_lengths, check_proxies, check_secrets, is_development_jwt_secret,
  is_empty_list, is_protected_environment, validate_jwt_environment, validate_protected,
  validate_security_profile, validate_trusted_proxy_requirements,
}
use go_max_tech_stack.Config.Defaults.{environment_development}

abbrev pub AreNarrow : List Prefix → Type 0
AreNarrow = All (λ r. is_zero r.bits ≡ false)

-- A header of a proxy is trusted only from listed ranges, none of which is every address.
abbrev pub IsTrusting : ProxyConfig → Type 0
IsTrusting c =
    ((c.trust_xff ≡ false) × (c.trust_xfp ≡ false))
    ⊎ ((is_empty_list c.trusted_proxies ≡ false) × AreNarrow c.trusted_proxies)

check_proxies-Post : (rs : List Prefix) → Post (λ u. AreNarrow rs) (check_proxies rs)
unfolding check_proxies
check_proxies-Post [] = returns tt
check_proxies-Post (r ∷ rs) =
    Post-then (Post-if _ _ _ _) (λ h. Post-weaken (check_proxies-Post rs) (λ u k. (h, k)))

validate_trusted_proxy_requirements-Post :
    (c : ProxyConfig) → Post (λ u. IsTrusting c) (validate_trusted_proxy_requirements c)
unfolding validate_trusted_proxy_requirements
validate_trusted_proxy_requirements-Post c =
    Post-ite (not c.trust_xff && not c.trust_xfp) (λ e. returns (inl (neither e)))
      (λ e. Post-then (Post-if _ _ _ _) (λ listed.
        Post-weaken (check_proxies-Post c.trusted_proxies) (λ u narrow. inr (listed, narrow))))

abbrev pub AreLong : List JwtKey → Type 0
AreLong = All (λ k. 32 ≤ byte_length k.secret)

check_lengths-Post : (ks : List JwtKey) → Post (λ u. AreLong ks) (check_lengths ks)
unfolding check_lengths
check_lengths-Post [] = returns tt
check_lengths-Post (k ∷ ks) =
    Post-then (Post-if _ _ _ _)
      (λ h. Post-weaken (check_lengths-Post ks) (λ u r. (not_ltb (byte_length k.secret) 32 h, r)))

-- What staging and production ask for.
abbrev pub IsFit : Config → Type 0
IsFit c =
    (771 ≤ c.http.tls.min_version)
    × (c.security_headers.enable ≡ true)
    × (text_eq (trim_space c.auth.jwt.issuer) [] ≡ false)
    × (text_eq (trim_space c.auth.jwt.audience) [] ≡ false)
    × AreLong c.auth.jwt.keys

module _ (p : Platform) where
  abbrev pub AreSecret : List JwtKey → Type 0
  AreSecret = All (λ k. is_development_jwt_secret p k.secret ≡ false)

  check_secrets-Post : (ks : List JwtKey) → Post (λ u. AreSecret ks) (check_secrets p ks)
  unfolding check_secrets
  check_secrets-Post [] = returns tt
  check_secrets-Post (k ∷ ks) =
      Post-then (Post-if _ _ _ _) (λ h. Post-weaken (check_secrets-Post ks) (λ u r. (h, r)))

  -- No secret of the development is used elsewhere, proxies are listed to be trusted, and a protected
  -- environment is fit.
  abbrev pub IsProfiled : Config → Type 0
  IsProfiled c =
      ((text_eq c.runtime.environment environment_development ≡ true) ⊎ AreSecret c.auth.jwt.keys)
      × IsTrusting c.proxy
      × ((is_protected_environment c.runtime.environment ≡ false) ⊎ IsFit c)

  validate_jwt_environment-Post :
      (env : Text) (c : JwtConfig)
      → Post
          (λ u. (text_eq env environment_development ≡ true) ⊎ AreSecret c.keys)
          (validate_jwt_environment p env c)
  unfolding validate_jwt_environment
  validate_jwt_environment-Post env c =
      Post-ite (text_eq env environment_development) (λ e. returns (inl e))
        (λ e. Post-weaken (check_secrets-Post c.keys) (λ u h. inr h))

  validate_protected-Post : (c : Config) → Post (λ u. IsFit c) (validate_protected p c)
  unfolding validate_protected
  validate_protected-Post c = Post-then (Post-if _ _ _ _) (λ tls.
      Post-then (Post-if _ _ _ _) (λ headers. Post-then (Post-if _ _ _ _) (λ issuer.
        Post-then (Post-if _ _ _ _) (λ audience.
          Post-weaken (check_lengths-Post c.auth.jwt.keys) (λ u long.
            (not_ltb c.http.tls.min_version 771 tls, not-false headers, issuer, audience, long))))))

  pub validate_security_profile-Post :
      (c : Config) → Post (λ u. IsProfiled c) (validate_security_profile p c)
  unfolding validate_security_profile
  validate_security_profile-Post c =
      Post-then (validate_jwt_environment-Post c.runtime.environment c.auth.jwt) (λ secret.
        Post-then (validate_trusted_proxy_requirements-Post c.proxy) (λ trust.
          Post-ite (not (is_protected_environment c.runtime.environment))
            (λ e. returns (secret, trust, inl (true-not e)))
            (λ e. Post-weaken (validate_protected-Post c) (λ u fit. (secret, trust, inr fit)))))
