-- ===== src/Config/Secure.antt =====
-- What a configuration that `Load` of internal/config/config.go returns guarantees: its numbers are in
-- their ranges, and it is safe to serve with.
use go_max_tech_stack.Config.{JwtKey, JwtConfig, CorsConfig, SecurityHeadersConfig, RuntimeConfig}
use go_max_tech_stack.Config.Loading.{
  Post, returns, ends, Post-bind, Post-then, Post-any, Post-if, and-false, not-false,
}
use go_max_tech_stack.Config.Lookup.{Platform, one_of}
use go_max_tech_stack.Config.Ranges.{IsPositive, IsNonNegative, lookup_duration_non_negative-Post}
use go_max_tech_stack.Text.{Text, text_eq, trim_space, codes, index_byte}
use go_max_tech_stack.Prelude.{
  List, List-cases, Option-cases, String, [], false, inl, inr, refl, subst, true, ◌∷◌, ◌≡◌, ◌⊎◌,
}
use go_max_tech_stack.Config.Items.{contains_string, parse_jwt_keys, parse_key, parse_keys}
use go_max_tech_stack.Config.Checks.{environments, is_empty_list, referrer_policies}
use go_max_tech_stack.Config.Load.{load_cors, load_jwt, load_security_headers}
use go_max_tech_stack.Config.Servers.{load_runtime}

-- The kids are not empty, and none is among those before it; a secret is not blank.
abbrev pub Apart : List Text → List JwtKey → Type 0
Apart seen [] = Unit
Apart seen (k ∷ ks) =
    (text_eq k.kid [] ≡ false)
    × (text_eq (trim_space k.secret) [] ≡ false)
    × (contains_string seen k.kid ≡ false)
    × Apart (k.kid ∷ seen) ks

abbrev pub IsKeySet : List JwtKey → Type 0
IsKeySet ks = (is_empty_list ks ≡ false) × Apart [] ks

IsKey : List Text → JwtKey → Type 0
IsKey seen k =
    (text_eq k.kid [] ≡ false)
    × (text_eq (trim_space k.secret) [] ≡ false)
    × (contains_string seen k.kid ≡ false)

parse_key-Post :
    (key : String) (v : Text) (seen : List Text) (item : Text)
    → Post (IsKey seen) (parse_key key v seen item)
unfolding IsKey parse_key
parse_key-Post key v seen item = elim (Option-cases (index_byte b':' item)) [
  | inl e ↦ rw (e, parse_key) ends
  | inr (i, e) ↦
      rw (e, parse_key)
        (Post-then (Post-if _ _ _ _) (λ shape. Post-then (Post-if _ _ _ _) (λ kid.
          Post-then (Post-if _ _ _ _)
            (λ sec. Post-then (Post-if _ _ _ _) (λ new. returns (kid, sec, new))))))
]

parse_keys-Post :
    (key : String) (v : Text) (items seen : List Text)
    → Post (Apart seen) (parse_keys key v seen items)
unfolding parse_keys IsKey
parse_keys-Post key v [] seen = returns tt
parse_keys-Post key v (item ∷ items) seen = Post-bind (parse_key-Post key v seen item) (λ k hk.
    Post-bind (parse_keys-Post key v items (k.kid ∷ seen))
      (λ out ho. returns (hk.0, hk.1, hk.2, ho)))

pub parse_jwt_keys-Post : (key : String) (v : Text) → Post IsKeySet (parse_jwt_keys key v)
unfolding parse_jwt_keys
parse_jwt_keys-Post key v = Post-bind Post-any (λ items hi.
    Post-bind (parse_keys-Post key v items []) (λ out ho. elim (List-cases out) [
      | inl e ↦ rw e ends
      | inr (k, ks, e) ↦ rw e (returns (refl, subst (Apart []) e ho))
    ]))

-- The algorithm is HS256, the skew is no negative time, and the keys are apart.
abbrev pub IsVerifying : JwtConfig → Type 0
IsVerifying c =
    (text_eq (trim_space c.allowed_alg) (codes "HS256") ≡ true)
    × IsNonNegative c.clock_skew
    × IsKeySet c.keys

abbrev pub IsSharing : CorsConfig → Type 0
IsSharing c =
    IsNonNegative c.max_age
    × ((c.allow_credentials ≡ false) ⊎ (contains_string c.allowed_origins (codes "*") ≡ false))

abbrev pub IsHardened : SecurityHeadersConfig → Type 0
IsHardened c =
    (one_of (trim_space c.referrer_policy) referrer_policies ≡ true)
    × ((c.hsts.enable ≡ false) ⊎ IsPositive c.hsts.max_age)

module _ (p : Platform) where
  pub load_runtime-Post :
      (d : RuntimeConfig) → Post (λ c. one_of c.environment environments ≡ true) (load_runtime p d)
  unfolding load_runtime
  load_runtime-Post d =
      Post-bind Post-any (λ raw h. Post-then (Post-if _ _ _ _) (λ e. returns (not-false e)))

  pub load_jwt-Post : (d : JwtConfig) → IsNonNegative d.clock_skew → Post IsVerifying (load_jwt p d)
  unfolding load_jwt
  load_jwt-Post d h = Post-bind Post-any (λ alg ha. Post-then (Post-if _ _ _ _) (λ hs.
      Post-bind (lookup_duration_non_negative-Post p _ _ h) (λ b hb. Post-bind Post-any (λ c hc.
        Post-bind Post-any (λ e he. Post-bind Post-any (λ raw hr.
          Post-bind (parse_jwt_keys-Post _ raw) (λ keys hk. returns (not-false hs, hb, hk))))))))

  pub load_cors-Post : (d : CorsConfig) → IsNonNegative d.max_age → Post IsSharing (load_cors p d)
  unfolding load_cors
  load_cors-Post d h = Post-bind Post-any (λ a ha. Post-bind Post-any (λ b hb.
      Post-bind Post-any (λ c hc. Post-bind Post-any (λ e he.
        Post-bind (lookup_duration_non_negative-Post p _ _ h)
          (λ f hf. Post-then (Post-if _ _ _ _) (λ k. returns (hf, and-false k)))))))

  pub load_security_headers-Post :
      (d : SecurityHeadersConfig) → Post IsHardened (load_security_headers p d)
  unfolding load_security_headers
  load_security_headers-Post d = Post-bind Post-any (λ a ha. Post-bind Post-any (λ b hb.
      Post-then (Post-if _ _ _ _) (λ policy. Post-bind Post-any (λ c hc.
        Post-bind Post-any
          (λ e he. Post-then (Post-if _ _ _ _) (λ h. returns (not-false policy, and-false h)))))))
