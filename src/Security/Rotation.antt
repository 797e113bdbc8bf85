-- ===== src/Security/Rotation.antt =====
-- The rotation of the keys of internal/security/jwt_verifier_hs256.go.
use go_max_tech_stack.Security.{Principal}
use go_max_tech_stack.Security.Jwt.{
  JwtParser, JwtVerifier, HmacKey, absent, alg_allowed, key_by_kid, key_given,
  principal_from_claims, try_verify_by_kid, try_verify_with_key, try_keys, verify,
}
use go_max_tech_stack.Failure.Result.{ok, err}
use go_max_tech_stack.Text.{Text}
use go_max_tech_stack.Prelude.{Bool-cases, List, [], ap, arith, inl, inr, refl, true, ◌∷◌, ◌≡◌}
use go_max_tech_stack.Failure.{Failure, no_kid}
use go_max_tech_stack.Security.Tokens.{Occurs}

module _ (jwt : JwtParser) (v : JwtVerifier) where
  open jwt use {Token, parse, header, claims, signed_by, current}

  try_with-signer :
      (t : Token) (secret : Text) (p : Principal)
      → alg_allowed v (header t) ≡ true
      → signed_by t secret ≡ true
      → current t ≡ true
      → principal_from_claims (claims t) ≡ ok p
      → try_verify_with_key jwt v t secret ≡ ok p
  unfolding try_verify_with_key key_given
  try_with-signer t secret p a s n w =
      rw (jwt.accepts (key_given v secret) t secret (rw a refl) s n, try_verify_with_key) w

  keys_find :
      (t : Token) (keys : List HmacKey) (k : HmacKey) (last : Failure) (p : Principal)
      → Occurs k keys
      → alg_allowed v (header t) ≡ true
      → signed_by t k.secret ≡ true
      → current t ≡ true
      → principal_from_claims (claims t) ≡ ok p
      → try_keys jwt v t keys last ≡ ok p
  unfolding try_keys
  keys_find t [] k last p o a s n w = elim o [ ]
  keys_find t (x ∷ rest) k last p o a s n w = elim (Bool-cases (signed_by t x.secret)) [
    | inl b ↦ rw (try_with-signer t x.secret p a b n w, try_keys) refl
    | inr b ↦ elim o [
      | inl same_key ↦ ground (arith, ap (λ (y : HmacKey). signed_by t y.secret) same_key, b, s)
      | inr o' ↦
          let (f, refused, invalid_signature) =
            jwt.refuses_signature (key_given v x.secret) t x.secret (unfold key_given in rw a refl)
              b in
          let tried : try_verify_with_key jwt v t x.secret ≡ err f =
            unfold try_verify_with_key in rw (refused, try_verify_with_key) refl in
          rw (tried, try_keys) (rw invalid_signature (keys_find t rest k f p o' a s n w))
    ]
  ]

  -- Keys can be rotated: a current token without a key id is accepted whichever of the verifier's
  -- keys has signed it, as the principal that its claims name.
  pub verify_rotates :
      (t : Token) (k : HmacKey) (p : Principal)
      → Occurs k v.keys
      → alg_allowed v (header t) ≡ true
      → (header t).kid ≡ absent
      → signed_by t k.secret ≡ true
      → current t ≡ true
      → principal_from_claims (claims t) ≡ ok p
      → verify jwt v t ≡ ok p
  unfolding verify
  verify_rotates t k p o a absent_kid s n w =
      let (f, refused, none_there) =
        jwt.refuses_key (key_by_kid v) t no_kid (unfold key_by_kid in rw (a, absent_kid) refl) in
      let tried : try_verify_by_kid jwt v t ≡ err f =
        unfold try_verify_by_kid in rw (refused, try_verify_by_kid) refl in
      rw (tried, verify) (rw none_there (keys_find t v.keys k _ p o a s n w))
