-- ===== src/Security/Tokens.antt =====
-- Which tokens the verifier of internal/security/jwt_verifier_hs256.go accepts, and as whom.
use go_max_tech_stack.Security.{Principal, Role, admin, user}
use go_max_tech_stack.Security.Jwt.{
  JwtParser, JwtVerifier, HmacKey, Header, Kid, absent, not_text, text, secret_of, alg_allowed,
  key_by_kid, key_given, principal_from_claims, try_verify_by_kid, try_verify_with_key, Claims,
  role_of, try_keys, verify,
}
use go_max_tech_stack.Failure.Result.{Result-cases, ok}
use go_max_tech_stack.Text.{Text, codes}
use go_max_tech_stack.Prelude.{
  Bool-cases, List, Option-cases, String, [], ap, arith, inl, inr, refl, some, str_eq, str_eq_iff,
  subst, sym, true, ◌∙◌, ◌∷◌, ◌≡◌, ◌⊎◌, ◌<◌, negsuc, pos, suc, zero, ℕ, ℤ,
}
use go_max_tech_stack.Failure.{Failure, is, token_signature_invalid, no_kid, sentinel}
use go_max_tech_stack.Decimal.{parse_int}

abbrev pub Occurs : HmacKey → List HmacKey → Type 0
Occurs k [] = ⊥
Occurs k (x ∷ rest) = (x ≡ k) ⊎ Occurs k rest

secret_of-some :
    (kid : String) (keys : List HmacKey) (secret : Text)
    → secret_of kid keys ≡ some secret
    → (k : HmacKey) × Occurs k keys × (k.kid ≡ kid) × (k.secret ≡ secret)
unfolding secret_of
secret_of-some kid [] secret h = cc
secret_of-some kid (x ∷ rest) secret h = elim (Bool-cases (str_eq x.kid kid)) [
  | inl e ↦ (x, inl refl, (str_eq_iff x.kid kid).0 e, ground (arith, e, h))
  | inr e ↦
      let (k, o, same_kid, same_secret) = secret_of-some kid rest secret (ground (arith, e, h)) in
      (k, inr o, same_kid, same_secret)
]

key_given-ok :
    (v : JwtVerifier) (secret : Text) (h : Header) (s : Text)
    → key_given v secret h ≡ ok s
    → (alg_allowed v h ≡ true) × (s ≡ secret)
unfolding key_given
key_given-ok v secret h s e = elim (Bool-cases (alg_allowed v h)) [
  | inl a ↦ (a, ground (arith, a, e))
  | inr a ↦ ground (arith, a, e)
]

Kid-cases : (k : Kid) → (k ≡ absent) ⊎ (k ≡ not_text) ⊎ ((s : String) × (k ≡ text s))
Kid-cases absent = inl refl
Kid-cases not_text = inr (inl refl)
Kid-cases (text s) = inr (inr (s, refl))

key_by_kid-ok :
    (v : JwtVerifier) (h : Header) (s : Text)
    → key_by_kid v h ≡ ok s
    → (alg_allowed v h ≡ true)
      × ((k : HmacKey) × Occurs k v.keys × (h.kid ≡ text k.kid) × (k.secret ≡ s))
unfolding key_by_kid
key_by_kid-ok v h s e = elim (Bool-cases (alg_allowed v h)) [
  | inr a ↦ ground (arith, a, e)
  | inl a ↦ elim (Kid-cases h.kid) [
    | inl k ↦ ground (arith, a, k, e)
    | inr (inl k) ↦ ground (arith, a, k, e)
    | inr (inr (kid, k)) ↦ elim (Bool-cases (str_eq kid "")) [
      | inl b ↦ ground (arith, a, k, b, e)
      | inr b ↦ elim (Option-cases (secret_of kid v.keys)) [
        | inl n ↦ ground (arith, a, k, b, n, e)
        | inr (found, n) ↦
            let (key, o, same_kid, same_secret) = secret_of-some kid v.keys found n in
            (a, (key, o, k ∙ ap text (sym same_kid), same_secret ∙ ground (arith, a, k, b, n, e)))
      ]
    ]
  ]
]

module _ (jwt : JwtParser) (v : JwtVerifier) where
  open jwt use {Token, parse, header, claims, signed_by, current}

  -- Why a token is accepted.
  pub record Vouched (t : Token) (k : HmacKey) (p : Principal) : Type 0 where
    pub occurs : Occurs k v.keys
    pub alg : alg_allowed v (header t) ≡ true
    pub signed : signed_by t k.secret ≡ true
    pub now : current t ≡ true
    pub who : principal_from_claims (claims t) ≡ ok p

  with_key_sound :
      (t : Token) (k : HmacKey) (p : Principal)
      → Occurs k v.keys
      → try_verify_with_key jwt v t k.secret ≡ ok p
      → Vouched t k p
  unfolding try_verify_with_key
  with_key_sound t k p o h = elim (Result-cases (parse (key_given v k.secret) t)) [
    | inr (e, q) ↦ ground (arith, q, h)
    | inl (c, q) ↦
        let (s, given, signed, now, same_claims) = jwt.accepts_only (key_given v k.secret) t c q in
        let (alg, same_secret) = key_given-ok v k.secret (header t) s given in
        record {
          occurs = o;
          alg = alg;
          signed = subst (λ x. signed_by t x ≡ true) same_secret signed;
          now = now;
          who = subst (λ x. principal_from_claims x ≡ ok p) same_claims (ground (arith, q, h));
        }
  ]

  by_kid_sound :
      (t : Token) (p : Principal)
      → try_verify_by_kid jwt v t ≡ ok p
      → (k : HmacKey) × Vouched t k p × ((header t).kid ≡ text k.kid)
  unfolding try_verify_by_kid
  by_kid_sound t p h = elim (Result-cases (parse (key_by_kid v) t)) [
    | inr (e, q) ↦ ground (arith, q, h)
    | inl (c, q) ↦
        let (s, given, signed, now, same_claims) = jwt.accepts_only (key_by_kid v) t c q in
        let (alg, found) = key_by_kid-ok v (header t) s given in
        (
          found.0,
          record {
            occurs = found.1;
            alg = alg;
            signed = subst (λ x. signed_by t x ≡ true) (sym found.3) signed;
            now = now;
            who = subst (λ x. principal_from_claims x ≡ ok p) same_claims (ground (arith, q, h));
          },
          found.2,
        )
  ]

  keys_sound :
      (t : Token) (keys : List HmacKey) (last : Failure) (p : Principal)
      → ((k : HmacKey) → Occurs k keys → Occurs k v.keys)
      → try_keys jwt v t keys last ≡ ok p
      → (k : HmacKey) × Vouched t k p
  unfolding try_keys
  keys_sound t [] last p within h = cc h
  keys_sound t (x ∷ rest) last p within h =
      elim (Result-cases (try_verify_with_key jwt v t x.secret)) [
        | inl (q, e) ↦ (x, with_key_sound t x p (within x (inl refl)) (e ∙ ground (arith, e, h)))
        | inr (f, e) ↦ elim (Bool-cases (is f token_signature_invalid)) [
          | inl b ↦ keys_sound t rest f p (λ k o. within k (inr o)) (ground (arith, e, b, h))
          | inr b ↦ ground (arith, e, b, h)
        ]
      ]

role_of-shape : (s : String) (r : Role) → role_of s ≡ some r → (r ≡ user) ⊎ (r ≡ admin)
role_of-shape s r h = ground (arith, h)

ℤ-cases : (x : ℤ) → ((n : ℕ) × (x ≡ pos (suc n))) ⊎ ((x ≡ pos zero) ⊎ ((n : ℕ) × (x ≡ negsuc n)))
ℤ-cases (pos zero) = inr (inl refl)
ℤ-cases (pos (suc n)) = inl (n, refl)
ℤ-cases (negsuc n) = inr (inr (n, refl))

principal-shape :
    (c : Claims) (p : Principal)
    → principal_from_claims c ≡ ok p
    → (0 < p.user_id) × ((p.role ≡ user) ⊎ (p.role ≡ admin))
unfolding principal_from_claims
principal-shape c p h = elim (Bool-cases (str_eq c.subject "")) [
  | inl b ↦ ground (arith, b, h)
  | inr b ↦ elim (Option-cases (parse_int (codes c.subject))) [
    | inl n ↦ ground (arith, b, n, h)
    | inr (x, n) ↦ elim (ℤ-cases x) [
      | inl (k, m) ↦ elim (Option-cases (role_of c.role)) [
        | inl r ↦ ground (arith, b, n, m, r, h)
        | inr (role, r) ↦
            let same_p : record { user_id = suc k; role = role } ≡ p =
              ground (arith, b, n, m, r, h) in
            (ground (arith, same_p), ground (arith, same_p, role_of-shape c.role role r))
      ]
      | inr (inl m) ↦ ground (arith, b, n, m, h)
      | inr (inr (k, m)) ↦ ground (arith, b, n, m, h)
    ]
  ]
]

module _ (jwt : JwtParser) (v : JwtVerifier) where
  open jwt use {Token, parse, header, claims, signed_by, current}

  -- Who is let in was vouched for: an accepted token is signed by one of the verifier's keys with
  -- the allowed algorithm, is current, and names the principal in its claims, whose id is positive
  -- and whose role is one of the two.
  pub verify_sound :
      (t : Token) (p : Principal)
      → verify jwt v t ≡ ok p
      → ((k : HmacKey) × Vouched jwt v t k p)
        × (0 < p.user_id)
        × ((p.role ≡ user) ⊎ (p.role ≡ admin))
  unfolding verify
  verify_sound t p h =
      let vouched : (k : HmacKey) × Vouched jwt v t k p =
        elim (Result-cases (try_verify_by_kid jwt v t)) [
          | inl (q, e) ↦
              let found = by_kid_sound jwt v t p (e ∙ ground (arith, e, h)) in (found.0, found.1)
          | inr (f, e) ↦ elim (Bool-cases (is f no_kid)) [
            | inl b ↦
                keys_sound jwt v t v.keys (sentinel token_signature_invalid) p (λ k o. o)
                  (ground (arith, e, b, h))
            | inr b ↦ ground (arith, e, b, h)
          ]
        ] in
      let shape = principal-shape (claims t) p vouched.1.who in (vouched, shape.0, shape.1)
