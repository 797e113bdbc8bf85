-- ===== src/Security/Guarded.antt =====
-- What the middleware of internal/middleware/authorization.go and rbac.go lets through.
use go_max_tech_stack.Security.{
  unauthorized_from_verify_err, Principal, RouteRule, AccessLevel, access_public,
  access_authenticated, access_admin_only, other_access, is_admin, Role, admin,
}
use go_max_tech_stack.Security.Access.{
  fields_from, inc_authn, authn_kind_or_other, Request, Counters, AppHandler, authorize, rule_for,
  check_access, principal_missing, authenticate, parse_bearer_token, parse_words,
}
use go_max_tech_stack.Failure.{
  Failure, forbidden_for, no_policy_rule, admin_required, unknown_access, same, invalid, missing,
  unauthorized,
}
use go_max_tech_stack.Failure.Result.{Result, err, ok, Result-cases}
use go_max_tech_stack.Prelude.{
  Bool-cases, List, Option-cases, arith, false, inl, inr, none, refl, some, str_eq, true, ◌∙◌, ◌≡◌,
  ◌⊎◌, ◌+◌, ℕ, Bool, ap, [], ◌∷◌,
}
use go_max_tech_stack.Security.Jwt.{HmacKey, JwtParser, JwtVerifier, verify}
use go_max_tech_stack.Security.Tokens.{Vouched, verify_sound}
use go_max_tech_stack.Text.{Text, text_eq, trim_space}

pub Role-cases : (x : Role) → is_admin x ≡ true → x ≡ admin
Role-cases x h = ground (arith, h)

-- The rule of a route lets the request through.
pub data Grants (r : Request) : AccessLevel → Type 0 where
  open_to_all : Grants r access_public
  known : (p : Principal) → r.principal ≡ some p → Grants r access_authenticated
  administers : (p : Principal) → r.principal ≡ some p → p.role ≡ admin → Grants r access_admin_only

-- Why it does not: the error, and whether it is counted as forbidden.
pub data Denies (r : Request) : AccessLevel → Failure → Bool → Type 0 where
  nobody_known : r.principal ≡ none → Denies r access_authenticated principal_missing false
  nobody_administers : r.principal ≡ none → Denies r access_admin_only principal_missing false
  not_admin :
      (p : Principal)
      → r.principal ≡ some p
      → is_admin p.role ≡ false
      → Denies r access_admin_only (forbidden_for admin_required) true
  unknown : (n : ℕ) → Denies r (other_access n) (forbidden_for unknown_access) true

module _ {S : Type 0} (handler : AppHandler S) where
  -- The handler's state is as it was, and the refusal may be counted.
  abbrev pub refusal : Failure → Bool → Counters × S → (Counters × S) × Result (Unit {0})
  refusal e true (c, s) = ((record c { forbidden_total = c.forbidden_total + 1 }, s), err e)
  refusal e false s = (s, err e)

  abbrev Checked : AccessLevel → Request → Counters × S → Type 0
  Checked a r s =
      (Grants r a × (check_access a handler r s ≡ handler r s))
      ⊎ ((e : Failure) × (k : Bool) × Denies r a e k × (check_access a handler r s ≡ refusal e k s))

  check_access_exact : (a : AccessLevel) (r : Request) (s : Counters × S) → Checked a r s
  unfolding check_access
  check_access_exact access_public r s = inl (open_to_all, refl)
  check_access_exact access_authenticated r s = elim (Option-cases r.principal) [
    | inl n ↦ inr (principal_missing, false, nobody_known n, simp (n, check_access))
    | inr (p, n) ↦ inl (known p n, simp (n, check_access))
  ]
  check_access_exact access_admin_only r s = elim (Option-cases r.principal) [
    | inl n ↦ inr (principal_missing, false, nobody_administers n, simp (n, check_access))
    | inr (p, n) ↦ elim (Bool-cases (is_admin p.role)) [
      | inl b ↦ inl (administers p n (Role-cases p.role b), simp (n, check_access, b))
      | inr b ↦ inr (_, true, not_admin p n b, simp (n, check_access, b))
    ]
  ]
  check_access_exact (other_access n) r s = inr (_, true, unknown n, refl)

  -- A request that is not an OPTIONS request and whose route is known reaches the handler exactly
  -- when a rule of its route grants it; else the handler is not run, the error says why, and the
  -- refusals that are counted are those of a missing rule, a missing role and an unknown level.
  pub authorize_exact :
      (rules : List RouteRule) (r : Request) (s : Counters × S)
      → str_eq r.method "OPTIONS" ≡ false
      → str_eq r.pattern "" ≡ false
      → ((rule_for r.pattern rules ≡ none)
          × (authorize rules handler r s ≡ refusal (forbidden_for no_policy_rule) true s))
        ⊎ ((rule : RouteRule) × (rule_for r.pattern rules ≡ some rule)
            × ((Grants r rule.access × (authorize rules handler r s ≡ handler r s))
                ⊎ ((e : Failure) × (k : Bool) × Denies r rule.access e k
                    × (authorize rules handler r s ≡ refusal e k s))))
  unfolding authorize
  authorize_exact rules r s m p = elim (Option-cases (rule_for r.pattern rules)) [
    | inl n ↦ inl (n, rw (m, p) (rw (n, authorize) refl))
    | inr (rule, n) ↦
        let same : authorize rules handler r s ≡ check_access rule.access handler r s =
          rw (m, p) (rw (n, authorize) refl) in
        elim (check_access_exact rule.access r s) [
          | inl (g, q) ↦ inr (rule, n, inl (g, same ∙ q))
          | inr (e, k, d, q) ↦ inr (rule, n, inr (e, k, d, same ∙ q))
        ]
  ]

  pub refusal-keeps :
      (e : Failure) (k : Bool) (s : Counters × S)
      → ((refusal e k s).0.1 ≡ s.1) × ((refusal e k s).1 ≡ err e)
  refusal-keeps e true (c, s) = (refl, refl)
  refusal-keeps e false s = (refl, refl)

  granted_admin :
      (r : Request) (a : AccessLevel)
      → Grants r a
      → a ≡ access_admin_only
      → (p : Principal) × (r.principal ≡ some p) × (p.role ≡ admin)
  granted_admin r access_public open_to_all e = cc e
  granted_admin r access_authenticated (known p n) e = cc e
  granted_admin r access_admin_only (administers p n q) e = (p, n, q)
  granted_admin r (other_access n) g e = elim g [ ]

  -- The three ends of authentication.
  pub authenticate-cases :
      (check_token : Text → Result Principal) (r : Request) (s : Counters × S)
      → str_eq r.method "OPTIONS" ≡ false
      → let out = authenticate check_token handler r s in
        ((token : Text) × (p : Principal) × (parse_bearer_token r.authorization ≡ ok token)
          × (check_token token ≡ ok p)
          × (out ≡ handler (record r { principal = some p }) s))
        ⊎ ((e : Failure) × (out.1 ≡ err e) × (out.0.1 ≡ s.1))
  unfolding authenticate
  authenticate-cases check_token r (c, s) m =
      elim (Result-cases (parse_bearer_token r.authorization)) [
        | inr (e, n) ↦ inr (e, simp (m, n), simp (m, n))
        | inl (token, n) ↦ elim (Result-cases (check_token token)) [
          | inr (e, q) ↦ inr (unauthorized_from_verify_err e, simp (m, n, q), simp (m, n, q))
          | inl (p, q) ↦ inl (token, p, n, q, simp (m, n, q))
        ]
      ]

module _ (jwt : JwtParser) (v : JwtVerifier) (decode : Text → jwt.Token) {S : Type 0}
    (handler : AppHandler S) where
  -- A route for administrators, behind both parts of the middleware: its handler is run only for a
  -- request with a bearer token that one of the verifier's keys has signed for an administrator,
  -- and then as that principal; any other request that is not an OPTIONS request gets an error and
  -- leaves the handler's state as it was.
  pub admin_route_guarded :
      (rules : List RouteRule) (rule : RouteRule) (r : Request) (s : Counters × S)
      → str_eq r.method "OPTIONS" ≡ false
      → str_eq r.pattern "" ≡ false
      → rule_for r.pattern rules ≡ some rule
      → rule.access ≡ access_admin_only
      → let out = authenticate (λ t. verify jwt v (decode t)) (authorize rules handler) r s in
        ((token : Text) × (p : Principal) × (k : HmacKey) × (parse_bearer_token r.authorization
            ≡ ok token)
          × Vouched jwt v (decode token) k p
          × (p.role ≡ admin)
          × (out ≡ handler (record r { principal = some p }) s))
        ⊎ ((e : Failure) × (out.1 ≡ err e) × (out.0.1 ≡ s.1))
  admin_route_guarded rules rule r s m n found a =
      elim (authenticate-cases (authorize rules handler) (λ t. verify jwt v (decode t)) r s m) [
        | inr stopped ↦ inr stopped
        | inl (token, p, parsed, checked, same) ↦
            let r' = record r { principal = some p } in
            elim (authorize_exact handler rules r' s m n) [
              | inl (gone, q) ↦ cc
              | inr (rule', found', inl (g, q)) ↦
                  let (p', known_as, is_one) =
                    granted_admin handler r' rule'.access g (ground (arith, found, found', a)) in
                  let vouched = (verify_sound jwt v (decode token) p checked).0 in
                  inl (
                    token,
                    p,
                    vouched.0,
                    parsed,
                    vouched.1,
                    ground (arith, known_as, is_one),
                    same ∙ q,
                  )
              | inr (rule', found', inr (e, k, d, q)) ↦
                  let kept = refusal-keeps handler e k s in
                  inr (e, ap (λ x. x.1) (same ∙ q) ∙ kept.1, ap (λ x. x.0.1) (same ∙ q) ∙ kept.0)
            ]
      ]

-- What is wrong with a header that cannot be parsed.
parse_words-err :
    (words : List Text) (e : Failure) → parse_words words ≡ err e → e ≡ unauthorized invalid
unfolding parse_words
parse_words-err [] e h = ground (arith, h)
parse_words-err (w ∷ []) e h = ground (arith, h)
parse_words-err (scheme ∷ word ∷ []) e h = ground (arith, h)
parse_words-err (a ∷ b ∷ c ∷ rest) e h = ground (arith, h)

parse_bearer_token-err :
    (header : Text) (e : Failure)
    → parse_bearer_token header ≡ err e
    → (e ≡ unauthorized missing) ⊎ (e ≡ unauthorized invalid)
unfolding parse_bearer_token
parse_bearer_token-err header e h = elim (Bool-cases (text_eq (trim_space header) [])) [
  | inl b ↦ inl (ground (arith, b, h))
  | inr b ↦ inr (parse_words-err (fields_from [] (trim_space header)) e (ground (arith, b, h)))
]

-- A header that cannot be parsed is counted under "other", whatever is wrong with it: the error has
-- no AuthNError in its chain, so neither "missing" nor "invalid" counts it.
unparsed_counts_other :
    {S : Type 0} (check_token : Text → Result Principal) (handler : AppHandler S)
    → (r : Request) (s : Counters × S) (e : Failure) → str_eq r.method "OPTIONS" ≡ false
    → parse_bearer_token r.authorization ≡ err e
    → authenticate check_token handler r s ≡ ((inc_authn "other" s.0, s.1), err e)
unfolding authenticate
unparsed_counts_other check_token handler r s e m n =
    let other : authn_kind_or_other e ≡ "other" =
      elim (parse_bearer_token-err r.authorization e n) [
        | inl q ↦ unfold authn_kind_or_other in rw q refl
        | inr q ↦ unfold authn_kind_or_other in rw q refl
      ] in
    simp (m, n, other)
