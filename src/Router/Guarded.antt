-- ===== src/Router/Guarded.antt =====
-- What the middleware of internal/router/router.go lets through to the handlers of the API.
use go_max_tech_stack.Router.{
  Apis, Route, pattern_of, route_handler, wrap, only_get, by_id, users_collection, list_users_route,
  create_user_route, list_users_v2_route, create_user_v2_route, job_route, job_grpc_route,
  job_events_route, user_route, user_profile_route, user_export_route, users_route, users_v2_route,
}
use go_max_tech_stack.Middleware.{Overlap, BulkheadState, Limiter, RateLimited, rate_limiter}
use go_max_tech_stack.Security.{
  Principal, RouteRule, access_authenticated, access_admin_only, default_policy,
}
use go_max_tech_stack.Security.Access.{
  Request, AppHandler, Counters, authenticate, authorize, rule_for, parse_bearer_token,
}
use go_max_tech_stack.Security.Guarded.{Grants, authenticate-cases, authorize_exact, refusal-keeps}
use go_max_tech_stack.Failure.{Failure, method_not_allowed}
use go_max_tech_stack.Failure.Result.{Result, ok, err}
use go_max_tech_stack.Text.{Text}
use go_max_tech_stack.Prelude.{
  String, inl, inr, refl, some, ◌≡◌, ◌⊎◌, Bool-cases, ap, str_eq, str_eq_iff, sym, ◌∙◌, List, arith,
  false, subst, true,
}
use go_max_tech_stack.HttpErrors.{answer}
use go_max_tech_stack.Router.Layers.{bulkhead-Passes, rate_limiter-Passes}
use go_max_tech_stack.Router.Policy.{route_ruled, pattern_of-nonempty}

-- The methods that http.ServeMux sends to a pattern.
abbrev pub Matches : Route → String → Type 0
Matches list_users_route m = (m ≡ "GET") ⊎ (m ≡ "HEAD")
Matches list_users_v2_route m = (m ≡ "GET") ⊎ (m ≡ "HEAD")
Matches create_user_route m = m ≡ "POST"
Matches create_user_v2_route m = m ≡ "POST"
Matches route m = Unit

get_options : ◌≡◌ {A = String} "GET" "OPTIONS" → ⊥
get_options e = cc ((str_eq_iff "GET" "OPTIONS").1 e)

head_options : ◌≡◌ {A = String} "HEAD" "OPTIONS" → ⊥
head_options e = cc ((str_eq_iff "HEAD" "OPTIONS").1 e)

post_options : ◌≡◌ {A = String} "POST" "OPTIONS" → ⊥
post_options e = cc ((str_eq_iff "POST" "OPTIONS").1 e)

-- The middleware lets every OPTIONS request through.
options-through :
    {S : Type 0} (handler : AppHandler S) (check_token : Text → Result Principal)
    (rules : List RouteRule)
    → (r : Request) (s : Counters × S) → str_eq r.method "OPTIONS" ≡ true
    → authenticate check_token (authorize rules handler) r s ≡ handler r s
unfolding authenticate authorize
options-through handler check_token rules r s b = simp b

abbrev Refused : {T : Type 0} → T → T × Result (Unit {0}) → Type 0
Refused s out = (a : String) × (out ≡ (s, err (method_not_allowed a)))

module _ {S : Type 0} (apis : Apis S) where
  only_get-options :
      (handler : AppHandler S) (r : Request) (s : Counters × S)
      → r.method ≡ "OPTIONS"
      → Refused s (only_get handler r s)
  unfolding only_get
  only_get-options handler r s m = ("GET", rw m refl)

  -- No route does anything for an OPTIONS request.
  route_handler-options :
      (route : Route) (r : Request) (s : Counters × S)
      → r.method ≡ "OPTIONS"
      → Matches route r.method
      → Refused s (route_handler apis route r s)
  unfolding route_handler users_collection
  route_handler-options list_users_route r s m (inl g) = absurd (get_options (sym g ∙ m))
  route_handler-options list_users_route r s m (inr g) = absurd (head_options (sym g ∙ m))
  route_handler-options list_users_v2_route r s m (inl g) = absurd (get_options (sym g ∙ m))
  route_handler-options list_users_v2_route r s m (inr g) = absurd (head_options (sym g ∙ m))
  route_handler-options create_user_route r s m g = absurd (post_options (sym g ∙ m))
  route_handler-options create_user_v2_route r s m g = absurd (post_options (sym g ∙ m))
  route_handler-options job_route r s m g = only_get-options (by_id apis.get_job) r s m
  route_handler-options job_grpc_route r s m g = only_get-options (by_id apis.get_job_grpc) r s m
  route_handler-options job_events_route r s m g = only_get-options (by_id apis.job_events) r s m
  route_handler-options user_route r s m g = only_get-options (by_id apis.get_user) r s m
  route_handler-options user_profile_route r s m g = only_get-options (by_id apis.get_profile) r s m
  route_handler-options user_export_route r s m g = only_get-options (by_id apis.export) r s m
  route_handler-options users_route r s m g = ("GET, POST", rw m refl)
  route_handler-options users_v2_route r s m g = ("GET, POST", refl)

  module _ (check_token : Text → Result Principal) (route : Route) where
    -- The request was served as `p`, whom its token names and whom the rule of the route grants.
    pub record Served (r : Request) (s s' : Counters × S) (answer : Result (Unit {0}))
        : Type 0 where
      pub token : Text
      pub principal : Principal
      pub rule : RouteRule
      pub parsed : parse_bearer_token r.authorization ≡ ok token
      pub checked : check_token token ≡ ok principal
      pub ruled : rule_for (pattern_of route) default_policy ≡ some rule
      pub closed : (rule.access ≡ access_authenticated) ⊎ (rule.access ≡ access_admin_only)
      pub granted : Grants (record r { principal = some principal }) rule.access
      pub state : s' ≡ (route_handler apis route (record r { principal = some principal }) s).0
      pub told : answer ≡ (route_handler apis route (record r { principal = some principal }) s).1

    abbrev pub Outcome : Request → Counters × S → Counters × S → Result (Unit {0}) → Type 0
    Outcome r s s' answer = Served r s s' answer ⊎ ((e : Failure) × (answer ≡ err e) × (s'.1 ≡ s.1))

    security-Outcome :
        (r : Request) (s : Counters × S)
        → r.pattern ≡ pattern_of route
        → Matches route r.method
        → let out =
            authenticate check_token (authorize default_policy (route_handler apis route)) r s in
          Outcome r s out.0 out.1
    security-Outcome r s pat may = elim (Bool-cases (str_eq r.method "OPTIONS")) [
      | inl b ↦
          let through =
            options-through (route_handler apis route) check_token default_policy r s b in
          let (a, q) = route_handler-options route r s ((str_eq_iff r.method "OPTIONS").0 b) may in
          inr (method_not_allowed a, ap (λ x. x.1) (through ∙ q), ap (λ x. x.0.1) (through ∙ q))
      | inr b ↦
          elim (authenticate-cases (authorize default_policy (route_handler apis route)) check_token
            r s b) [
              | inr (e, told, kept) ↦ inr (e, told, kept)
              | inl (token, p, parsed, checked, q) ↦
                  let r' = record r { principal = some p } in
                  let (rule', found', closed) = route_ruled route in
                  let at : rule_for (pattern_of route) default_policy
                      ≡ rule_for r.pattern default_policy =
                    ap (λ x. rule_for x default_policy) (sym pat) in
                  elim (authorize_exact (route_handler apis route) default_policy r' s b
                    (subst (λ x. str_eq x "" ≡ false) (sym pat) (pattern_of-nonempty route))) [
                      | inl (gone, q') ↦ cc (sym found' ∙ at ∙ gone)
                      | inr (rule, found, inl (g, q')) ↦
                          let same : rule' ≡ rule = ground (arith, sym found' ∙ at ∙ found) in
                          inl record {
                            token = token;
                            principal = p;
                            rule = rule;
                            parsed = parsed;
                            checked = checked;
                            ruled = at ∙ found;
                            closed =
                                subst
                                  (λ (x : RouteRule).
                                    (x.access ≡ access_authenticated)
                                    ⊎ (x.access ≡ access_admin_only))
                                  same closed;
                            granted = g;
                            state = ap (λ x. x.0) (q ∙ q');
                            told = ap (λ x. x.1) (q ∙ q');
                          }
                      | inr (rule, found, inr (e, k, d, q')) ↦
                          let kept = refusal-keeps (route_handler apis route) e k s in
                          inr
                            (e, ap (λ x. x.1) (q ∙ q') ∙ kept.1, ap (λ x. x.0.1) (q ∙ q') ∙ kept.0)
                    ]
            ]
    ]

    Outcome-along :
        (r : Request) (s : Counters × S) {s₁ s₂ : Counters × S} {a₁ a₂ : Result (Unit {0})}
        → s₁ ≡ s₂
        → a₁ ≡ a₂
        → Outcome r s s₂ a₂
        → Outcome r s s₁ a₁
    Outcome-along r s {s₂ = s₂} {a₁ = a₁} e e' h =
        subst (λ x. Outcome r s x a₁) (sym e) (subst (λ x. Outcome r s s₂ x) (sym e') h)

    -- Whatever the methods, the limits and the overlapping requests: a request to a route of the API
    -- is served only as the principal whom its token names, and whom the rule of the route grants,
    -- since every route has a rule and none is open to all; any other request gets an error and
    -- leaves the state of the handlers as it was.
    pub route_guarded :
        {L : Type 0} (others : Overlap) (limiter : Limiter L)
        → (r : Request) (b : BulkheadState) (api : RateLimited L) (s : Counters × S)
        → r.pattern ≡ pattern_of route
        → Matches route r.method
        → let ((b', (api', s')), answer) =
            wrap others limiter check_token default_policy
              (route_handler apis route)
              r
              (b, (api, s)) in
          Outcome r s s' answer
    unfolding wrap
    route_guarded others limiter r b api s pat may =
        let handler =
          authenticate check_token (authorize default_policy (route_handler apis route)) in
        elim (bulkhead-Passes others (rate_limiter limiter handler) r b (api, s)) [
          | inr (e, kept, told) ↦ inr (e, told, ap (λ x. x.1.1) kept)
          | inl (state, told) ↦ elim (rate_limiter-Passes limiter handler r api s) [
            | inr (e, kept, told') ↦
                inr (e, told ∙ told', ap (λ x. x.1) (ap (λ x. x.1) state ∙ kept))
            | inl (state', told') ↦
                Outcome-along r s (ap (λ x. x.1) state ∙ state') (told ∙ told')
                  (security-Outcome r s pat may)
          ]
        ]
