-- ===== src/Router/Policy.antt =====
-- The routes of internal/router/router.go and the policy of internal/security/policy.go.
use go_max_tech_stack.Router.{
  Route, pattern_of, list_users_route, create_user_route, list_users_v2_route, create_user_v2_route,
  job_route, job_grpc_route, job_events_route, user_route, user_profile_route, user_export_route,
  users_route, users_v2_route,
}
use go_max_tech_stack.Security.{RouteRule, access_authenticated, access_admin_only, default_policy}
use go_max_tech_stack.Security.Access.{rule_for}
use go_max_tech_stack.Prelude.{inl, inr, refl, some, ◌≡◌, ◌⊎◌, str_eq, false}

-- Every route has a rule, and none is open to all.
pub route_ruled :
    (route : Route)
    → (rule : RouteRule) × (rule_for (pattern_of route) default_policy ≡ some rule)
      × ((rule.access ≡ access_authenticated) ⊎ (rule.access ≡ access_admin_only))
unfolding rule_for default_policy
route_ruled list_users_route = (_, refl, inr refl)
route_ruled create_user_route = (_, refl, inr refl)
route_ruled list_users_v2_route = (_, refl, inr refl)
route_ruled create_user_v2_route = (_, refl, inr refl)
route_ruled job_route = (_, refl, inr refl)
route_ruled job_grpc_route = (_, refl, inr refl)
route_ruled job_events_route = (_, refl, inl refl)
route_ruled user_route = (_, refl, inl refl)
route_ruled user_profile_route = (_, refl, inl refl)
route_ruled user_export_route = (_, refl, inl refl)
route_ruled users_route = (_, refl, inr refl)
route_ruled users_v2_route = (_, refl, inr refl)

pub pattern_of-nonempty : (route : Route) → str_eq (pattern_of route) "" ≡ false
pattern_of-nonempty list_users_route = refl
pattern_of-nonempty create_user_route = refl
pattern_of-nonempty list_users_v2_route = refl
pattern_of-nonempty create_user_v2_route = refl
pattern_of-nonempty job_route = refl
pattern_of-nonempty job_grpc_route = refl
pattern_of-nonempty job_events_route = refl
pattern_of-nonempty user_route = refl
pattern_of-nonempty user_profile_route = refl
pattern_of-nonempty user_export_route = refl
pattern_of-nonempty users_route = refl
pattern_of-nonempty users_v2_route = refl
