-- ===== src/Router.antt =====
-- internal/router/router.go, with ParsePositiveInt of internal/httputils/parse.go: the routes of the
-- API, the handler that each pattern is given, and the middleware around it. http.ServeMux is not
-- modelled: a request comes with the pattern that it has chosen. The handlers of the API are the
-- record `Apis`; in the program the profile's may be absent, and then so is its route.
-- `Router.Layers` and `Router.Policy` are about the layers and the rules of the routes, on which
-- `Router.Guarded` rests.
use go_max_tech_stack.Security.Access.{Request, AppHandler, Counters, authenticate, authorize}
use go_max_tech_stack.Security.{Principal, RouteRule}
use go_max_tech_stack.Middleware.{
  Handler, Overlap, BulkheadState, Limiter, RateLimited, bulkhead, rate_limiter,
}
use go_max_tech_stack.Decimal.{parse_int}
use go_max_tech_stack.Failure.{Failure, bad_request, method_not_allowed}
use go_max_tech_stack.Failure.Result.{Result, ok, err}
use go_max_tech_stack.Text.{Text}
use go_max_tech_stack.Prelude.{
  List, Option, String, if◌then◌else◌, negsuc, none, pos, some, str_eq, suc, zero, ℕ,
}
pub mod Layers
pub mod Policy
pub mod Guarded
mod Examples

pub data Route : Type 0 where
  list_users_route create_user_route list_users_v2_route create_user_v2_route : Route
  job_route job_grpc_route job_events_route : Route
  user_route user_profile_route user_export_route : Route
  users_route users_v2_route : Route

abbrev pub pattern_of : Route → String
pattern_of list_users_route = "GET /api/v1/users"
pattern_of create_user_route = "POST /api/v1/users"
pattern_of list_users_v2_route = "GET /api/v2/users"
pattern_of create_user_v2_route = "POST /api/v2/users"
pattern_of job_route = "/api/v1/jobs/{id}"
pattern_of job_grpc_route = "/api/v1/jobs/{id}/grpc"
pattern_of job_events_route = "/api/v1/jobs/{id}/events"
pattern_of user_route = "/api/v1/users/{id}"
pattern_of user_profile_route = "/api/v1/users/{id}/profile"
pattern_of user_export_route = "/api/v1/users/{id}/export"
pattern_of users_route = "/api/v1/users"
pattern_of users_v2_route = "/api/v2/users"

pub record Apis (S : Type 0) : Type 0 where
  pub list : AppHandler S
  pub create : AppHandler S
  pub list_v2 : AppHandler S
  pub create_v2 : AppHandler S
  pub get_job : ℕ → AppHandler S
  pub get_job_grpc : ℕ → AppHandler S
  pub job_events : ℕ → AppHandler S
  pub get_user : ℕ → AppHandler S
  pub get_profile : ℕ → AppHandler S
  pub export : ℕ → AppHandler S

unfoldable pub parse_positive_int : Text → Option ℕ
parse_positive_int s = elim (parse_int s) [
  | none ↦ none
  | some (negsuc n) ↦ none
  | some (pos zero) ↦ none
  | some (pos (suc n)) ↦ some (suc n)
]

module _ {S : Type 0} where
  unfoldable pub by_id : (ℕ → AppHandler S) → AppHandler S
  unfolding parse_positive_int
  by_id handler r s = elim (parse_positive_int r.path_id) [
    | none ↦ (s, err (bad_request "id must be a positive integer"))
    | some id ↦ handler id r s
  ]

  unfoldable pub only_get : AppHandler S → AppHandler S
  only_get handler r s =
      if str_eq r.method "GET" then handler r s else (s, err (method_not_allowed "GET"))

  unfoldable pub users_collection : Apis S → AppHandler S
  users_collection apis r s =
      if str_eq r.method "GET"
      then apis.list r s
      else if str_eq r.method "POST"
      then apis.create r s
      else (s, err (method_not_allowed "GET, POST"))

  unfoldable pub route_handler : Apis S → Route → AppHandler S
  unfolding only_get by_id users_collection
  route_handler apis list_users_route = apis.list
  route_handler apis create_user_route = apis.create
  route_handler apis list_users_v2_route = apis.list_v2
  route_handler apis create_user_v2_route = apis.create_v2
  route_handler apis job_route = only_get (by_id apis.get_job)
  route_handler apis job_grpc_route = only_get (by_id apis.get_job_grpc)
  route_handler apis job_events_route = only_get (by_id apis.job_events)
  route_handler apis user_route = only_get (by_id apis.get_user)
  route_handler apis user_profile_route = only_get (by_id apis.get_profile)
  route_handler apis user_export_route = only_get (by_id apis.export)
  route_handler apis users_route = users_collection apis
  route_handler apis users_v2_route = λ r s. (s, err (method_not_allowed "GET, POST"))

  unfoldable pub wrap :
      {L : Type 0}
      → Overlap
      → Limiter L
      → (Text → Result Principal)
      → List RouteRule
      → AppHandler S
      → Handler (BulkheadState × (RateLimited L × (Counters × S)))
  unfolding bulkhead rate_limiter authenticate authorize
  wrap others limiter check_token rules handler =
      bulkhead others (rate_limiter limiter (authenticate check_token (authorize rules handler)))
