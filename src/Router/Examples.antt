-- ===== src/Router/Examples.antt =====
-- A request of an administrator for the list of users.
use go_max_tech_stack.Router.{Apis, route_handler, wrap, list_users_route}
use go_max_tech_stack.Router.Guarded.{route_guarded, Outcome}
use go_max_tech_stack.Middleware.{
  Limiter, RateLimited, Reservation, new_bulkhead, bulkhead, rate_limiter, put_token, take_token,
  count_in, count_out, process, BulkheadState, Overlap,
}
use go_max_tech_stack.Security.{Principal, admin, default_policy}
use go_max_tech_stack.Security.Access.{
  Request, AppHandler, Counters, authenticate, authorize, rule_for, parse_bearer_token, parse_words,
  fields_from, check_access,
}
use go_max_tech_stack.Failure.Result.{Result, ok}
use go_max_tech_stack.Text.{Text, codes, text_eq, trim_space}
use go_max_tech_stack.Prelude.{◌+◌, [], inl, none, refl, suc, true, zero, ℕ, ◌≡◌}
use go_max_tech_stack.HttpErrors.{answer}

abbrev no_overlap : Overlap
no_overlap = record { before_count_in = λ b. b; in_handler = λ b. b; before_count_out = λ b. b }

abbrev one_slot : BulkheadState
one_slot = record {
  semaphore = new_bulkhead 1;
  counters = record { in_flight = 0; rejections_total = 0 };
}

abbrev counting : AppHandler ℕ
counting r (c, n) = ((c, n + 1), ok tt)

abbrev apis : Apis ℕ
apis = record {
  list = counting;
  create = counting;
  list_v2 = counting;
  create_v2 = counting;
  get_job = λ id. counting;
  get_job_grpc = λ id. counting;
  job_events = λ id. counting;
  get_user = λ id. counting;
  get_profile = λ id. counting;
  export = λ id. counting;
}

-- A limiter that grants a number of requests, and then asks for a second.
abbrev bucket : Limiter ℕ
bucket = record { reserve = refill; cancel = λ res l. l }
  where
    refill : ℕ → ℕ × Reservation
    refill zero = (zero, record { is_ok = true; delay = 1000000000 })
    refill (suc n) = (n, record { is_ok = true; delay = 0 })

abbrev listing : Request
listing = record {
  method = "GET";
  pattern = "GET /api/v1/users";
  authorization = codes "Bearer x";
  path_id = [];
  principal = none;
}

abbrev root_only : Text → Result Principal
root_only t = ok (record { user_id = 1; role = admin })

abbrev clear : Counters
clear = record { authn_failures = []; forbidden_total = 0 }

abbrev two_left : RateLimited ℕ
two_left = record { limiter = 2; total = 0 }

route_guarded_example :
    let ((b', (api', s')), answer) =
      wrap no_overlap bucket root_only default_policy
        (route_handler apis list_users_route)
        listing
        (one_slot, (two_left, (clear, 0))) in
    Outcome apis root_only list_users_route listing (clear, 0) s' answer
route_guarded_example =
    route_guarded apis root_only list_users_route no_overlap bucket listing one_slot two_left
      (clear, 0) refl (inl refl)

listed :
    (wrap no_overlap bucket root_only default_policy
      (route_handler apis list_users_route)
      listing
      (one_slot, (two_left, (clear, 0)))).1
    ≡ ok tt
unfolding wrap bulkhead rate_limiter put_token take_token count_in count_out process new_bulkhead
    authenticate authorize parse_bearer_token parse_words fields_from text_eq trim_space rule_for
    default_policy check_access route_handler
listed = refl
