-- ===== src/Middleware/Examples.antt =====
-- Three requests for two slots, a preflight request, and the theorems at them.
use go_max_tech_stack.Middleware.{
  new_bulkhead, put_token, count_in, count_out, count_rejection, take_token,
}
use go_max_tech_stack.Middleware.Cors.{
  CorsApi, CorsRequest, CorsCounters, new_cors, add_origins, cleaned_up, cors, answer_preflight,
  is_origin_allowed, is_method_allowed, are_request_headers_allowed, all_allowed, contains,
}
use go_max_tech_stack.Middleware.Origins.{Rules, cors-Rules}
use go_max_tech_stack.Negotiation.{split_commas}
use go_max_tech_stack.Text.{codes, text_eq, trim_space, trim_left}
use go_max_tech_stack.Middleware.Slots.{
  Visit, Gate, arrives, visits, visit, bulkhead_bounded, is_counted, opened, releases,
}
use go_max_tech_stack.Prelude.{
  List, [], refl, some, ◌∷◌, ◌≡◌, ◌≤◌, ◌&&◌, ◌+◌, ◌-◌, false, if◌then◌else◌, leb, pos, true, ℕ, u64,
}

abbrev rush : List Visit
rush = arrives ∷ arrives ∷ arrives ∷ is_counted ∷ is_counted ∷ releases ∷ arrives ∷ is_counted ∷ []

bulkhead_bounded_example :
    (g : Gate) × (visits rush (opened 2) ≡ some g)
    × (g.state.semaphore.sem ≡ g.entering + g.running)
    × (g.entering + g.running ≤ 2)
    × (g.state.counters.in_flight ≡ u64 (g.running + g.leaving))
bulkhead_bounded_example = bulkhead_bounded 2 rush

-- Two run, and three are counted.
rush_counted :
    visits rush (opened 2)
    ≡ some (record {
      state = record {
        semaphore = record { sem = 2; max_parallel = 2 };
        counters = record { in_flight = 3; rejections_total = 1 };
      };
      entering = 0;
      running = 2;
      leaving = 1;
    })
unfolding visits visit put_token take_token count_in count_out count_rejection new_bulkhead
rush_counted = refl

abbrev ascii_upper : ℕ → ℕ
ascii_upper c = if leb b'a' c && leb c b'z' then c - 32 else c

abbrev ascii_lower : ℕ → ℕ
ascii_lower c = if leb b'A' c && leb c b'Z' then c + 32 else c

abbrev one_origin : CorsApi
one_origin = record {
  allow_any = false;
  allowed_origins = codes "https://a.org" ∷ [];
  allowed_methods = codes "get" ∷ [];
  allowed_methods_up = codes "GET" ∷ [];
  allowed_headers = codes "X-Id" ∷ [];
  allowed_headers_lo = codes "x-id" ∷ [];
  allow_credentials = true;
  max_age_seconds = pos 60;
}

one_origin_made :
    new_cors ascii_upper ascii_lower (record {
      allowed_origins = codes "https://a.org" ∷ [];
      allowed_methods = codes "get" ∷ [];
      allowed_headers = codes "X-Id" ∷ [];
      allow_credentials = true;
      max_age = pos 60000000000;
    })
    ≡ one_origin
unfolding new_cors add_origins cleaned_up text_eq trim_space trim_left
one_origin_made = refl

abbrev asks : CorsRequest
asks = record {
  method = "OPTIONS";
  origin = codes "https://a.org";
  request_method = codes "GET";
  request_headers = codes "x-ID, ";
}

abbrev no_cors : CorsCounters
no_cors = record { preflight_total = 0; denied_total = 0 }

asks_foreign : text_eq asks.origin [] ≡ false
unfolding text_eq
asks_foreign = refl

cors-Rules_example :
    Rules ascii_upper ascii_lower one_origin asks no_cors
      (cors ascii_upper ascii_lower one_origin asks no_cors)
cors-Rules_example = cors-Rules ascii_upper ascii_lower one_origin asks no_cors asks_foreign

asks_granted : (cors ascii_upper ascii_lower one_origin asks no_cors).0.preflight_total ≡ 1
unfolding cors answer_preflight is_origin_allowed is_method_allowed are_request_headers_allowed
    all_allowed contains split_commas text_eq trim_space trim_left
asks_granted = refl
