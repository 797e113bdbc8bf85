-- ===== src/HttpErrors/Statuses.antt =====
-- The status that internal/httputils/errmap.go answers to each error, as one table of tests in order.
use go_max_tech_stack.HttpErrors.{
  MappedProblem, Printing, answer, plain, method_problem, unauthorized_problem, validation_problem,
  as_bad_request, as_method_not_allowed, as_unauthorized, as_forbidden, as_validation, as_max_bytes,
  as_rate_limit,
}
use go_max_tech_stack.HttpErrors.Mapping.{
  rate_limit_problem, map_typed, map_bridge, map_request, map_json, map_domain, map_profile,
  map_limit, map_untyped,
}
use go_max_tech_stack.Failure.{
  Failure, Sentinel, or_else, find, is, json_bad_syntax, json_decode_failure, json_empty_body,
  json_trailing_data, json_type_mismatch, json_unknown_field, conflict, forbidden, job_not_found,
  not_acceptable, profile_bad_response, profile_canceled, profile_network, profile_parse,
  profile_timeout, profile_upstream_4xx, profile_upstream_5xx, protobuf_unavailable, queue_full,
  queue_stopped, user_not_found, grpc_bridge_unavailable, grpc_bridge_timeout, grpc_bridge_canceled,
  unsupported_media_type, streaming_unsupported, hub_closed, bulkhead_rejected,
}
use go_max_tech_stack.Prelude.{
  ◌++◌, ◌∷◌, [], Bool, List, Option, Option-cases, String, ap, false, if◌then◌else◌, inl, inr, none,
  refl, some, true, ℕ, ◌≡◌,
}

abbrev pub is_found {ℓ} : {A : Type ℓ} → Option A → Bool
is_found none = false
is_found (some a) = true

-- Tests with the status of each, and the first that an error passes.
abbrev pub first : List (Bool × ℕ) → Option ℕ
first [] = none
first ((b, status) ∷ rules) = let later = first rules in if b then some status else later

abbrev pub of_sentinels : Failure → List (Sentinel × ℕ) → List (Bool × ℕ)
of_sentinels e [] = []
of_sentinels e ((s, status) ∷ rules) = (is e s, status) ∷ of_sentinels e rules

-- `errors.As` with the type that `pick` takes.
abbrev pub of_type {ℓ} : {A : Type ℓ} → (Failure → Option A) → ℕ → Failure → List (Bool × ℕ)
of_type pick status e = (is_found (find pick e), status) ∷ []

abbrev pub bridge_statuses : List (Sentinel × ℕ)
bridge_statuses =
    (grpc_bridge_unavailable, 503) ∷ (grpc_bridge_timeout, 504) ∷ (grpc_bridge_canceled, 408) ∷ []

abbrev pub request_statuses : List (Sentinel × ℕ)
request_statuses =
    (unsupported_media_type, 415) ∷ (streaming_unsupported, 500) ∷ (hub_closed, 503) ∷ []

abbrev pub json_statuses : List (Sentinel × ℕ)
json_statuses =
    (json_empty_body, 400)
    ∷ (json_bad_syntax, 400)
    ∷ (json_unknown_field, 400)
    ∷ (json_type_mismatch, 400)
    ∷ (json_trailing_data, 400)
    ∷ (json_decode_failure, 400)
    ∷ []

abbrev pub domain_statuses : List (Sentinel × ℕ)
domain_statuses =
    (user_not_found, 404)
    ∷ (conflict, 409)
    ∷ (forbidden, 403)
    ∷ (queue_full, 503)
    ∷ (queue_stopped, 503)
    ∷ (job_not_found, 404)
    ∷ []

abbrev pub profile_statuses : List (Sentinel × ℕ)
profile_statuses =
    (profile_timeout, 503)
    ∷ (profile_canceled, 408)
    ∷ (profile_upstream_5xx, 502)
    ∷ (profile_upstream_4xx, 502)
    ∷ (profile_bad_response, 502)
    ∷ (not_acceptable, 406)
    ∷ (protobuf_unavailable, 500)
    ∷ (profile_network, 503)
    ∷ (profile_parse, 502)
    ∷ []

abbrev pub later_rules : Failure → List (Bool × ℕ)
later_rules e =
    of_type as_unauthorized 401 e ++ (of_type as_forbidden 403 e ++ of_type as_validation 422 e)

abbrev pub typed_rules : Failure → List (Bool × ℕ)
typed_rules e =
    of_type as_bad_request 400 e ++ (of_type as_method_not_allowed 405 e ++ later_rules e)

abbrev pub other_rules : Failure → List (Bool × ℕ)
other_rules e =
    of_sentinels e bridge_statuses
    ++ ((of_type as_max_bytes 413 e ++ of_sentinels e request_statuses)
        ++ (of_sentinels e json_statuses
            ++ (of_sentinels e domain_statuses
                ++ (of_sentinels e profile_statuses
                    ++ (of_type as_rate_limit 429 e
                        ++ of_sentinels e ((bulkhead_rejected, 503) ∷ []))))))

-- The whole table.
abbrev pub rules : Failure → List (Bool × ℕ)
rules e = typed_rules e ++ other_rules e

abbrev pub status : Option MappedProblem → Option ℕ
status none = none
status (some m) = some m.problem.status

-- An answer, if there is one, has the status of the table.
pub record Agrees (x : Option MappedProblem) (rs : List (Bool × ℕ)) : Type 0 where
  pub same_status : status x ≡ first rs

unanswered : Agrees none []
unanswered = record { same_status = refl }

test-status :
    (b : Bool) (n : ℕ) (detail : String) (y : Option MappedProblem) (rs : List (Bool × ℕ))
    → Agrees y rs
    → Agrees (if b then some (plain n detail) else y) ((b, n) ∷ rs)
test-status true n detail y rs h = record { same_status = refl }
test-status false n detail y rs h = record { same_status = h.same_status }

or_else-status :
    (rs rs' : List (Bool × ℕ)) (x y : Option MappedProblem)
    → status x ≡ first rs
    → status y ≡ first rs'
    → status (or_else x y) ≡ first (rs ++ rs')
or_else-status [] rs' none y h k = k
or_else-status [] rs' (some m) y h k = cc h
or_else-status ((true, n) ∷ rs) rs' none y h k = cc h
or_else-status ((true, n) ∷ rs) rs' (some m) y h k = h
or_else-status ((false, n) ∷ rs) rs' x y h k = or_else-status rs rs' x y h k

pub first-append :
    (rs rs' : List (Bool × ℕ)) (x y : Option MappedProblem)
    → Agrees x rs
    → Agrees y rs'
    → Agrees (or_else x y) (rs ++ rs')
first-append rs rs' x y h k = record {
  same_status = or_else-status rs rs' x y h.same_status k.same_status;
}

answer-status {ℓ} :
    {A : Type ℓ} (pick : Failure → Option A) (respond : A → MappedProblem) (n : ℕ) (e : Failure)
    → ((a : A) → (respond a).problem.status ≡ n)
    → Agrees (answer pick respond e) (of_type pick n e)
answer-status pick respond n e h = elim (Option-cases (find pick e)) [
  | inl f ↦ rw (f, answer) (record { same_status = refl })
  | inr (a, f) ↦ rw (f, answer) (record { same_status = ap (λ t. some t) (h a) })
]

pub map_typed-status : (e : Failure) → Agrees (map_typed e) (typed_rules e)
unfolding map_typed
map_typed-status e =
    first-append _ _ _ _ (answer-status as_bad_request (λ d. plain 400 d) 400 e (λ d. refl)) (
      first-append _ _ _ _ (answer-status as_method_not_allowed method_problem 405 e (λ d. refl)) (
        first-append _ _ _ _ (answer-status as_unauthorized unauthorized_problem 401 e (λ d. refl))
          (first-append _ _ _ _
            (answer-status as_forbidden (λ k. plain 403 "forbidden") 403 e (λ d. refl))
            (answer-status as_validation validation_problem 422 e (λ d. refl)))))

map_bridge-status : (e : Failure) → Agrees (map_bridge e) (of_sentinels e bridge_statuses)
unfolding map_bridge
map_bridge-status e = test-status (is e grpc_bridge_unavailable) 503 _ _ _ (
    test-status (is e grpc_bridge_timeout) 504 _ _ _
      (test-status (is e grpc_bridge_canceled) 408 _ _ _ unanswered))

map_request-status :
    (e : Failure)
    → Agrees (map_request e) (of_type as_max_bytes 413 e ++ of_sentinels e request_statuses)
unfolding map_request
map_request-status e =
    first-append _ _ _ _
      (answer-status as_max_bytes (λ u. plain 413 "request body too large") 413 e (λ d. refl))
      (test-status _ 415 _ _ _ (test-status _ 500 _ _ _ (test-status _ 503 _ _ _ unanswered)))

map_json-status :
    (print : Printing) (e : Failure) → Agrees (map_json print e) (of_sentinels e json_statuses)
unfolding map_json
map_json-status print e = test-status (is e json_empty_body) 400 _ _ _ (
    test-status (is e json_bad_syntax) 400 _ _ _ (
      test-status (is e json_unknown_field) 400 _ _ _ (
        test-status (is e json_type_mismatch) 400 _ _ _ (
          test-status (is e json_trailing_data) 400 _ _ _
            (test-status (is e json_decode_failure) 400 _ _ _ unanswered)))))

map_domain-status : (e : Failure) → Agrees (map_domain e) (of_sentinels e domain_statuses)
unfolding map_domain
map_domain-status e = test-status (is e user_not_found) 404 _ _ _ (
    test-status (is e conflict) 409 _ _ _ (
      test-status (is e forbidden) 403 _ _ _ (
        test-status (is e queue_full) 503 _ _ _ (
          test-status (is e queue_stopped) 503 _ _ _
            (test-status (is e job_not_found) 404 _ _ _ unanswered)))))

map_profile-status : (e : Failure) → Agrees (map_profile e) (of_sentinels e profile_statuses)
unfolding map_profile
map_profile-status e = test-status (is e profile_timeout) 503 _ _ _ (
    test-status (is e profile_canceled) 408 _ _ _ (
      test-status (is e profile_upstream_5xx) 502 _ _ _ (
        test-status (is e profile_upstream_4xx) 502 _ _ _ (
          test-status (is e profile_bad_response) 502 _ _ _ (
            test-status (is e not_acceptable) 406 _ _ _ (
              test-status (is e protobuf_unavailable) 500 _ _ _ (
                test-status (is e profile_network) 503 _ _ _
                  (test-status (is e profile_parse) 502 _ _ _ unanswered))))))))

map_limit-status :
    (print : Printing) (e : Failure)
    → Agrees
        (map_limit print e)
        (of_type as_rate_limit 429 e ++ of_sentinels e ((bulkhead_rejected, 503) ∷ []))
unfolding map_limit
map_limit-status print e =
    first-append _ _ _ _ (answer-status as_rate_limit (rate_limit_problem print) 429 e (λ d. refl))
      (test-status _ 503 _ _ _ unanswered)

pub map_untyped-status :
    (print : Printing) (e : Failure) → Agrees (map_untyped print e) (other_rules e)
map_untyped-status print e =
    first-append (of_sentinels e bridge_statuses)
      ((of_type as_max_bytes 413 e ++ of_sentinels e request_statuses)
        ++ (of_sentinels e json_statuses
            ++ (of_sentinels e domain_statuses
                ++ (of_sentinels e profile_statuses
                    ++ (of_type as_rate_limit 429 e
                        ++ of_sentinels e ((bulkhead_rejected, 503) ∷ []))))))
      _ _ (map_bridge-status e)
      (first-append (of_type as_max_bytes 413 e ++ of_sentinels e request_statuses)
        (of_sentinels e json_statuses
          ++ (of_sentinels e domain_statuses
              ++ (of_sentinels e profile_statuses
                  ++ (of_type as_rate_limit 429 e
                      ++ of_sentinels e ((bulkhead_rejected, 503) ∷ [])))))
        _ _ (map_request-status e)
        (first-append (of_sentinels e json_statuses)
          (of_sentinels e domain_statuses
            ++ (of_sentinels e profile_statuses
                ++ (of_type as_rate_limit 429 e ++ of_sentinels e ((bulkhead_rejected, 503) ∷ []))))
          _ _ (map_json-status print e)
          (first-append _ _ _ _ (map_domain-status e)
            (first-append _ _ _ _ (map_profile-status e) (map_limit-status print e)))))
