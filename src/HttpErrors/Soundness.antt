-- ===== src/HttpErrors/Soundness.antt =====
-- What internal/httputils/errmap.go answers to every error, and to those of the repositories.
use go_max_tech_stack.HttpErrors.{
  MappedProblem, Printing, answer, plain, method_problem, unauthorized_problem, validation_problem,
  as_bad_request, as_method_not_allowed, as_unauthorized, as_forbidden, as_validation, as_max_bytes,
  as_rate_limit,
}
use go_max_tech_stack.HttpErrors.Mapping.{
  rate_limit_problem, map_typed, map_bridge, map_request, map_json, map_domain, map_profile,
  map_limit, or_unexpected, map_untyped,
}
use go_max_tech_stack.Failure.{
  Failure, or_else, find, AuthnErrorKind, InvalidParam, is, json_bad_syntax, json_decode_failure,
  json_empty_body, json_trailing_data, json_type_mismatch, json_unknown_field, conflict, forbidden,
  job_not_found, not_acceptable, profile_bad_response, profile_canceled, profile_network,
  profile_parse, profile_timeout, profile_upstream_4xx, profile_upstream_5xx, protobuf_unavailable,
  queue_full, queue_stopped, user_not_found,
}
use go_max_tech_stack.Prelude.{
  ◌&&◌, ◌<◌, ◌==◌, Bool, Bool-cases, Option, Option-cases, String, arith, false, if◌then◌else◌, inl,
  inr, leb, ltb, none, not, refl, some, str_eq, true, ℕ, ◌≡◌, ◌≤◌, ◌⊎◌, List,
}

abbrev pub has_header : String → Option (String × String) → Bool
has_header name none = false
has_header name (some (k, v)) = str_eq k name

-- A response that tells an error: the status is one of an error, and the headers that the status
-- asks for are there, and only with it.
pub record Tells (m : MappedProblem) : Type 0 where
  pub at_least : 400 ≤ m.problem.status
  pub below : m.problem.status < 600
  pub challenges : (m.problem.status == 401) ≡ has_header "WWW-Authenticate" m.headers
  -- The header that names the allowed methods.
  pub allows : (has_header "Allow" m.headers ≡ false) ⊎ (m.problem.status ≡ 405)
  pub delays : (m.problem.status == 429) ≡ has_header "Retry-After" m.headers

abbrev Expected : MappedProblem → Type 0
Expected m = Tells m × (m.log ≡ false)

pub data AllExpected : Option MappedProblem → Type 0 where
  unanswered : AllExpected none
  answered : (m : MappedProblem) → Expected m → AllExpected (some m)

-- The statuses of a response with no header.
abbrev is_bare : ℕ → Bool
is_bare n = leb 400 n && ltb n 600 && not (n == 401) && not (n == 429)

plain-Expected : (n : ℕ) (detail : String) → is_bare n ≡ true → Expected (plain n detail)
plain-Expected n detail h = (
  record {
    at_least = ground (arith, h);
    below = ground (arith, h);
    challenges = ground (arith, h);
    allows = inl refl;
    delays = ground (arith, h);
  },
  refl,
)

if-Expected :
    (b : Bool) (x y : Option MappedProblem)
    → AllExpected x
    → AllExpected y
    → AllExpected (if b then x else y)
if-Expected true x y h k = h
if-Expected false x y h k = k

-- A test on sentinels, with the response of that status.
test-Expected :
    (b : Bool) (n : ℕ) (detail : String) (y : Option MappedProblem)
    → is_bare n ≡ true
    → AllExpected y
    → AllExpected (if b then some (plain n detail) else y)
test-Expected b n detail y h k =
    if-Expected b (some (plain n detail)) y (answered _ (plain-Expected n detail h)) k

or_else-Expected :
    (x y : Option MappedProblem) → AllExpected x → AllExpected y → AllExpected (or_else x y)
or_else-Expected none y h k = k
or_else-Expected (some m) y h k = h

answer-Expected {ℓ} :
    {A : Type ℓ} (pick : Failure → Option A) (respond : A → MappedProblem) (e : Failure)
    → ((a : A) → Expected (respond a))
    → AllExpected (answer pick respond e)
answer-Expected pick respond e h = elim (Option-cases (find pick e)) [
  | inl f ↦ rw (f, answer) unanswered
  | inr (a, f) ↦ rw (f, answer) (answered (respond a) (h a))
]

method_problem-Expected : (allow : String) → Expected (method_problem allow)
method_problem-Expected allow = elim (Bool-cases (str_eq allow "")) [
  | inl h ↦ (
    record {
      at_least = omega arith;
      below = omega arith;
      challenges = rw h refl;
      allows = inr refl;
      delays = rw h refl;
    },
    refl,
  )
  | inr h ↦ (
    record {
      at_least = omega arith;
      below = omega arith;
      challenges = rw h refl;
      allows = inr refl;
      delays = rw h refl;
    },
    refl,
  )
]

unauthorized-Expected : (kind : AuthnErrorKind) → Expected (unauthorized_problem kind)
unauthorized-Expected kind = (
  record {
    at_least = omega arith;
    below = omega arith;
    challenges = refl;
    allows = inl refl;
    delays = refl;
  },
  refl,
)

validation-Expected : (params : List InvalidParam) → Expected (validation_problem params)
validation-Expected params = (
  record {
    at_least = omega arith;
    below = omega arith;
    challenges = refl;
    allows = inl refl;
    delays = refl;
  },
  refl,
)

rate_limit-Expected : (print : Printing) (d : ℕ) → Expected (rate_limit_problem print d)
rate_limit-Expected print d = (
  record {
    at_least = omega arith;
    below = omega arith;
    challenges = refl;
    allows = inl refl;
    delays = refl;
  },
  refl,
)

map_typed-Expected : (e : Failure) → AllExpected (map_typed e)
unfolding map_typed
map_typed-Expected e =
    or_else-Expected _ _
      (answer-Expected as_bad_request (λ d. plain 400 d) e (λ d. plain-Expected 400 d refl))
      (or_else-Expected _ _
        (answer-Expected as_method_not_allowed method_problem e method_problem-Expected)
        (or_else-Expected _ _
          (answer-Expected as_unauthorized unauthorized_problem e unauthorized-Expected)
          (or_else-Expected _ _
            (answer-Expected as_forbidden (λ k. plain 403 "forbidden") e
              (λ k. plain-Expected 403 "forbidden" refl))
            (answer-Expected as_validation validation_problem e validation-Expected))))

map_bridge-Expected : (e : Failure) → AllExpected (map_bridge e)
unfolding map_bridge
map_bridge-Expected e =
    test-Expected _ 503 _ _ refl
      (test-Expected _ 504 _ _ refl (test-Expected _ 408 _ _ refl unanswered))

map_request-Expected : (e : Failure) → AllExpected (map_request e)
unfolding map_request
map_request-Expected e =
    or_else-Expected _ _
      (answer-Expected as_max_bytes (λ u. plain 413 "request body too large") e
        (λ u. plain-Expected 413 _ refl))
      (test-Expected _ 415 _ _ refl
        (test-Expected _ 500 _ _ refl (test-Expected _ 503 _ _ refl unanswered)))

map_json-Expected : (print : Printing) (e : Failure) → AllExpected (map_json print e)
unfolding map_json
map_json-Expected print e = test-Expected (is e json_empty_body) 400 _ _ refl (
    test-Expected (is e json_bad_syntax) 400 _ _ refl (
      test-Expected (is e json_unknown_field) 400 _ _ refl (
        test-Expected (is e json_type_mismatch) 400 _ _ refl (
          test-Expected (is e json_trailing_data) 400 _ _ refl
            (test-Expected (is e json_decode_failure) 400 _ _ refl unanswered)))))

map_domain-Expected : (e : Failure) → AllExpected (map_domain e)
unfolding map_domain
map_domain-Expected e = test-Expected (is e user_not_found) 404 _ _ refl (
    test-Expected (is e conflict) 409 _ _ refl (
      test-Expected (is e forbidden) 403 _ _ refl (
        test-Expected (is e queue_full) 503 _ _ refl (
          test-Expected (is e queue_stopped) 503 _ _ refl
            (test-Expected (is e job_not_found) 404 _ _ refl unanswered)))))

map_profile-Expected : (e : Failure) → AllExpected (map_profile e)
unfolding map_profile
map_profile-Expected e = test-Expected (is e profile_timeout) 503 _ _ refl (
    test-Expected (is e profile_canceled) 408 _ _ refl (
      test-Expected (is e profile_upstream_5xx) 502 _ _ refl (
        test-Expected (is e profile_upstream_4xx) 502 _ _ refl (
          test-Expected (is e profile_bad_response) 502 _ _ refl (
            test-Expected (is e not_acceptable) 406 _ _ refl (
              test-Expected (is e protobuf_unavailable) 500 _ _ refl (
                test-Expected (is e profile_network) 503 _ _ refl
                  (test-Expected (is e profile_parse) 502 _ _ refl unanswered))))))))

map_limit-Expected : (print : Printing) (e : Failure) → AllExpected (map_limit print e)
unfolding map_limit
map_limit-Expected print e =
    or_else-Expected _ _
      (answer-Expected as_rate_limit (rate_limit_problem print) e (rate_limit-Expected print))
      (test-Expected _ 503 _ _ refl unanswered)

pub or_unexpected-Tells : (x : Option MappedProblem) → AllExpected x → Tells (or_unexpected x)
or_unexpected-Tells none h = record {
  at_least = omega arith;
  below = omega arith;
  challenges = refl;
  allows = inl refl;
  delays = refl;
}
or_unexpected-Tells (some m) (answered m' h) = h.0

pub known-AllExpected :
    (print : Printing) (e : Failure) → AllExpected (or_else (map_typed e) (map_untyped print e))
known-AllExpected print e = or_else-Expected _ _ (map_typed-Expected e) (
    or_else-Expected _ _ (map_bridge-Expected e) (
      or_else-Expected _ _ (map_request-Expected e) (
        or_else-Expected _ _ (map_json-Expected print e) (
          or_else-Expected _ _ (map_domain-Expected e)
            (or_else-Expected _ _ (map_profile-Expected e) (map_limit-Expected print e))))))
