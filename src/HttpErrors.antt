-- ===== src/HttpErrors.antt =====
-- internal/httputils/errmap.go and problem.go: the one place where an error becomes a problem
-- response. `MapError` is a chain of tests, each of which may answer; the chain stands here in the
-- source's order, cut into the groups that its comments number. `Printing` are the two functions of
-- the standard library that print: the verb %q and strconv.FormatInt.
-- A duration is the bit pattern of its 64 bits, with the wrap-around of the addition written out.
-- `HttpErrors.Mapping` is the chain, `HttpErrors.Statuses` a flat table of its tests with the status
-- of each. `HttpErrors.Soundness` is about the headers, `HttpErrors.Exact` about all that is answered,
-- `HttpErrors.Answers` about certain errors.
use go_max_tech_stack.Failure.{
  Failure, find, AuthnErrorKind, AuthzErrorKind, InvalidParam, bad_request, forbidden_for,
  json_request, json_request_by, max_bytes, method_not_allowed, rate_limit, unauthorized,
  unauthorized_by, validation,
}
use go_max_tech_stack.Prelude.{
  Bool, List, Option, String, [], false, if◌then◌else◌, none, some, str_eq, ℕ,
}
pub mod Mapping
pub mod Soundness
pub mod Statuses
pub mod Exact
pub mod Answers
mod Examples

pub record Printing : Type 0 where
  pub quoted : String → String
  pub format_int : ℕ → String

pub record Problem : Type 0 where
  pub type : String
  pub title : String
  pub status : ℕ
  pub detail : String
  pub instance_uri : String
  pub request_id : String
  pub invalid_params : List InvalidParam

-- `Problem{Status: …, Detail: …}`.
abbrev pub problem : ℕ → String → Problem
problem status detail = record {
  type = "";
  title = "";
  status = status;
  detail = detail;
  instance_uri = "";
  request_id = "";
  invalid_params = [];
}

-- The headers are those that were set, of which there is one at most.
pub record MappedProblem : Type 0 where
  pub problem : Problem
  pub headers : Option (String × String)
  pub log : Bool

abbrev pub plain : ℕ → String → MappedProblem
plain status detail = record { problem = problem status detail; headers = none; log = false }

-- `errors.As`, by the type of its target.
abbrev pub as_bad_request : Failure → Option String
as_bad_request (bad_request detail) = some detail
as_bad_request e = none

abbrev pub as_method_not_allowed : Failure → Option String
as_method_not_allowed (method_not_allowed allow) = some allow
as_method_not_allowed e = none

abbrev pub as_unauthorized : Failure → Option AuthnErrorKind
as_unauthorized (unauthorized kind) = some kind
as_unauthorized (unauthorized_by kind cause) = some kind
as_unauthorized e = none

abbrev pub as_forbidden : Failure → Option AuthzErrorKind
as_forbidden (forbidden_for kind) = some kind
as_forbidden e = none

abbrev pub as_validation : Failure → Option (List InvalidParam)
as_validation (validation params) = some params
as_validation e = none

abbrev pub as_max_bytes : Failure → Option (Unit {0})
as_max_bytes max_bytes = some tt
as_max_bytes e = none

-- The field of a JSONRequestError.
abbrev pub as_json_request : Failure → Option String
as_json_request (json_request kind field) = some field
as_json_request (json_request_by kind field cause) = some field
as_json_request e = none

abbrev pub as_rate_limit : Failure → Option ℕ
as_rate_limit (rate_limit retry_after) = some retry_after
as_rate_limit e = none

-- One `if errors.As(e, &x) { return … }`.
abbrev pub answer {ℓ} :
    {A : Type ℓ} → (Failure → Option A) → (A → MappedProblem) → Failure → Option MappedProblem
answer pick respond e = elim (find pick e) [ none ↦ none | some a ↦ some (respond a) ]

abbrev pub method_problem : String → MappedProblem
method_problem allow = record {
  problem = problem 405 "method not allowed";
  headers = if str_eq allow "" then none else some ("Allow", allow);
  log = false;
}

abbrev pub unauthorized_problem : AuthnErrorKind → MappedProblem
unauthorized_problem kind = record {
  problem = problem 401 "unauthorized";
  headers = some ("WWW-Authenticate", "Bearer");
  log = false;
}

abbrev pub validation_problem : List InvalidParam → MappedProblem
validation_problem params = record {
  problem = record (problem 422 "validation failed") { invalid_params = params };
  headers = none;
  log = false;
}
