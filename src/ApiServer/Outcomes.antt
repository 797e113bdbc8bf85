-- ===== src/ApiServer/Outcomes.antt =====
-- What the cleanup of internal/api/server.go reports.
use go_max_tech_stack.ApiServer.{
  ShutdownOutcome, ShutdownError, ShutdownErrors, component, joined, other, nil, cons,
  append_errors, as_component, first_component, has_among, has_shutdown_outcome, is_outcome,
  HttpServer, closed_error, is_nil, one, outcome_eq, outcome_failed, outcome_forced,
  outcome_timed_out, stop_error, Components, close_failure, outcome_graceful, shutdown_of,
}
use go_max_tech_stack.Prelude.{
  Option-cases, arith, inl, inr, refl, true, ◌||◌, ◌≡◌, ◌&&◌, Bool, Bool-cases, Option, String,
  false, if◌then◌else◌, none, not, some,
}
use go_max_tech_stack.Failure.{Failure, context_deadline_exceeded, http_server_closed, is}
use go_max_tech_stack.Stream.{close}

-- The first component of an error is one of its components.
mutual
  unfolding has_shutdown_outcome

  first-has :
      (e : ShutdownError) (o : ShutdownOutcome)
      → is_outcome (as_component e) o ≡ true
      → has_shutdown_outcome e o ≡ true
  first-has (component name p e) o h = h
  first-has (joined es) o h = ground (arith, h)
  first-has (other e) o h = cc

  first-among :
      (es : ShutdownErrors) (o : ShutdownOutcome)
      → is_outcome (first_component es) o ≡ true
      → has_among es o ≡ true
  first-among nil o h = cc
  first-among (cons e es) o h = elim (Option-cases (as_component e)) [
    | inl n ↦ ground (arith, first-among es o, n, h)
    | inr (p, n) ↦ ground (arith, first-has e o, n, h)
  ]

pub joined-has :
    (es : ShutdownErrors) (o : ShutdownOutcome)
    → has_shutdown_outcome (joined es) o ≡ has_among es o
unfolding has_shutdown_outcome
joined-has es o = ground (arith, first-among es o)

among-append :
    (es fs : ShutdownErrors) (o : ShutdownOutcome)
    → has_among (append_errors es fs) o ≡ (has_among es o || has_among fs o)
unfolding has_shutdown_outcome append_errors
among-append nil fs o = refl
among-append (cons e es) fs o = ground (arith, among-append es fs o)

-- How a component ends by the error that it returns: well, or late.
abbrev pub ends_well : Option Failure → Bool
ends_well none = true
ends_well (some e) = is e http_server_closed

abbrev pub is_late : Option Failure → Bool
is_late none = false
is_late (some e) = is e context_deadline_exceeded

abbrev pub is_forced : Option Failure → Bool
is_forced result = not (ends_well result) && is_late result

abbrev pub is_clean : ShutdownErrors → Bool
is_clean nil = true
is_clean (cons e es) = false

clean-append :
    (es fs : ShutdownErrors) → is_clean (append_errors es fs) ≡ (is_clean es && is_clean fs)
unfolding append_errors
clean-append nil fs = refl
clean-append (cons e es) fs = refl

-- What the errors of a part have of the outcomes that are looked for.
abbrev pub Has : ShutdownErrors → Bool → Bool → Bool → Type 0
Has es clean forced late =
    (is_clean es ≡ clean)
    × (has_among es outcome_forced ≡ forced)
    × (has_among es outcome_timed_out ≡ late)

pub Has-append :
    (es fs : ShutdownErrors) (a b c a' b' c' : Bool)
    → Has es a b c
    → Has fs a' b' c'
    → Has (append_errors es fs) (a && a') (b || b') (c || c')
Has-append es fs a b c a' b' c' h k = (
  ground (arith, clean-append es fs, h, k),
  ground (arith, among-append es fs outcome_forced, h, k),
  ground (arith, among-append es fs outcome_timed_out, h, k),
)

closed_error-Has :
    (name : String) (late : Bool) (e : Failure) (f : Option Failure)
    → Has
        (one (closed_error name (if late then outcome_forced else outcome_failed) e f))
        false
        late
        false
unfolding closed_error has_shutdown_outcome
closed_error-Has name true e none = (refl, refl, refl)
closed_error-Has name false e none = (refl, refl, refl)
closed_error-Has name true e (some f) = (refl, refl, refl)
closed_error-Has name false e (some f) = (refl, refl, refl)

pub shutdown_of-Has :
    (name : String) (close result : Option Failure)
    → Has (shutdown_of name close result).1 (ends_well result) (is_forced result) false
unfolding shutdown_of has_shutdown_outcome
shutdown_of-Has name close none = (refl, refl, refl)
shutdown_of-Has name close (some e) = elim (Bool-cases (is e http_server_closed)) [
  | inl w ↦ rw w (refl, refl, refl)
  | inr w ↦
      let h = closed_error-Has name (is e context_deadline_exceeded) e (close_failure close) in
      rw w (h.0, h.1, h.2)
]

pub stop_error-Has :
    (name : String) (late : ShutdownOutcome) (result : Option Failure)
    → Has
        (stop_error name late result)
        (is_nil result)
        (is_late result && outcome_eq late outcome_forced)
        (is_late result && outcome_eq late outcome_timed_out)
unfolding stop_error has_shutdown_outcome
stop_error-Has name late none = (refl, refl, refl)
stop_error-Has name late (some e) = elim (Bool-cases (is e context_deadline_exceeded)) [
  | inl l ↦ (refl, ground (arith, l), ground (arith, l))
  | inr l ↦ (refl, ground (arith, l), ground (arith, l))
]

-- How the service stops by what its components return: well, if all end well; forced, if a server or
-- gRPC was late; out of time, if only the pool was late; failed otherwise.
abbrev pub https_end : Option HttpServer → Option Failure
https_end none = none
https_end (some srv) = srv.shutdown

abbrev pub present : Option (Option Failure) → Option Failure
present none = none
present (some result) = result

abbrev pub verdict : Components → Bool → ShutdownOutcome
verdict c run_well =
    if run_well
      && ((ends_well c.http.shutdown && ends_well (https_end c.https))
          && (is_nil (present c.grpc) && (is_nil c.pool && is_nil (present c.hub))))
    then outcome_graceful
    else if (is_forced c.http.shutdown || is_forced (https_end c.https)) || is_late (present c.grpc)
    then outcome_forced
    else if is_late c.pool
    then outcome_timed_out
    else outcome_failed
