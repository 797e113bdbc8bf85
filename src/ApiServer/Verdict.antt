-- ===== src/ApiServer/Verdict.antt =====
-- The outcome that Run of internal/api/server.go reports, by what its components return.
use go_max_tech_stack.ApiServer.{
  ShutdownOutcome, outcome_graceful, outcome_forced, outcome_timed_out, outcome_failed,
  ShutdownErrors, nil, cons, HttpServer, join_errors, close_hub, has_among, has_in,
  has_shutdown_outcome, is_nil, overall_shutdown_outcome, shutdown_grpc, shutdown_http_servers,
  shutdown_of, shutdown_worker_pool, Components, Trigger, append_errors, cleanup, reported_outcome,
  run_error,
}
use go_max_tech_stack.ApiServer.Outcomes.{
  Has, is_clean, is_forced, is_late, ends_well, https_end, present, Has-append, joined-has,
  shutdown_of-Has, stop_error-Has, verdict,
}
use go_max_tech_stack.Failure.{Failure}
use go_max_tech_stack.Prelude.{
  ◌&&◌, Bool, Option, arith, false, if◌then◌else◌, none, refl, some, true, ◌||◌, ◌≡◌, ap, ◌∙◌,
}

shutdown_http_servers-Has :
    (swapped : Bool) (http : HttpServer) (https : Option HttpServer)
    → Has
        (shutdown_http_servers swapped http https).1
        (ends_well http.shutdown && ends_well (https_end https))
        (is_forced http.shutdown || is_forced (https_end https))
        false
unfolding shutdown_http_servers
shutdown_http_servers-Has swapped http none =
    let h = shutdown_of-Has "http" http.close http.shutdown in
    (ground (arith, h), ground (arith, h), h.2)
shutdown_http_servers-Has true http (some https) =
    let h = shutdown_of-Has "http" http.close http.shutdown in
    let k = shutdown_of-Has "https" https.close https.shutdown in
    let both =
      Has-append (shutdown_of "https" https.close https.shutdown).1
        (shutdown_of "http" http.close http.shutdown).1 _ _ _ _ _ _ k h in
    (ground (arith, both), ground (arith, both), both.2)
shutdown_http_servers-Has false http (some https) =
    let h = shutdown_of-Has "http" http.close http.shutdown in
    let k = shutdown_of-Has "https" https.close https.shutdown in
    Has-append (shutdown_of "http" http.close http.shutdown).1
      (shutdown_of "https" https.close https.shutdown).1 _ _ _ _ _ _ h k

shutdown_grpc-Has :
    (grpc : Option (Option Failure))
    → Has (shutdown_grpc grpc).1 (is_nil (present grpc)) (is_late (present grpc)) false
unfolding shutdown_grpc has_shutdown_outcome
shutdown_grpc-Has none = (refl, refl, refl)
shutdown_grpc-Has (some result) =
    let h = stop_error-Has "grpc" outcome_forced result in
    (h.0, ground (arith, h), ground (arith, h))

shutdown_worker_pool-Has :
    (pool : Option Failure) → Has (shutdown_worker_pool pool).1 (is_nil pool) false (is_late pool)
unfolding shutdown_worker_pool
shutdown_worker_pool-Has pool =
    let h = stop_error-Has "workerpool" outcome_timed_out pool in
    (h.0, ground (arith, h), ground (arith, h))

close_hub-Has :
    (hub : Option (Option Failure)) → Has (close_hub hub).1 (is_nil (present hub)) false false
unfolding close_hub has_shutdown_outcome
close_hub-Has none = (refl, refl, refl)
close_hub-Has (some none) = (refl, refl, refl)
close_hub-Has (some (some e)) = (refl, refl, refl)

joined-in : (es : ShutdownErrors) (o : ShutdownOutcome) → has_in (join_errors es) o ≡ has_among es o
unfolding has_shutdown_outcome
joined-in nil o = refl
joined-in (cons e es) o = joined-has (cons e es) o

joined-nil : (es : ShutdownErrors) → is_nil (join_errors es) ≡ is_clean es
joined-nil nil = refl
joined-nil (cons e es) = refl

overall-Has :
    (run_err : Option Failure) (es : ShutdownErrors) (clean forced late : Bool)
    → Has es clean forced late
    → overall_shutdown_outcome run_err (join_errors es) ≡ (
        if is_nil run_err && clean
        then outcome_graceful
        else if forced
        then outcome_forced
        else if late
        then outcome_timed_out
        else outcome_failed)
unfolding overall_shutdown_outcome
overall-Has run_err es clean forced late h =
    rw (joined-nil es, joined-in es outcome_forced, joined-in es outcome_timed_out, h.0, h.1, h.2)
      refl

or-false : (b : Bool) → (b || (false || false)) ≡ b
or-false true = refl
or-false false = refl

false-or : (b : Bool) → (false || (false || (b || false))) ≡ b
false-or true = refl
false-or false = refl

cleanup-Has :
    (swapped : Bool) (c : Components)
    → (es : ShutdownErrors) × ((cleanup swapped c).1 ≡ join_errors es)
      × Has es
          ((ends_well c.http.shutdown && ends_well (https_end c.https))
            && (is_nil (present c.grpc) && (is_nil c.pool && is_nil (present c.hub))))
          ((is_forced c.http.shutdown || is_forced (https_end c.https)) || is_late (present c.grpc))
          (is_late c.pool)
unfolding cleanup
cleanup-Has swapped c =
    let es = (shutdown_http_servers swapped c.http c.https).1 in
    let fs = (shutdown_grpc c.grpc).1 in
    let gs = (shutdown_worker_pool c.pool).1 in
    let hs = (close_hub c.hub).1 in
    let last =
      Has-append gs hs _ _ _ _ _ _ (shutdown_worker_pool-Has c.pool) (close_hub-Has c.hub) in
    let rest = Has-append fs (append_errors gs hs) _ _ _ _ _ _ (shutdown_grpc-Has c.grpc) last in
    let all =
      Has-append es (append_errors fs (append_errors gs hs)) _ _ _ _ _ _
        (shutdown_http_servers-Has swapped c.http c.https) rest in
    (
      append_errors es (append_errors fs (append_errors gs hs)),
      refl,
      (
        all.0,
        all.1
            ∙ ap (λ b. (is_forced c.http.shutdown || is_forced (https_end c.https)) || b)
                (or-false (is_late (present c.grpc))),
        all.2 ∙ false-or (is_late c.pool),
      ),
    )

-- The end of Run reports exactly how it went, whichever of the servers' errors is received first:
-- graceful if nothing has failed; forced if a server or gRPC had to be cut off at the deadline; timed
-- out if only the worker pool was late; failed in any other case.
pub reported_outcome_exact :
    (trigger : Trigger) (swapped : Bool) (c : Components)
    → reported_outcome trigger swapped c ≡ verdict c (is_nil (run_error trigger))
unfolding reported_outcome
reported_outcome_exact trigger swapped c =
    let (es, e, h) = cleanup-Has swapped c in
    ap (overall_shutdown_outcome (run_error trigger)) e ∙ overall-Has (run_error trigger) es _ _ _ h
