-- ===== src/Config/Sound.antt =====
-- What a configuration that `Load` of internal/config/config.go returns guarantees.
use go_max_tech_stack.Config.{
  Config, WorkerPoolConfig, RateLimiterConfig, BulkheadConfig, TelemetryConfig, OutboundConfig,
  OutboundProfileConfig,
}
use go_max_tech_stack.Config.Loading.{
  loaded, Post, returns, Post-bind, Post-then, Post-any, Post-loaded,
}
use go_max_tech_stack.Config.Lookup.{Platform, one_of}
use go_max_tech_stack.Config.Load.{load, read_all, load_outbound, load_profile}
use go_max_tech_stack.Config.Ranges.{
  IsPositive, IsInRangeHttp, IsInRangeDb, IsInRangeRetry, IsInRangeStreaming, IsInRangeTransport,
  IsNonNegative, load_db-Post, load_http_limits-Post, load_retry-Post, load_streaming-Post,
  load_transport-Post, lookup_duration_positive-Post, lookup_int_positive-Post,
}
use go_max_tech_stack.Config.Checks.{environments}
use go_max_tech_stack.Config.Defaults.{default_config}
use go_max_tech_stack.Config.Listeners.{
  IsGuardedGrpc, IsServedTls, load_grpc-Post, load_http_listener-Post,
}
use go_max_tech_stack.Config.Secure.{
  IsHardened, IsSharing, IsVerifying, load_cors-Post, load_jwt-Post, load_runtime-Post,
  load_security_headers-Post,
}
use go_max_tech_stack.Config.Servers.{load_bulkhead, load_limiter, load_pool, load_telemetry}
use go_max_tech_stack.Prelude.{true, ◌≡◌, ◌≤◌, arith, refl, subst, sym}
use go_max_tech_stack.Config.Profile.{IsProfiled, validate_security_profile-Post}

abbrev pub IsInRangePool : WorkerPoolConfig → Type 0
IsInRangePool c = IsPositive c.workers × IsPositive c.queue_size

abbrev pub IsInRangeLimiter : RateLimiterConfig → Type 0
IsInRangeLimiter c = IsPositive c.rps × IsPositive c.burst

abbrev pub IsInRangeOutbound : OutboundConfig → Type 0
IsInRangeOutbound c =
    IsInRangeTransport c.transport × IsInRangeRetry c.retry × IsPositive c.profile.timeout

-- Timeouts, sizes and rates are above zero, the limits of connections are not below.
abbrev pub IsInRange : Config → Type 0
IsInRange c =
    IsPositive c.telemetry.shutdown_timeout
    × IsInRangeHttp c.http
    × IsInRangeStreaming c.streaming
    × IsInRangePool c.pool
    × IsInRangeLimiter c.limiter
    × IsPositive c.bulkhead.max_parallel
    × IsInRangeDb c.db
    × IsInRangeOutbound c.outbound
    × IsNonNegative c.auth.jwt.clock_skew
    × IsNonNegative c.cors.max_age

default_config-IsInRange : IsInRange default_config
default_config-IsInRange = (
  refl,
  (refl, refl, refl, refl, refl, refl),
  (refl, refl, refl),
  (refl, refl),
  (refl, refl),
  refl,
  (refl, refl, refl, refl, refl, refl),
  ((refl, refl, refl, refl, refl, refl), (refl, refl, refl), refl),
  refl,
  refl,
)

module _ (p : Platform) where
  -- The parts are safe: the environment is known, the listeners are guarded, the keys are apart, no
  -- origin at all is trusted with credentials, and HSTS has an age.
  abbrev pub IsGuarded : Config → Type 0
  IsGuarded c =
      (one_of c.runtime.environment environments ≡ true)
      × IsServedTls c.http.tls
      × IsGuardedGrpc p c.grpc
      × IsVerifying c.auth.jwt
      × IsSharing c.cors
      × IsHardened c.security_headers

  load_telemetry-Post :
      (d : TelemetryConfig)
      → IsPositive d.shutdown_timeout
      → Post (λ c. IsPositive c.shutdown_timeout) (load_telemetry p d)
  unfolding load_telemetry
  load_telemetry-Post d h =
      Post-bind Post-any
        (λ a ha. Post-bind (lookup_duration_positive-Post p _ _ h) (λ b hb. returns hb))

  load_pool-Post : (d : WorkerPoolConfig) → IsInRangePool d → Post IsInRangePool (load_pool p d)
  unfolding load_pool
  load_pool-Post d h =
      Post-bind (lookup_int_positive-Post p _ _ h.0)
        (λ a ha. Post-bind (lookup_int_positive-Post p _ _ h.1) (λ b hb. returns (ha, hb)))

  load_limiter-Post :
      (d : RateLimiterConfig) → IsInRangeLimiter d → Post IsInRangeLimiter (load_limiter p d)
  unfolding load_limiter
  load_limiter-Post d h =
      Post-bind (lookup_int_positive-Post p _ _ h.0)
        (λ a ha. Post-bind (lookup_int_positive-Post p _ _ h.1) (λ b hb. returns (ha, hb)))

  load_bulkhead-Post :
      (d : BulkheadConfig)
      → IsPositive d.max_parallel
      → Post (λ c. IsPositive c.max_parallel) (load_bulkhead p d)
  unfolding load_bulkhead
  load_bulkhead-Post d h = Post-bind (lookup_int_positive-Post p _ _ h) (λ a ha. returns ha)

  load_profile-Post :
      (d : OutboundProfileConfig)
      → IsPositive d.timeout
      → Post (λ c. IsPositive c.timeout) (load_profile p d)
  unfolding load_profile
  load_profile-Post d h =
      Post-bind Post-any
        (λ a ha. Post-bind (lookup_duration_positive-Post p _ _ h) (λ b hb. returns hb))

  load_outbound-Post :
      (d : OutboundConfig) → IsInRangeOutbound d → Post IsInRangeOutbound (load_outbound p d)
  unfolding load_outbound
  load_outbound-Post d h = Post-bind (load_transport-Post p _ h.0) (λ a ha.
      Post-bind (load_retry-Post p _ h.1)
        (λ b hb. Post-bind (load_profile-Post _ h.2) (λ c hc. returns (ha, hb, hc))))

  -- What is read keeps the ranges of the defaults, whose least version of TLS is 1.2.
  read_all-Post :
      (d : Config)
      → IsInRange d
      → 771 ≤ d.http.tls.min_version
      → Post (λ c. IsInRange c × IsGuarded c) (read_all p d)
  unfolding read_all
  read_all-Post d r v = Post-bind (load_runtime-Post p _) (λ runtime hr.
      Post-bind Post-any (λ logging hl. Post-bind (load_telemetry-Post _ r.0) (λ telemetry ht.
        Post-bind (load_http_listener-Post p _ r.1 v) (λ listener hi.
          Post-bind (load_grpc-Post p _) (λ grpc hg.
            Post-bind (load_streaming-Post p _ r.2) (λ streaming hs.
              Post-bind (load_http_limits-Post p _ hi.0) (λ http hh.
                Post-bind (load_pool-Post _ r.3) (λ pool hp.
                  Post-bind (load_limiter-Post _ r.4) (λ limiter hm.
                    Post-bind (load_bulkhead-Post _ r.5) (λ slots hb.
                      Post-bind (load_db-Post p _ r.6) (λ db hd.
                        Post-bind (load_outbound-Post _ r.7) (λ outbound ho.
                          Post-bind (load_jwt-Post p _ r.8) (λ jwt hj.
                            Post-bind (load_cors-Post p _ r.9) (λ sharing hc.
                              Post-bind Post-any (λ proxy hx.
                                Post-bind (load_security_headers-Post p _) (λ headers hq. returns (
                                  (ht, hh.0, hs, hp, hm, hb, hd, ho, hj.1, hc.0),
                                  (hr, subst IsServedTls (sym hh.1) hi.1, hg, hj, hc, hq),
                                )))))))))))))))))

  load-Post : Post (λ c. (IsInRange c × IsGuarded c) × IsProfiled p c) (load p)
  unfolding load
  load-Post =
      Post-bind (read_all-Post default_config default_config-IsInRange (omega arith))
        (λ c h. Post-then (validate_security_profile-Post p c) (λ k. returns (h, k)))

  -- In a configuration that is loaded every timeout, size and rate is above zero, and no limit of
  -- connections, skew or age is below zero, whatever the environment holds.
  pub load-IsInRange : (c : Config) → load p ≡ loaded c → IsInRange c
  load-IsInRange c h = (Post-loaded load-Post h).0.0

  -- A configuration that is loaded has a known environment; serves TLS of at least 1.2, and HTTPS only
  -- with a certificate and a key; serves gRPC in plaintext or with reflection only on a loopback
  -- listener; verifies tokens with HS256 and with keys of distinct kids; trusts no origin at all with
  -- credentials; and has a known referrer policy, and an age for HSTS if that is on.
  pub load-IsGuarded : (c : Config) → load p ≡ loaded c → IsGuarded c
  load-IsGuarded c h = (Post-loaded load-Post h).0.1

  -- In a configuration that is loaded no key has a secret of the development unless the environment is
  -- the development's; headers of proxies are trusted only from listed ranges, none of which is every
  -- address; and in staging and production TLS is at least 1.2, the security headers are on, the
  -- issuer and the audience are given, and each secret has at least 32 bytes.
  pub load-IsProfiled : (c : Config) → load p ≡ loaded c → IsProfiled p c
  load-IsProfiled c h = (Post-loaded load-Post h).1
