-- ===== src/Config/Ranges.antt =====
-- The ranges of the numbers that `Load` of internal/config/config.go reads.
use go_max_tech_stack.Config.{
  HttpConfig, DbConfig, StreamingConfig, OutboundTransportConfig, OutboundRetryConfig,
}
use go_max_tech_stack.Config.Loading.{
  Post, returns, ends, Post-bind, Post-any, Post-if, Reason, below_zero, no_duration, no_int,
  not_above_zero, Post-then,
}
use go_max_tech_stack.Config.Lookup.{
  Platform, lookup_duration_non_negative, lookup_duration_positive, lookup_int_non_negative,
  lookup_int_positive, lookup_number,
}
use go_max_tech_stack.Prelude.{
  Option-cases, String, false, inl, inr, is_le_zero, is_neg, ℤ, ◌≡◌, Bool, Option, refl,
}
use go_max_tech_stack.Config.Servers.{load_http_limits, load_streaming, load_db}
use go_max_tech_stack.Text.{trim_space, Text}
use go_max_tech_stack.Config.Load.{load_retry, load_transport}

abbrev pub IsPositive : ℤ → Type 0
IsPositive x = is_le_zero x ≡ false

abbrev pub IsNonNegative : ℤ → Type 0
IsNonNegative x = is_neg x ≡ false

module _ (p : Platform) where
  open p use {lookup_env, atoi, parse_duration}

  -- A number that is read is none of the wrong ones, if the default is none of them.
  lookup_number-Post :
      (parse : Text → Option ℤ) (no_number : Reason) (wrong : ℤ → Bool) (why : Reason)
      (key : String) (def : ℤ)
      → wrong def ≡ false
      → Post (λ n. wrong n ≡ false) (lookup_number p parse no_number wrong why key def)
  unfolding lookup_number
  lookup_number-Post parse no_number wrong why key def h = elim (Option-cases (lookup_env key)) [
    | inl e ↦ rw (e, lookup_number) (returns h)
    | inr (v, e) ↦ elim (Option-cases (parse (trim_space v))) [
      | inl f ↦ rw (e, lookup_number, f) ends
      | inr (n, f) ↦ rw (e, lookup_number, f) (Post-then (Post-if _ _ _ _) (λ w. returns w))
    ]
  ]

  pub lookup_int_positive-Post :
      (key : String) (def : ℤ) → IsPositive def → Post IsPositive (lookup_int_positive p key def)
  unfolding lookup_int_positive
  lookup_int_positive-Post = lookup_number-Post atoi no_int is_le_zero not_above_zero

  pub lookup_int_non_negative-Post :
      (key : String) (def : ℤ)
      → IsNonNegative def
      → Post IsNonNegative (lookup_int_non_negative p key def)
  unfolding lookup_int_non_negative
  lookup_int_non_negative-Post = lookup_number-Post atoi no_int is_neg below_zero

  pub lookup_duration_positive-Post :
      (key : String) (def : ℤ)
      → IsPositive def
      → Post IsPositive (lookup_duration_positive p key def)
  unfolding lookup_duration_positive
  lookup_duration_positive-Post =
      lookup_number-Post parse_duration no_duration is_le_zero not_above_zero

  pub lookup_duration_non_negative-Post :
      (key : String) (def : ℤ)
      → IsNonNegative def
      → Post IsNonNegative (lookup_duration_non_negative p key def)
  unfolding lookup_duration_non_negative
  lookup_duration_non_negative-Post =
      lookup_number-Post parse_duration no_duration is_neg below_zero

abbrev pub IsInRangeStreaming : StreamingConfig → Type 0
IsInRangeStreaming c =
    IsPositive c.sse_heartbeat × IsPositive c.subscriber_buffer × IsPositive c.write_timeout

abbrev pub IsInRangeHttp : HttpConfig → Type 0
IsInRangeHttp c =
    IsPositive c.read_header_timeout
    × IsPositive c.read_timeout
    × IsPositive c.write_timeout
    × IsPositive c.idle_timeout
    × IsPositive c.shutdown_timeout
    × IsPositive c.max_header_bytes

abbrev pub IsInRangeDb : DbConfig → Type 0
IsInRangeDb c =
    IsNonNegative c.max_open_conns
    × IsNonNegative c.max_idle_conns
    × IsPositive c.conn_max_lifetime
    × IsPositive c.conn_max_idle_time
    × IsPositive c.query_timeout
    × IsPositive c.ping_timeout

abbrev pub IsInRangeTransport : OutboundTransportConfig → Type 0
IsInRangeTransport c =
    IsPositive c.idle_conn_timeout
    × IsNonNegative c.max_idle_conns
    × IsPositive c.max_idle_conns_per_host
    × IsNonNegative c.max_conns_per_host
    × IsPositive c.tls_handshake_timeout
    × IsPositive c.response_header_timeout

abbrev pub IsInRangeRetry : OutboundRetryConfig → Type 0
IsInRangeRetry c = IsPositive c.max_attempts × IsPositive c.base_delay × IsPositive c.max_delay

module _ (p : Platform) where
  pub load_streaming-Post :
      (d : StreamingConfig) → IsInRangeStreaming d → Post IsInRangeStreaming (load_streaming p d)
  unfolding load_streaming
  load_streaming-Post d h = Post-bind (lookup_duration_positive-Post p _ _ h.2) (λ t ht.
      Post-bind (lookup_int_positive-Post p _ _ h.1) (λ b hb.
        Post-bind (lookup_duration_positive-Post p _ _ h.0) (λ s hs. returns (hs, hb, ht))))

  pub load_http_limits-Post :
      (d : HttpConfig)
      → IsInRangeHttp d
      → Post (λ c. IsInRangeHttp c × (c.tls ≡ d.tls)) (load_http_limits p d)
  unfolding load_http_limits
  load_http_limits-Post d h = Post-bind (lookup_duration_positive-Post p _ _ h.0) (λ a ha.
      Post-bind (lookup_duration_positive-Post p _ _ h.1) (λ b hb.
        Post-bind (lookup_duration_positive-Post p _ _ h.2) (λ c hc.
          Post-bind (lookup_duration_positive-Post p _ _ h.3) (λ e he.
            Post-bind (lookup_duration_positive-Post p _ _ h.4) (λ f hf. Post-bind Post-any (λ g hg.
              Post-bind (lookup_int_positive-Post p _ _ h.5)
                (λ k hk. returns ((ha, hb, hc, he, hf, hk), refl))))))))

  pub load_db-Post : (d : DbConfig) → IsInRangeDb d → Post IsInRangeDb (load_db p d)
  unfolding load_db
  load_db-Post d h = Post-bind Post-any (λ a ha. Post-bind Post-any (λ b hb.
      Post-bind (lookup_int_non_negative-Post p _ _ h.0) (λ c hc.
        Post-bind (lookup_int_non_negative-Post p _ _ h.1) (λ e he.
          Post-bind (lookup_duration_positive-Post p _ _ h.2) (λ f hf.
            Post-bind (lookup_duration_positive-Post p _ _ h.3) (λ g hg.
              Post-bind (lookup_duration_positive-Post p _ _ h.4) (λ k hk.
                Post-bind (lookup_duration_positive-Post p _ _ h.5)
                  (λ l hl. returns (hc, he, hf, hg, hk, hl)))))))))

  pub load_transport-Post :
      (d : OutboundTransportConfig)
      → IsInRangeTransport d
      → Post IsInRangeTransport (load_transport p d)
  unfolding load_transport
  load_transport-Post d h = Post-bind (lookup_duration_positive-Post p _ _ h.0) (λ a ha.
      Post-bind (lookup_int_non_negative-Post p _ _ h.1) (λ b hb.
        Post-bind (lookup_int_positive-Post p _ _ h.2) (λ c hc.
          Post-bind (lookup_int_non_negative-Post p _ _ h.3) (λ e he.
            Post-bind (lookup_duration_positive-Post p _ _ h.4) (λ f hf.
              Post-bind (lookup_duration_positive-Post p _ _ h.5)
                (λ g hg. returns (ha, hb, hc, he, hf, hg)))))))

  pub load_retry-Post :
      (d : OutboundRetryConfig) → IsInRangeRetry d → Post IsInRangeRetry (load_retry p d)
  unfolding load_retry
  load_retry-Post d h = Post-bind (lookup_int_positive-Post p _ _ h.0) (λ a ha.
      Post-bind (lookup_duration_positive-Post p _ _ h.1) (λ b hb.
        Post-bind (lookup_duration_positive-Post p _ _ h.2) (λ c hc. returns (ha, hb, hc))))
