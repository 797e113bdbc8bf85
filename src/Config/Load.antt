-- ===== src/Config/Load.antt =====
-- The second part of `Load` of internal/config/config.go, and the whole: the calls of other services,
-- who is let in, and the check of the values together.
use go_max_tech_stack.Config.Loading.{
  Loading, loaded, reject_if, ◌>>=◌, ◌>>◌, is_empty, is_required, any_origin_with_credentials,
}
use go_max_tech_stack.Config.Lookup.{
  Platform, lookup_string_non_empty, lookup_bool, lookup_int_positive, lookup_int_non_negative,
  lookup_duration_positive, lookup_duration_non_negative, lookup_url_absolute_parsed,
}
use go_max_tech_stack.Config.Items.{
  join_jwt_keys, parse_jwt_keys, parse_cors_origins, parse_http_methods_csv, parse_http_headers_csv,
  parse_trusted_proxies, contains_string,
}
use go_max_tech_stack.Config.Checks.{
  validate_jwt_alg, validate_referrer_policy, validate_security_profile,
}
use go_max_tech_stack.Config.Defaults.{default_config}
use go_max_tech_stack.Text.{Text, codes, text_eq, trim_space}
use go_max_tech_stack.Prelude.{◌&&◌, List, String, [], is_le_zero, none, some}
use go_max_tech_stack.Config.{
  Config, CorsConfig, JwtConfig, OutboundConfig, OutboundProfileConfig, OutboundRetryConfig,
  OutboundTransportConfig, ProxyConfig, SecurityHeadersConfig,
}
use go_max_tech_stack.Config.Servers.{
  load_bulkhead, load_db, load_grpc, load_http_limits, load_http_listener, load_limiter,
  load_logging, load_pool, load_runtime, load_streaming, load_telemetry,
}

module _ (p : Platform) where
  open p use {lookup_env, lower, url_text}

  unfoldable pub load_transport : OutboundTransportConfig → Loading OutboundTransportConfig
  unfolding lookup_duration_positive lookup_int_non_negative lookup_int_positive
  load_transport d = do
    idle ← lookup_duration_positive p "OUTBOUND_TRANSPORT_IDLE_CONN_TIMEOUT" d.idle_conn_timeout
    max_idle ← lookup_int_non_negative p "OUTBOUND_TRANSPORT_MAX_IDLE_CONNS" d.max_idle_conns
    per_host ←
        lookup_int_positive p "OUTBOUND_TRANSPORT_MAX_IDLE_CONNS_PER_HOST" d.max_idle_conns_per_host
    max_conns ←
        lookup_int_non_negative p "OUTBOUND_TRANSPORT_MAX_CONNS_PER_HOST" d.max_conns_per_host
    handshake ←
        lookup_duration_positive p "OUTBOUND_TRANSPORT_TLS_HANDSHAKE_TIMEOUT"
          d.tls_handshake_timeout
    header ←
        lookup_duration_positive p "OUTBOUND_TRANSPORT_RESPONSE_HEADER_TIMEOUT"
          d.response_header_timeout
    loaded (record {
      idle_conn_timeout = idle;
      max_idle_conns = max_idle;
      max_idle_conns_per_host = per_host;
      max_conns_per_host = max_conns;
      tls_handshake_timeout = handshake;
      response_header_timeout = header;
    })

  unfoldable pub load_retry : OutboundRetryConfig → Loading OutboundRetryConfig
  unfolding lookup_int_positive lookup_duration_positive
  load_retry d = do
    attempts ← lookup_int_positive p "OUTBOUND_RETRY_MAX_ATTEMPTS" d.max_attempts
    base ← lookup_duration_positive p "OUTBOUND_RETRY_BASE_DELAY" d.base_delay
    cap ← lookup_duration_positive p "OUTBOUND_RETRY_MAX_DELAY" d.max_delay
    loaded (record { max_attempts = attempts; base_delay = base; max_delay = cap })

  unfoldable pub load_profile : OutboundProfileConfig → Loading OutboundProfileConfig
  unfolding lookup_url_absolute_parsed lookup_duration_positive
  load_profile d = do
    base ← lookup_url_absolute_parsed p "OUTBOUND_PROFILE_BASE_URL" (url_text d.base)
    timeout ← lookup_duration_positive p "OUTBOUND_PROFILE_TIMEOUT" d.timeout
    loaded (record { base = base; timeout = timeout })

  unfoldable pub load_outbound : OutboundConfig → Loading OutboundConfig
  unfolding load_transport load_retry load_profile
  load_outbound d = do
    transport ← load_transport d.transport
    retry ← load_retry d.retry
    profile ← load_profile d.profile
    loaded (record { profile = profile; transport = transport; retry = retry })

  unfoldable pub load_jwt : JwtConfig → Loading JwtConfig
  unfolding lookup_string_non_empty lookup_duration_non_negative validate_jwt_alg join_jwt_keys
      parse_jwt_keys
  load_jwt d = do
    alg ← lookup_string_non_empty p "AUTH_JWT_ALLOWED_ALG" d.allowed_alg
    validate_jwt_alg alg
    skew ← lookup_duration_non_negative p "AUTH_JWT_CLOCK_SKEW" d.clock_skew
    issuer ← lookup_string_non_empty p "AUTH_JWT_ISSUER" d.issuer
    audience ← lookup_string_non_empty p "AUTH_JWT_AUDIENCE" d.audience
    raw ← lookup_string_non_empty p "AUTH_JWT_KEYS" (join_jwt_keys d.keys)
    keys ← parse_jwt_keys "AUTH_JWT_KEYS" raw
    loaded (record {
      allowed_alg = alg;
      issuer = issuer;
      audience = audience;
      clock_skew = skew;
      keys = keys;
    })

  -- `raw, ok := os.LookupEnv(key); if ok { ... }`, for a list of items.
  unfoldable pub lookup_list {ℓ} :
      {A : Type ℓ} → String → (Text → Loading (List A)) → List A → Loading (List A)
  lookup_list key parse def = elim (lookup_env key) [
    | none ↦ loaded def
    | some raw ↦ do reject_if (text_eq (trim_space raw) []) key [] is_empty; parse (trim_space raw)
  ]

  unfoldable pub load_cors : CorsConfig → Loading CorsConfig
  unfolding lookup_list parse_cors_origins parse_http_methods_csv parse_http_headers_csv lookup_bool
      lookup_duration_non_negative contains_string
  load_cors d = do
    origins ←
        lookup_list "CORS_ALLOWED_ORIGINS" (parse_cors_origins p "CORS_ALLOWED_ORIGINS")
          d.allowed_origins
    methods ←
        lookup_list "CORS_ALLOWED_METHODS" (parse_http_methods_csv p "CORS_ALLOWED_METHODS")
          d.allowed_methods
    headers ←
        lookup_list "CORS_ALLOWED_HEADERS" (parse_http_headers_csv p "CORS_ALLOWED_HEADERS")
          d.allowed_headers
    credentials ← lookup_bool p "CORS_ALLOW_CREDENTIALS" d.allow_credentials
    max_age ← lookup_duration_non_negative p "CORS_MAX_AGE" d.max_age
    reject_if (credentials && contains_string origins (codes "*")) "CORS_ALLOW_CREDENTIALS" []
        any_origin_with_credentials
    loaded (record {
      allowed_origins = origins;
      allowed_methods = methods;
      allowed_headers = headers;
      allow_credentials = credentials;
      max_age = max_age;
    })

  unfoldable pub load_proxy : ProxyConfig → Loading ProxyConfig
  unfolding lookup_list parse_trusted_proxies lookup_bool
  load_proxy d = do
    proxies ←
        lookup_list "PROXY_TRUSTED_PROXIES" (parse_trusted_proxies p "PROXY_TRUSTED_PROXIES")
          d.trusted_proxies
    xff ← lookup_bool p "PROXY_TRUST_XFF" d.trust_xff
    xfp ← lookup_bool p "PROXY_TRUST_XFP" d.trust_xfp
    loaded (record { trusted_proxies = proxies; trust_xff = xff; trust_xfp = xfp })

  unfoldable pub load_security_headers : SecurityHeadersConfig → Loading SecurityHeadersConfig
  unfolding lookup_bool lookup_string_non_empty validate_referrer_policy
      lookup_duration_non_negative
  load_security_headers d = do
    enable ← lookup_bool p "SECURITY_HEADERS_ENABLE" d.enable
    policy ← lookup_string_non_empty p "SECURITY_HEADERS_REFERRER_POLICY" d.referrer_policy
    validate_referrer_policy policy
    hsts ← lookup_bool p "SECURITY_HEADERS_HSTS_ENABLE" d.hsts.enable
    max_age ← lookup_duration_non_negative p "SECURITY_HEADERS_HSTS_MAX_AGE" d.hsts.max_age
    reject_if (hsts && is_le_zero max_age) "SECURITY_HEADERS_HSTS_ENABLE" [] is_required
    loaded (record {
      enable = enable;
      referrer_policy = policy;
      hsts = record { enable = hsts; max_age = max_age };
    })

  -- Everything but the check of the whole.
  unfoldable pub read_all : Config → Loading Config
  unfolding load_runtime load_logging load_telemetry load_http_listener load_grpc load_streaming
      load_http_limits load_pool load_limiter load_bulkhead load_db load_outbound load_jwt load_cors
      load_proxy load_security_headers
  read_all d = do
    runtime ← load_runtime p d.runtime
    logging ← load_logging p d.logging
    telemetry ← load_telemetry p d.telemetry
    listener ← load_http_listener p d.http
    grpc ← load_grpc p d.grpc
    streaming ← load_streaming p d.streaming
    http ← load_http_limits p listener
    pool ← load_pool p d.pool
    limiter ← load_limiter p d.limiter
    slots ← load_bulkhead p d.bulkhead
    db ← load_db p d.db
    outbound ← load_outbound d.outbound
    jwt ← load_jwt d.auth.jwt
    sharing ← load_cors d.cors
    proxy ← load_proxy d.proxy
    headers ← load_security_headers d.security_headers
    loaded (record {
      runtime = runtime;
      logging = logging;
      telemetry = telemetry;
      http = http;
      db = db;
      pool = pool;
      limiter = limiter;
      bulkhead = slots;
      outbound = outbound;
      auth = record { jwt = jwt };
      cors = sharing;
      proxy = proxy;
      security_headers = headers;
      grpc = grpc;
      streaming = streaming;
    })

  unfoldable pub load : Loading Config
  unfolding read_all validate_security_profile
  load = do cfg ← read_all default_config; validate_security_profile p cfg; loaded cfg
