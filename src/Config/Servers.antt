-- ===== src/Config/Servers.antt =====
-- The first part of `Load` of internal/config/config.go: the servers, the pool and the database. Each
-- function is a run of its assignments to one structure, in the order of the code, and takes the
-- structure of the defaults. The HTTP server is read in two runs, before and after gRPC.
use go_max_tech_stack.Config.Loading.{
  Loading, loaded, reject_if, ◌>>=◌, ◌>>◌, is_required, needs_loopback,
}
use go_max_tech_stack.Config.Lookup.{
  Platform, lookup_string_non_empty, lookup_bool, lookup_int_positive, lookup_int_non_negative,
  lookup_duration_positive, lookup_tls_min_version, split_listen_addr, is_loopback_listen_addr,
}
use go_max_tech_stack.Config.Logging.{lookup_log_level, lookup_log_format}
use go_max_tech_stack.Config.Checks.{validate_environment}
use go_max_tech_stack.Text.{Text, text_eq, trim_space}
use go_max_tech_stack.Prelude.{◌&&◌, [], if◌then◌else◌, map, not}
use go_max_tech_stack.Config.{
  BulkheadConfig, DbConfig, GrpcConfig, GrpcTlsConfig, HttpConfig, LoggingConfig, RateLimiterConfig,
  RuntimeConfig, StreamingConfig, TelemetryConfig, TlsConfig, WorkerPoolConfig,
}

module _ (p : Platform) where
  open p use {lookup_env, lower, url_text}

  unfoldable pub load_runtime : RuntimeConfig → Loading RuntimeConfig
  unfolding lookup_string_non_empty validate_environment
  load_runtime d = do
    raw ← lookup_string_non_empty p "APP_ENV" d.environment
    let environment = map lower (trim_space raw)
    validate_environment environment
    loaded (record { environment = environment })

  unfoldable pub load_logging : LoggingConfig → Loading LoggingConfig
  unfolding lookup_log_level lookup_log_format lookup_bool
  load_logging d = do
    level ← lookup_log_level p "LOG_LEVEL" d.level
    format ← lookup_log_format p "LOG_FORMAT" d.format
    add_source ← lookup_bool p "LOG_ADD_SOURCE" d.add_source
    loaded (record { level = level; format = format; add_source = add_source })

  unfoldable pub load_telemetry : TelemetryConfig → Loading TelemetryConfig
  unfolding lookup_bool lookup_duration_positive
  load_telemetry d = do
    enabled ← lookup_bool p "TELEMETRY_ENABLED" d.enabled
    timeout ← lookup_duration_positive p "TELEMETRY_SHUTDOWN_TIMEOUT" d.shutdown_timeout
    loaded (record { enabled = enabled; shutdown_timeout = timeout })

  unfoldable pub load_tls_files : TlsConfig → Loading TlsConfig
  unfolding lookup_string_non_empty
  load_tls_files d = do
    addr ← lookup_string_non_empty p "HTTP_TLS_ADDR" d.addr
    key_file ← lookup_string_non_empty p "HTTP_TLS_KEY_FILE" d.key_file
    cert_file ← lookup_string_non_empty p "HTTP_TLS_CERT_FILE" d.cert_file
    reject_if (text_eq (trim_space cert_file) []) "HTTP_TLS_CERT_FILE" [] is_required
    reject_if (text_eq (trim_space key_file) []) "HTTP_TLS_KEY_FILE" [] is_required
    loaded (record d { addr = addr; key_file = key_file; cert_file = cert_file })

  unfoldable pub load_tls : TlsConfig → Loading TlsConfig
  unfolding lookup_bool lookup_tls_min_version load_tls_files
  load_tls d = do
    enable ← lookup_bool p "HTTP_TLS_ENABLE" d.enable
    min_version ← lookup_tls_min_version p "HTTP_TLS_MIN_VERSION" d.min_version
    let tls = record d { enable = enable; min_version = min_version }
    if enable then load_tls_files tls else loaded tls

  unfoldable pub load_http_listener : HttpConfig → Loading HttpConfig
  unfolding lookup_string_non_empty load_tls
  load_http_listener d = do
    addr ← lookup_string_non_empty p "HTTP_ADDR" d.addr
    tls ← load_tls d.tls
    loaded (record d { addr = addr; tls = tls })

  unfoldable pub load_grpc_tls_files : GrpcTlsConfig → Loading GrpcTlsConfig
  unfolding lookup_string_non_empty
  load_grpc_tls_files d = do
    cert ← lookup_string_non_empty p "GRPC_TLS_CERT_FILE" d.cert_file
    key ← lookup_string_non_empty p "GRPC_TLS_KEY_FILE" d.key_file
    client_ca ← lookup_string_non_empty p "GRPC_TLS_CLIENT_CA_FILE" d.client_ca_file
    client_cert ← lookup_string_non_empty p "GRPC_TLS_CLIENT_CERT_FILE" d.client_cert_file
    client_key ← lookup_string_non_empty p "GRPC_TLS_CLIENT_KEY_FILE" d.client_key_file
    server_ca ← lookup_string_non_empty p "GRPC_TLS_SERVER_CA_FILE" d.server_ca_file
    server_name ← lookup_string_non_empty p "GRPC_TLS_SERVER_NAME" d.server_name
    loaded (record {
      enable = d.enable;
      cert_file = cert;
      key_file = key;
      client_ca_file = client_ca;
      client_cert_file = client_cert;
      client_key_file = client_key;
      server_ca_file = server_ca;
      server_name = server_name;
    })

  -- `cfg.GRPC.TLS` once GRPC_TLS_ENABLE is read, for a server that listens on `addr`.
  unfoldable pub load_grpc_tls : Text → GrpcTlsConfig → Loading GrpcTlsConfig
  unfolding load_grpc_tls_files is_loopback_listen_addr
  load_grpc_tls addr tls = if tls.enable then load_grpc_tls_files tls else do
    reject_if (not (is_loopback_listen_addr p addr)) "GRPC_TLS_ENABLE" addr needs_loopback
    loaded tls

  unfoldable pub load_grpc_enabled : GrpcConfig → Loading GrpcConfig
  unfolding lookup_string_non_empty split_listen_addr lookup_bool is_loopback_listen_addr
      load_grpc_tls
  load_grpc_enabled d = do
    addr ← lookup_string_non_empty p "GRPC_ADDR" d.addr
    split_listen_addr p "GRPC_ADDR" addr
    reflection ← lookup_bool p "GRPC_REFLECTION_ENABLE" d.reflection_enable
    tls_enable ← lookup_bool p "GRPC_TLS_ENABLE" d.tls.enable
    reject_if (reflection && not (is_loopback_listen_addr p addr)) "GRPC_REFLECTION_ENABLE" addr
        needs_loopback
    tls ← load_grpc_tls addr (record d.tls { enable = tls_enable })
    loaded (record d { addr = addr; reflection_enable = reflection; tls = tls })

  unfoldable pub load_grpc : GrpcConfig → Loading GrpcConfig
  unfolding lookup_bool load_grpc_enabled
  load_grpc d = do
    enable ← lookup_bool p "GRPC_ENABLE" d.enable
    let grpc = record d { enable = enable }
    if enable then load_grpc_enabled grpc else loaded grpc

  unfoldable pub load_streaming : StreamingConfig → Loading StreamingConfig
  unfolding lookup_duration_positive lookup_int_positive
  load_streaming d = do
    timeout ← lookup_duration_positive p "STREAMING_WRITE_TIMEOUT" d.write_timeout
    buffer ← lookup_int_positive p "STREAMING_SUBSCRIBER_BUFFER" d.subscriber_buffer
    heartbeat ← lookup_duration_positive p "STREAMING_SSE_HEARTBEAT" d.sse_heartbeat
    loaded
        (record { write_timeout = timeout; subscriber_buffer = buffer; sse_heartbeat = heartbeat })

  unfoldable pub load_http_limits : HttpConfig → Loading HttpConfig
  unfolding lookup_duration_positive lookup_bool lookup_int_positive
  load_http_limits d = do
    read_header ← lookup_duration_positive p "HTTP_READ_HEADER_TIMEOUT" d.read_header_timeout
    read ← lookup_duration_positive p "HTTP_READ_TIMEOUT" d.read_timeout
    write ← lookup_duration_positive p "HTTP_WRITE_TIMEOUT" d.write_timeout
    idle ← lookup_duration_positive p "HTTP_IDLE_TIMEOUT" d.idle_timeout
    shutdown ← lookup_duration_positive p "HTTP_SHUTDOWN_TIMEOUT" d.shutdown_timeout
    debug ← lookup_bool p "HTTP_DEBUG" d.debug
    max_header ← lookup_int_positive p "HTTP_MAX_HEADER_BYTES" d.max_header_bytes
    loaded (record d {
      read_header_timeout = read_header;
      read_timeout = read;
      write_timeout = write;
      idle_timeout = idle;
      shutdown_timeout = shutdown;
      debug = debug;
      max_header_bytes = max_header;
    })

  unfoldable pub load_pool : WorkerPoolConfig → Loading WorkerPoolConfig
  unfolding lookup_int_positive
  load_pool d = do
    workers ← lookup_int_positive p "WORKERS_COUNT" d.workers
    queue_size ← lookup_int_positive p "QUEUE_SIZE" d.queue_size
    loaded (record { workers = workers; queue_size = queue_size })

  unfoldable pub load_limiter : RateLimiterConfig → Loading RateLimiterConfig
  unfolding lookup_int_positive
  load_limiter d = do
    rps ← lookup_int_positive p "RATE_LIMIT_RPS" d.rps
    burst ← lookup_int_positive p "RATE_LIMIT_BURST" d.burst
    loaded (record { rps = rps; burst = burst })

  unfoldable pub load_bulkhead : BulkheadConfig → Loading BulkheadConfig
  unfolding lookup_int_positive
  load_bulkhead d = do
    max_parallel ← lookup_int_positive p "BULKHEAD_MAX_PARALLEL" d.max_parallel
    loaded (record { max_parallel = max_parallel })

  unfoldable pub load_db : DbConfig → Loading DbConfig
  unfolding lookup_string_non_empty lookup_int_non_negative lookup_duration_positive
  load_db d = do
    dsn ← lookup_string_non_empty p "DB_DSN" d.dsn
    backend ← lookup_string_non_empty p "STORAGE_BACKEND" d.storage_backend
    max_open ← lookup_int_non_negative p "DB_MAX_OPEN_CONNS" d.max_open_conns
    max_idle ← lookup_int_non_negative p "DB_MAX_IDLE_CONNS" d.max_idle_conns
    lifetime ← lookup_duration_positive p "DB_CONN_MAX_LIFETIME" d.conn_max_lifetime
    idle_time ← lookup_duration_positive p "DB_CONN_MAX_IDLE_TIME" d.conn_max_idle_time
    query ← lookup_duration_positive p "DB_QUERY_TIMEOUT" d.query_timeout
    ping ← lookup_duration_positive p "DB_PING_TIMEOUT" d.ping_timeout
    loaded (record {
      dsn = dsn;
      storage_backend = backend;
      max_open_conns = max_open;
      max_idle_conns = max_idle;
      conn_max_lifetime = lifetime;
      conn_max_idle_time = idle_time;
      query_timeout = query;
      ping_timeout = ping;
    })
