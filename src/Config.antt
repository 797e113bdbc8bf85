-- ===== src/Config.antt =====
-- The configuration of internal/config/config.go and logging.go: the structures, of which the modules
-- below it are the default values (`Defaults`), the look-ups of one variable (`Lookup`), the parsers
-- of lists (`Items`), the checks (`Checks`) and `Load` (`Load`).
-- Texts are lists of characters; a time.Duration is its nanoseconds, an int64.
use go_max_tech_stack.Text.{Text}
use go_max_tech_stack.Prelude.{Bool, List, ℕ, ℤ}
pub mod Loading
pub mod Defaults
pub mod Lookup
pub mod Logging
pub mod Items
pub mod Checks
pub mod Servers
pub mod Load
pub mod Ranges
pub mod Listeners
pub mod Secure
pub mod Profile
pub mod Sound
pub mod Unset
pub mod Keys
pub mod Sample
mod Examples

-- url.URL, as far as the program reads it.
pub record Url : Type 0 where
  pub scheme : Text
  pub user : Bool
  pub host : Text
  pub path : Text
  pub raw_query : Text
  pub fragment : Text

-- netip.Prefix: its text and the length of its mask; a prefix that is not valid has the length -1.
pub record Prefix : Type 0 where
  pub text : Text
  pub bits : ℤ

pub record RuntimeConfig : Type 0 where
  pub environment : Text

pub record LoggingConfig : Type 0 where
  pub level : Text
  pub format : Text
  pub add_source : Bool

pub record TelemetryConfig : Type 0 where
  pub enabled : Bool
  pub shutdown_timeout : ℤ

pub record TlsConfig : Type 0 where
  pub enable : Bool
  pub addr : Text
  pub cert_file : Text
  pub key_file : Text
  pub min_version : ℕ

pub record HttpConfig : Type 0 where
  pub addr : Text
  pub read_header_timeout : ℤ
  pub read_timeout : ℤ
  pub write_timeout : ℤ
  pub idle_timeout : ℤ
  pub shutdown_timeout : ℤ
  pub max_header_bytes : ℤ
  pub debug : Bool
  pub tls : TlsConfig

pub record GrpcTlsConfig : Type 0 where
  pub enable : Bool
  pub cert_file : Text
  pub key_file : Text
  pub client_ca_file : Text
  pub client_cert_file : Text
  pub client_key_file : Text
  pub server_ca_file : Text
  pub server_name : Text

pub record GrpcConfig : Type 0 where
  pub enable : Bool
  pub addr : Text
  pub reflection_enable : Bool
  pub tls : GrpcTlsConfig

pub record StreamingConfig : Type 0 where
  pub sse_heartbeat : ℤ
  pub subscriber_buffer : ℤ
  pub write_timeout : ℤ

pub record DbConfig : Type 0 where
  pub dsn : Text
  pub storage_backend : Text
  pub max_open_conns : ℤ
  pub max_idle_conns : ℤ
  pub conn_max_lifetime : ℤ
  pub conn_max_idle_time : ℤ
  pub query_timeout : ℤ
  pub ping_timeout : ℤ

pub record WorkerPoolConfig : Type 0 where
  pub workers : ℤ
  pub queue_size : ℤ

pub record RateLimiterConfig : Type 0 where
  pub rps : ℤ
  pub burst : ℤ

pub record BulkheadConfig : Type 0 where
  pub max_parallel : ℤ

pub record OutboundTransportConfig : Type 0 where
  pub idle_conn_timeout : ℤ
  pub max_idle_conns : ℤ
  pub max_idle_conns_per_host : ℤ
  pub max_conns_per_host : ℤ
  pub tls_handshake_timeout : ℤ
  pub response_header_timeout : ℤ

pub record OutboundRetryConfig : Type 0 where
  pub max_attempts : ℤ
  pub base_delay : ℤ
  pub max_delay : ℤ

pub record OutboundProfileConfig : Type 0 where
  pub base : Url
  pub timeout : ℤ

pub record OutboundConfig : Type 0 where
  pub profile : OutboundProfileConfig
  pub transport : OutboundTransportConfig
  pub retry : OutboundRetryConfig

pub record JwtKey : Type 0 where
  pub kid : Text
  pub secret : Text

pub record JwtConfig : Type 0 where
  pub allowed_alg : Text
  pub issuer : Text
  pub audience : Text
  pub clock_skew : ℤ
  pub keys : List JwtKey

pub record AuthConfig : Type 0 where
  pub jwt : JwtConfig

pub record CorsConfig : Type 0 where
  pub allowed_origins : List Text
  pub allowed_methods : List Text
  pub allowed_headers : List Text
  pub allow_credentials : Bool
  pub max_age : ℤ

pub record ProxyConfig : Type 0 where
  pub trusted_proxies : List Prefix
  pub trust_xff : Bool
  pub trust_xfp : Bool

pub record HstsConfig : Type 0 where
  pub enable : Bool
  pub max_age : ℤ

pub record SecurityHeadersConfig : Type 0 where
  pub enable : Bool
  pub referrer_policy : Text
  pub hsts : HstsConfig

pub record Config : Type 0 where
  pub runtime : RuntimeConfig
  pub logging : LoggingConfig
  pub telemetry : TelemetryConfig
  pub http : HttpConfig
  pub db : DbConfig
  pub pool : WorkerPoolConfig
  pub limiter : RateLimiterConfig
  pub bulkhead : BulkheadConfig
  pub outbound : OutboundConfig
  pub auth : AuthConfig
  pub cors : CorsConfig
  pub proxy : ProxyConfig
  pub security_headers : SecurityHeadersConfig
  pub grpc : GrpcConfig
  pub streaming : StreamingConfig
