-- ===== src/Grpc/Server.antt =====
-- NewRuntimeWithConfig of internal/transport/grpcserver/runtime.go with the credentials of security.go,
-- and the configuration that cmd/api/main.go makes for it. The reading of certificates and the listener
-- are the record `Library`: tls.LoadX509KeyPair, os.ReadFile, AppendCertsFromPEM, net.Listen.
use go_max_tech_stack.Config.{GrpcConfig}
use go_max_tech_stack.Config.Lookup.{Platform, is_loopback_host}
use go_max_tech_stack.Failure.{Failure, opaque, wrapped}
use go_max_tech_stack.Failure.Result.{Result, ok, err}
use go_max_tech_stack.Grpc.Runtime.{Runtime, new_runtime}
use go_max_tech_stack.Text.{Text, text_eq, trim_space}
use go_max_tech_stack.Prelude.{Bool, Option, [], false, if◌then◌else◌, none, not, some, true, ◌&&◌}

pub record Library : Type 0 where
  pub load_key_pair : Text → Text → Option Failure
  pub read_file : Text → Result Text
  pub append_certs : Text → Bool
  pub listen : Text → Option Failure

pub record ServerTls : Type 0 where
  pub enable : Bool
  pub cert_file : Text
  pub key_file : Text
  pub client_ca_file : Text

-- The flag is whether there is a verifier.
pub record ServerConfig : Type 0 where
  pub addr : Text
  pub reflection_enabled : Bool
  pub verifier : Bool
  pub tls : ServerTls

-- What main makes of the configuration.
abbrev pub server_config : GrpcConfig → ServerConfig
server_config c = record {
  addr = c.addr;
  reflection_enabled = c.reflection_enable;
  verifier = true;
  tls = record {
    enable = c.tls.enable;
    cert_file = c.tls.cert_file;
    key_file = c.tls.key_file;
    client_ca_file = c.tls.client_ca_file;
  };
}

abbrev is_blank : Text → Bool
is_blank s = text_eq (trim_space s) []

unfoldable pub cert_pool_from_file : Library → Text → Option Failure
cert_pool_from_file l path = elim (l.read_file path) [
  | err e ↦ some (wrapped "read" e)
  | ok pem ↦
      if l.append_certs pem then none else some (opaque "does not contain a valid PEM certificate")
]

unfoldable pub new_server_tls_credentials : Library → ServerTls → Option Failure
unfolding cert_pool_from_file
new_server_tls_credentials l cfg =
    if is_blank cfg.cert_file
    then some (opaque "GRPC_TLS_CERT_FILE is required")
    else if is_blank cfg.key_file
    then some (opaque "GRPC_TLS_KEY_FILE is required")
    else if is_blank cfg.client_ca_file
    then some (opaque "GRPC_TLS_CLIENT_CA_FILE is required")
    else elim (l.load_key_pair cfg.cert_file cfg.key_file) [
      | some e ↦ some (wrapped "load gRPC server certificate" e)
      | none ↦ cert_pool_from_file l cfg.client_ca_file
    ]

unfoldable pub listen_on : Library → Text → Result Runtime
listen_on l addr = elim (l.listen addr) [ some e ↦ err e | none ↦ ok new_runtime ]

module _ (p : Platform) (l : Library) where
  -- isLoopbackListenAddr of security.go, which does not look at the port.
  unfoldable pub is_loopback_addr : Text → Bool
  is_loopback_addr addr = elim (p.split_host_port addr) [
    | none ↦ false
    | some (host, port) ↦ is_loopback_host p (trim_space host)
  ]

  -- What is checked of the transport, before the listener is opened.
  unfoldable pub transport_failure : ServerConfig → Option Failure
  unfolding new_server_tls_credentials
  transport_failure cfg =
      if cfg.tls.enable
      then new_server_tls_credentials l cfg.tls
      else if not (is_loopback_addr cfg.addr)
      then some (opaque "plaintext grpc requires a loopback listener")
      else none

  unfoldable pub new_runtime_with_config : ServerConfig → Result Runtime
  unfolding is_loopback_addr transport_failure listen_on
  new_runtime_with_config cfg =
      if text_eq (trim_space cfg.addr) []
      then err (opaque "grpc addr is required")
      else if cfg.reflection_enabled && not (is_loopback_addr cfg.addr)
      then err (opaque "grpc reflection requires a loopback listener")
      else if not cfg.verifier
      then err (opaque "grpc auth: verifier is nil")
      else elim (transport_failure cfg) [ some e ↦ err e | none ↦ listen_on l cfg.addr ]
