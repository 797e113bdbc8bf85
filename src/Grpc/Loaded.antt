-- ===== src/Grpc/Loaded.antt =====
-- A configuration that internal/config/config.go loads is one that the gRPC server of
-- internal/transport/grpcserver takes.
use go_max_tech_stack.Config.{Config, GrpcConfig}
use go_max_tech_stack.Config.Loading.{loaded, ◌>>=◌, ◌>>◌, reject_if}
use go_max_tech_stack.Config.Lookup.{Platform, is_loopback_listen_addr}
use go_max_tech_stack.Config.Load.{load}
use go_max_tech_stack.Config.Sound.{load-IsGuarded}
use go_max_tech_stack.Grpc.Server.{
  Library, ServerConfig, server_config, is_loopback_addr, transport_failure,
  new_runtime_with_config, new_server_tls_credentials, listen_on,
}
use go_max_tech_stack.Grpc.Runtime.{Runtime, new_runtime}
use go_max_tech_stack.Failure.{Failure}
use go_max_tech_stack.Failure.Result.{Result, ok, err}
use go_max_tech_stack.Text.{Text, text_eq, trim_space}
use go_max_tech_stack.Prelude.{
  Bool-cases, Option-cases, [], arith, inl, inr, none, some, true, ◌≡◌, ◌⊎◌, false, refl, ◌∙◌,
}
use go_max_tech_stack.Config.Sample.{on}

module _ (p : Platform) (l : Library) where
  loopback_agrees :
      (addr : Text) → is_loopback_listen_addr p addr ≡ true → is_loopback_addr p l addr ≡ true
  unfolding is_loopback_listen_addr is_loopback_addr ◌>>=◌ ◌>>◌ reject_if
  loopback_agrees addr h = elim (Option-cases (p.split_host_port addr)) [
    | inl e ↦ absurd (ground (arith, e, h))
    | inr ((host, port), e) ↦ elim (Bool-cases (text_eq (trim_space port) [])) [
      | inl b ↦ absurd (ground (arith, e, b, h))
      | inr b ↦ ground (arith, e, b, h)
    ]
  ]

  -- What may still stop a server with such a configuration.
  abbrev pub Opens : GrpcConfig → Result Runtime → Type 0
  Opens c r =
      (r ≡ ok new_runtime)
      ⊎ ((e : Failure) × (r ≡ err e)
          × (((c.tls.enable ≡ true) × (new_server_tls_credentials l (server_config c).tls ≡ some e))
              ⊎ (l.listen c.addr ≡ some e)))

  listens : (c : GrpcConfig) → Opens c (listen_on l c.addr)
  unfolding listen_on
  listens c = elim (Option-cases (l.listen c.addr)) [
    | inl e ↦ inl (rw (listen_on, e) refl)
    | inr (f, e) ↦ inr (f, rw (listen_on, e) refl, inr e)
  ]

  tls_transport :
      (c : ServerConfig)
      → c.tls.enable ≡ true
      → transport_failure p l c ≡ new_server_tls_credentials l c.tls
  unfolding transport_failure
  tls_transport c t = ground (arith, t)

  plain_transport :
      (c : ServerConfig)
      → c.tls.enable ≡ false
      → is_loopback_addr p l c.addr ≡ true
      → transport_failure p l c ≡ none
  unfolding transport_failure
  plain_transport c t h = ground (arith, t, h)

  -- The guards before the transport let a loopback listener pass, and one without reflection.
  guards_pass :
      (c : ServerConfig)
      → text_eq (trim_space c.addr) [] ≡ false
      → (c.reflection_enabled ≡ false) ⊎ (is_loopback_addr p l c.addr ≡ true)
      → c.verifier ≡ true
      → new_runtime_with_config p l c
        ≡ elim (transport_failure p l c) [ some e ↦ err e | none ↦ listen_on l c.addr ]
  unfolding new_runtime_with_config
  guards_pass c a r v = ground (arith, a, r, v)

  transport-Opens :
      (c : GrpcConfig)
      → (c.tls.enable ≡ true) ⊎ (is_loopback_addr p l c.addr ≡ true)
      → Opens c (elim (transport_failure p l (server_config c)) [
        | some e ↦ err e
        | none ↦ listen_on l c.addr
      ])
  transport-Opens c h = elim (Bool-cases c.tls.enable) [
    | inl t ↦ elim (Option-cases (new_server_tls_credentials l (server_config c).tls)) [
      | inl n ↦ rw (tls_transport (server_config c) t ∙ n) (listens c)
      | inr (e, n) ↦ rw (tls_transport (server_config c) t ∙ n) (inr (e, refl, inl (t, n)))
    ]
    | inr t ↦ elim h [
      | inl on ↦ absurd (ground (arith, on, t))
      | inr loop ↦ rw (plain_transport (server_config c) t loop) (listens c)
    ]
  ]

  -- A configuration that is loaded with gRPC enabled passes every guard of NewRuntimeWithConfig: a new
  -- server is made, unless its certificates cannot be used, or its address not be listened on. A blank
  -- address is assumed to be none for net.SplitHostPort.
  pub loaded-Opens :
      (c : Config)
      → ((s : Text) → text_eq (trim_space s) [] ≡ true → p.split_host_port s ≡ none)
      → load p ≡ loaded c
      → c.grpc.enable ≡ true
      → Opens c.grpc (new_runtime_with_config p l (server_config c.grpc))
  loaded-Opens c blank h on = elim (load-IsGuarded p c h).2 [
    | inl off ↦ absurd (ground (arith, on, off))
    | inr (port, tls, reflection) ↦
        let named : text_eq (trim_space c.grpc.addr) [] ≡ false =
          elim (Bool-cases (text_eq (trim_space c.grpc.addr) [])) [
            | inl b ↦ absurd (ground (arith, blank c.grpc.addr b, port.1))
            | inr b ↦ b
          ] in
        let loop : is_loopback_listen_addr p c.grpc.addr ≡ true
            → is_loopback_addr p l c.grpc.addr ≡ true =
          loopback_agrees c.grpc.addr in
        rw
          (guards_pass (server_config c.grpc) named
            (elim reflection [ inl e ↦ inl e | inr e ↦ inr (loop e) ]) refl)
          (transport-Opens c.grpc (elim tls [ inl e ↦ inl e | inr e ↦ inr (loop e) ]))
  ]
