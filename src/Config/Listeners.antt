-- ===== src/Config/Listeners.antt =====
-- The listeners of a configuration that `Load` of internal/config/config.go returns.
use go_max_tech_stack.Config.{TlsConfig, HttpConfig, GrpcConfig, GrpcTlsConfig}
use go_max_tech_stack.Config.Loading.{
  Post, returns, ends, Post-bind, Post-then, Post-any, Post-if, and-not-false, not-false,
  Post-weaken, Post-ite,
}
use go_max_tech_stack.Config.Lookup.{
  Platform, lookup_tls_min_version, is_loopback_listen_addr, one_of, without_blanks,
  split_listen_addr,
}
use go_max_tech_stack.Config.Servers.{
  load_tls_files, load_tls, load_http_listener, load_grpc_tls_files, load_grpc, load_grpc_enabled,
  load_grpc_tls,
}
use go_max_tech_stack.Config.Ranges.{IsInRangeHttp}
use go_max_tech_stack.Text.{Text, text_eq, trim_space, codes}
use go_max_tech_stack.Prelude.{
  Bool-cases, Option-cases, String, [], arith, false, inl, inr, map, refl, true, ℕ, ◌∷◌, ◌≡◌, ◌≤◌,
  ◌⊎◌, ◌∙◌, some,
}

-- At least TLS 1.2, and a certificate and a key if TLS is on.
abbrev pub IsServedTls : TlsConfig → Type 0
IsServedTls t =
    (771 ≤ t.min_version)
    × ((t.enable ≡ false)
        ⊎ ((text_eq (trim_space t.cert_file) [] ≡ false)
            × (text_eq (trim_space t.key_file) [] ≡ false)))

module _ (p : Platform) where
  open p use {lookup_env, lower}

  lookup_tls_min_version-Post :
      (key : String) (def : ℕ) → 771 ≤ def → Post (λ v. 771 ≤ v) (lookup_tls_min_version p key def)
  unfolding lookup_tls_min_version
  lookup_tls_min_version-Post key def h = elim (Option-cases (lookup_env key)) [
    | inl e ↦ rw (e, lookup_tls_min_version) (returns h)
    | inr (v, e) ↦
        let n : Text = map lower (without_blanks (trim_space v)) in
        elim (Bool-cases (one_of n (codes "1.2" ∷ codes "tls1.2" ∷ codes "tls12" ∷ []))) [
          | inl f ↦ rw (e, lookup_tls_min_version, f) (returns (omega arith))
          | inr f ↦
              elim (Bool-cases (one_of n (codes "1.3" ∷ codes "tls1.3" ∷ codes "tls13" ∷ []))) [
                | inl g ↦ rw (e, lookup_tls_min_version, f, g) (returns (omega arith))
                | inr g ↦ rw (e, lookup_tls_min_version, f, g) ends
              ]
        ]
  ]

  load_tls_files-Post :
      (d : TlsConfig) → 771 ≤ d.min_version → Post IsServedTls (load_tls_files p d)
  unfolding load_tls_files
  load_tls_files-Post d h = Post-bind Post-any (λ a ha. Post-bind Post-any (λ b hb.
      Post-bind Post-any (λ c hc.
        Post-then (Post-if _ _ _ _)
          (λ cert. Post-then (Post-if _ _ _ _) (λ key. returns (h, inr (cert, key)))))))

  load_tls-Post : (d : TlsConfig) → 771 ≤ d.min_version → Post IsServedTls (load_tls p d)
  unfolding load_tls
  load_tls-Post d h = Post-bind Post-any (λ enable he.
      Post-bind (lookup_tls_min_version-Post _ _ h)
        (λ v hv. Post-ite enable (λ e. load_tls_files-Post _ hv) (λ e. returns (hv, inl e))))

  abbrev pub IsServed : HttpConfig → Type 0
  IsServed c = IsInRangeHttp c × IsServedTls c.tls

  -- The first run of the assignments to `cfg.HTTP` keeps the numbers, which are still the defaults.
  pub load_http_listener-Post :
      (d : HttpConfig)
      → IsInRangeHttp d
      → 771 ≤ d.tls.min_version
      → Post IsServed (load_http_listener p d)
  unfolding load_http_listener
  load_http_listener-Post d r h =
      Post-bind Post-any (λ addr ha. Post-bind (load_tls-Post d.tls h) (λ t ht. returns (r, ht)))

  -- An address has a host and a port.
  abbrev pub HasPort : Text → Type 0
  HasPort addr = (hp : Text × Text) × (p.split_host_port addr ≡ some hp)

  split_listen_addr-Post :
      (key : String) (addr : Text) → Post (λ hp. HasPort addr) (split_listen_addr p key addr)
  unfolding split_listen_addr
  split_listen_addr-Post key addr = elim (Option-cases (p.split_host_port addr)) [
    | inl e ↦ rw (e, split_listen_addr) ends
    | inr (hp, e) ↦
        rw (e, split_listen_addr) (Post-then (Post-if _ _ _ _) (λ h. returns (hp, refl)))
  ]

  -- The address is one; plaintext and reflection are for a loopback listener only.
  abbrev pub IsGuardedGrpc : GrpcConfig → Type 0
  IsGuardedGrpc g =
      (g.enable ≡ false)
      ⊎ (HasPort g.addr
          × ((g.tls.enable ≡ true) ⊎ (is_loopback_listen_addr p g.addr ≡ true))
          × ((g.reflection_enable ≡ false) ⊎ (is_loopback_listen_addr p g.addr ≡ true)))

  load_grpc_tls_files-Post :
      (d : GrpcTlsConfig) → Post (λ t. t.enable ≡ d.enable) (load_grpc_tls_files p d)
  unfolding load_grpc_tls_files
  load_grpc_tls_files-Post d = Post-bind Post-any (λ a ha. Post-bind Post-any (λ b hb.
      Post-bind Post-any (λ c hc. Post-bind Post-any (λ e he.
        Post-bind Post-any
          (λ f hf. Post-bind Post-any (λ g hg. Post-bind Post-any (λ k hk. returns refl)))))))

  load_grpc_tls-Post :
      (addr : Text) (t : GrpcTlsConfig)
      → Post
          (λ u. (u.enable ≡ true) ⊎ (is_loopback_listen_addr p addr ≡ true))
          (load_grpc_tls p addr t)
  unfolding load_grpc_tls
  load_grpc_tls-Post addr t =
      Post-ite t.enable (λ e. Post-weaken (load_grpc_tls_files-Post t) (λ u h. inl (h ∙ e)))
        (λ e. Post-then (Post-if _ _ _ _) (λ h. returns (inr (not-false h))))

  load_grpc_enabled-Post : (d : GrpcConfig) → Post IsGuardedGrpc (load_grpc_enabled p d)
  unfolding load_grpc_enabled
  load_grpc_enabled-Post d = Post-bind Post-any (λ addr ha.
      Post-then (split_listen_addr-Post "GRPC_ADDR" addr) (λ host.
        Post-bind Post-any (λ reflection hr. Post-bind Post-any (λ enable he.
          Post-then (Post-if _ _ _ _) (λ safe.
            Post-bind (load_grpc_tls-Post addr _)
              (λ t ht. returns (inr (host, ht, and-not-false safe))))))))

  pub load_grpc-Post : (d : GrpcConfig) → Post IsGuardedGrpc (load_grpc p d)
  unfolding load_grpc
  load_grpc-Post d =
      Post-bind Post-any
        (λ enable he. Post-ite enable (λ e. load_grpc_enabled-Post _) (λ e. returns (inl e)))
