-- ===== src/Middleware/Origins.antt =====
-- Who is let through by internal/middleware/cors.go.
use go_max_tech_stack.Middleware.Cors.{
  CorsApi, CorsRequest, CorsCounters, Verdict, passes, preflight, denied, cors, answer_preflight,
  is_origin_allowed, is_method_allowed, are_request_headers_allowed, origin_headers,
  preflight_headers,
}
use go_max_tech_stack.Text.{text_eq, trim_space}
use go_max_tech_stack.Prelude.{
  ◌&&◌, ◌+◌, ◌++◌, Bool-cases, String, [], false, inl, inr, map, not, str_eq, true, ℕ, ◌≡◌, Bool,
}

-- A request that a browser sends ahead, to ask for a method.
abbrev pub is_preflight : CorsRequest → Bool
is_preflight r = str_eq r.method "OPTIONS" && not (text_eq r.request_method [])

module _ (upper lower : ℕ → ℕ) where
  -- What a request from another origin is refused for.
  pub data Refusal (c : CorsApi) (r : CorsRequest) : Type 0 where
    foreign_origin : is_origin_allowed upper lower c r.origin ≡ false → Refusal c r
    any_with_credentials : (c.allow_credentials && c.allow_any) ≡ true → Refusal c r
    method_refused :
        is_preflight r ≡ true
        → is_method_allowed upper lower c (map upper (trim_space r.request_method)) ≡ false
        → Refusal c r
    headers_refused :
        is_preflight r ≡ true
        → are_request_headers_allowed upper lower c r.request_headers ≡ false
        → Refusal c r

  -- A verdict on a request from another origin.
  pub data Rules (c : CorsApi) (r : CorsRequest) (k : CorsCounters)
      : CorsCounters × Verdict → Type 0 where
    refused :
        (detail : String)
        → Refusal c r
        → Rules c r k (record k { denied_total = k.denied_total + 1 }, denied detail)
    lets_pass :
        is_preflight r ≡ false
        → is_origin_allowed upper lower c r.origin ≡ true
        → (c.allow_credentials && c.allow_any) ≡ false
        → Rules c r k (k, passes (origin_headers upper lower c r.origin))
    grants :
        is_preflight r ≡ true
        → is_origin_allowed upper lower c r.origin ≡ true
        → (c.allow_credentials && c.allow_any) ≡ false
        → is_method_allowed upper lower c (map upper (trim_space r.request_method)) ≡ true
        → are_request_headers_allowed upper lower c r.request_headers ≡ true
        → Rules c r k (
          record k { preflight_total = k.preflight_total + 1 },
          preflight (origin_headers upper lower c r.origin ++ preflight_headers upper lower c),
        )

  preflight-Rules :
      (c : CorsApi) (r : CorsRequest) (k : CorsCounters)
      → is_preflight r ≡ true
      → is_origin_allowed upper lower c r.origin ≡ true
      → (c.allow_credentials && c.allow_any) ≡ false
      → Rules c r k (answer_preflight upper lower c r k)
  unfolding answer_preflight
  preflight-Rules c r k p a w =
      elim (Bool-cases
        (is_method_allowed upper lower c (map upper (trim_space r.request_method)))) [
          | inr m ↦ rw m (refused _ (method_refused p m))
          | inl m ↦
              elim (Bool-cases (are_request_headers_allowed upper lower c r.request_headers)) [
                | inr h ↦ rw (m, h) (refused _ (headers_refused p h))
                | inl h ↦ rw (m, h) (grants p a w m h)
              ]
        ]

  -- A request that names its origin gets through as a plain request only if it is not a preflight and
  -- its origin is allowed, and never with credentials for any origin. A preflight is granted only if,
  -- besides, its method and its headers are allowed. It is denied, and counted once, only for one of
  -- these: the origin, credentials for any origin, or the method or the headers of a preflight.
  pub cors-Rules :
      (c : CorsApi) (r : CorsRequest) (k : CorsCounters)
      → text_eq r.origin [] ≡ false
      → Rules c r k (cors upper lower c r k)
  unfolding cors
  cors-Rules c r k o = elim (Bool-cases (is_origin_allowed upper lower c r.origin)) [
    | inr a ↦ rw (o, a) (refused _ (foreign_origin a))
    | inl a ↦ elim (Bool-cases (c.allow_credentials && c.allow_any)) [
      | inl w ↦ rw (o, a, w) (refused _ (any_with_credentials w))
      | inr w ↦ elim (Bool-cases (is_preflight r)) [
        | inr p ↦ rw (o, a, w, p) (lets_pass p a w)
        | inl p ↦ rw (o, a, w, p) (preflight-Rules c r k p a w)
      ]
    ]
  ]
