-- ===== src/Middleware/Cors.antt =====
-- internal/middleware/cors.go: the rules for requests from another origin. `upper` and `lower` are
-- unicode.ToUpper and unicode.ToLower, by which strings.ToUpper and strings.ToLower map a text,
-- character by character. A verdict keeps the headers that the middleware adds, with the values that
-- it adds to Vary; what is set before a denial is left out. `int(d.Seconds())`
-- is the whole seconds of a duration; the rounding of float64 from 104 days on is left out.
-- `Middleware.Origins` says who is let through.
use go_max_tech_stack.Config.{CorsConfig}
use go_max_tech_stack.Text.{Text, codes, text_eq, trim_space}
use go_max_tech_stack.Decimal.{format_int}
use go_max_tech_stack.Negotiation.{split_commas}
use go_max_tech_stack.Prelude.{
  ◌&&◌, ◌+◌, ◌++◌, Bool, List, String, [], false, if◌then◌else◌, is_le_zero, map, not, str_eq, true,
  ◌||◌, ℕ, ℤ, ◌∷◌, ◌-◌, ◌/◌, ltb, negsuc, pos, suc,
}

pub record CorsApi : Type 0 where
  pub allow_any : Bool
  pub allowed_origins : List Text
  pub allowed_methods : List Text
  pub allowed_methods_up : List Text
  pub allowed_headers : List Text
  pub allowed_headers_lo : List Text
  pub allow_credentials : Bool
  pub max_age_seconds : ℤ

pub record CorsRequest : Type 0 where
  pub method : String
  pub origin : Text
  pub request_method : Text
  pub request_headers : Text

pub record CorsCounters : Type 0 where
  pub preflight_total : ℕ
  pub denied_total : ℕ

pub data Verdict : Type 0 where
  passes preflight : List (String × Text) → Verdict
  denied : String → Verdict

unfoldable pub contains : List Text → Text → Bool
contains [] t = false
contains (x ∷ xs) t = let more = contains xs t in text_eq x t || more

-- The loop over the origins: whether one is the wildcard, and the others.
unfoldable pub add_origins : List Text → Bool × List Text
add_origins [] = (false, [])
add_origins (o ∷ rest) =
    let (any, more) = add_origins rest in
    if text_eq o (b'*' ∷ []) then (true, more) else (any, o ∷ more)

-- The loops over the methods and the headers.
unfoldable pub cleaned_up : (ℕ → ℕ) → List Text → List Text
cleaned_up letter [] = []
cleaned_up letter (m ∷ rest) =
    let more = cleaned_up letter rest in
    let t = map letter (trim_space m) in if text_eq t [] then more else t ∷ more

unfoldable pub joined_by_commas : List Text → Text
joined_by_commas [] = []
joined_by_commas (t ∷ []) = t
joined_by_commas (t ∷ u ∷ rest) = t ++ (b',' ∷ b' ' ∷ joined_by_commas (u ∷ rest))

abbrev pub whole_seconds : ℤ → ℤ
whole_seconds (pos n) = pos (n / 1000000000)
whole_seconds (negsuc n) = if ltb n 999999999 then pos 0 else negsuc ((suc n) / 1000000000 - 1)

module _ (upper lower : ℕ → ℕ) where
  unfoldable pub new_cors : CorsConfig → CorsApi
  unfolding add_origins cleaned_up
  new_cors cfg =
      let (any, origins) = add_origins cfg.allowed_origins in
      record {
        allow_any = any;
        allowed_origins = origins;
        allowed_methods = cfg.allowed_methods;
        allowed_methods_up = cleaned_up upper cfg.allowed_methods;
        allowed_headers = cfg.allowed_headers;
        allowed_headers_lo = cleaned_up lower cfg.allowed_headers;
        allow_credentials = cfg.allow_credentials;
        max_age_seconds = whole_seconds cfg.max_age;
      }

  unfoldable pub is_origin_allowed : CorsApi → Text → Bool
  unfolding contains
  is_origin_allowed c origin = if c.allow_any then true else contains c.allowed_origins origin

  unfoldable pub is_method_allowed : CorsApi → Text → Bool
  unfolding contains
  is_method_allowed c m = contains c.allowed_methods_up m

  unfoldable pub all_allowed : CorsApi → List Text → Bool
  unfolding contains
  all_allowed c [] = true
  all_allowed c (p ∷ rest) =
      let more = all_allowed c rest in
      let h = map lower (trim_space p) in
      if text_eq h [] then more else if not (contains c.allowed_headers_lo h) then false else more

  unfoldable pub are_request_headers_allowed : CorsApi → Text → Bool
  unfolding all_allowed split_commas
  are_request_headers_allowed c acrh =
      let t = trim_space acrh in if text_eq t [] then true else all_allowed c (split_commas [] t)

  abbrev pub deny : String → CorsCounters → CorsCounters × Verdict
  deny detail k = (record k { denied_total = k.denied_total + 1 }, denied detail)

  abbrev pub origin_headers : CorsApi → Text → List (String × Text)
  origin_headers c origin =
      (if c.allow_any then [] else ("Vary", codes "Origin") ∷ [])
      ++ (("Access-Control-Allow-Origin", if c.allow_any then b'*' ∷ [] else origin)
          ∷ (if c.allow_credentials
              then ("Access-Control-Allow-Credentials", codes "true") ∷ []
              else []))

  abbrev pub preflight_headers : CorsApi → List (String × Text)
  preflight_headers c =
      ("Access-Control-Allow-Methods", joined_by_commas c.allowed_methods)
      ∷ ("Access-Control-Allow-Headers", joined_by_commas c.allowed_headers)
      ∷ ((if is_le_zero c.max_age_seconds
            then []
            else ("Access-Control-Max-Age", format_int c.max_age_seconds) ∷ [])
          ++ (("Vary", codes "Access-Control-Request-Method")
              ∷ ("Vary", codes "Access-Control-Request-Headers")
              ∷ []))

  -- A preflight request asks for a method.
  unfoldable pub answer_preflight : CorsApi → CorsRequest → CorsCounters → CorsCounters × Verdict
  unfolding is_method_allowed are_request_headers_allowed
  answer_preflight c r k =
      if not (is_method_allowed c (map upper (trim_space r.request_method)))
      then deny "cors method denied" k
      else if not (are_request_headers_allowed c r.request_headers)
      then deny "cors headers denied" k
      else (
        record k { preflight_total = k.preflight_total + 1 },
        preflight (origin_headers c r.origin ++ preflight_headers c),
      )

  unfoldable pub cors : CorsApi → CorsRequest → CorsCounters → CorsCounters × Verdict
  unfolding is_origin_allowed answer_preflight
  cors c r k =
      if text_eq r.origin []
      then (k, passes [])
      else if not (is_origin_allowed c r.origin)
      then deny "cors origin denied" k
      else if c.allow_credentials && c.allow_any
      then deny "cors credentials with wildcard origin is not allowed" k
      else if str_eq r.method "OPTIONS" && not (text_eq r.request_method [])
      then answer_preflight c r k
      else (k, passes (origin_headers c r.origin))
