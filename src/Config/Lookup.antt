-- ===== src/Config/Lookup.antt =====
-- The look-ups of one environment variable in internal/config/config.go, and the addresses that it
-- checks. What the code calls of the standard library is the record `Platform`: os.LookupEnv,
-- strconv.Atoi and ParseBool, time.ParseDuration, net.SplitHostPort, netip and url.Parse, the case
-- of letters, and http.CanonicalHeaderKey.
use go_max_tech_stack.Config.{Url, Prefix}
use go_max_tech_stack.Config.Loading.{
  Loading, loaded, rejects, reject_if, ◌>>◌, is_empty, no_int, no_duration, no_bool, no_url,
  not_above_zero, below_zero, no_host_port, port_is_empty, unsupported, bad_scheme, host_is_empty,
  has_fragment, Reason,
}
use go_max_tech_stack.Text.{Text, codes, text_eq, trim_space}
use go_max_tech_stack.Prelude.{
  Bool, List, Option, String, [], false, if◌then◌else◌, is_le_zero, is_neg, map, none, not, some,
  true, ◌||◌, ◌==◌, ℕ, ℤ, ◌∷◌, reverse,
}

pub record Platform : Type 1 where
  pub Addr : Type 0
  pub lookup_env : String → Option Text
  pub atoi : Text → Option ℤ
  pub parse_bool : Text → Option Bool
  pub parse_duration : Text → Option ℤ
  pub split_host_port : Text → Option (Text × Text)
  pub parse_addr : Text → Option Addr
  pub is_loopback : Addr → Bool
  -- netip.PrefixFrom of the address with 32 bits, or with 128 if it is an address of version 6.
  pub prefix_of : Addr → Prefix
  pub parse_prefix : Text → Option Prefix
  pub masked : Prefix → Prefix
  pub parse_url : Text → Option Url
  pub url_text : Url → Text
  pub equal_fold : Text → Text → Bool
  pub lower : ℕ → ℕ
  pub upper : ℕ → ℕ
  pub canonical_header_key : Text → Text

-- strings.TrimRight of one character.
unfoldable pub skip : ℕ → Text → Text
skip x [] = []
skip x (c ∷ s) = let rest = skip x s in if c == x then rest else c ∷ s

unfoldable pub trim_right : ℕ → Text → Text
unfolding skip
trim_right x s = reverse (skip x (reverse s))

-- strings.ReplaceAll(s, " ", "").
unfoldable pub without_blanks : Text → Text
without_blanks [] = []
without_blanks (c ∷ s) = let rest = without_blanks s in if c == b' ' then rest else c ∷ rest

-- The cases of a switch on texts.
unfoldable pub one_of : Text → List Text → Bool
one_of s [] = false
one_of s (t ∷ ts) = text_eq s t || one_of s ts

-- The schemes of a service that is spoken to.
abbrev pub is_http : Text → Bool
is_http scheme = text_eq scheme (codes "http") || text_eq scheme (codes "https")

module _ (p : Platform) where
  open p use {
    lookup_env, atoi, parse_bool, parse_duration, split_host_port, parse_addr, is_loopback,
    parse_url, equal_fold, lower,
  }

  unfoldable pub lookup_string_non_empty : String → Text → Loading Text
  lookup_string_non_empty key def = elim (lookup_env key) [
    | none ↦ loaded def
    | some v ↦ do reject_if (text_eq (trim_space v) []) key [] is_empty; loaded (trim_space v)
  ]

  unfoldable pub split_listen_addr : String → Text → Loading (Text × Text)
  split_listen_addr key addr = elim (split_host_port addr) [
    | none ↦ rejects key addr no_host_port
    | some (host, port) ↦ do
      reject_if (text_eq (trim_space port) []) key addr port_is_empty
      loaded (host, port)
  ]

  unfoldable pub is_loopback_host : Text → Bool
  is_loopback_host host =
      if equal_fold host (codes "localhost")
      then true
      else if text_eq host []
      then false
      else elim (parse_addr host) [ none ↦ false | some ip ↦ is_loopback ip ]

  unfoldable pub is_loopback_listen_addr : Text → Bool
  unfolding split_listen_addr is_loopback_host
  is_loopback_listen_addr addr = elim (split_listen_addr "GRPC_ADDR" addr) [
    | rejects key v why ↦ false
    | loaded (host, port) ↦ is_loopback_host (trim_space host)
  ]

  -- What the four look-ups of a number have in common: how it is parsed, and which are wrong.
  unfoldable pub lookup_number :
      (Text → Option ℤ) → Reason → (ℤ → Bool) → Reason → String → ℤ → Loading ℤ
  lookup_number parse no_number wrong why key def = elim (lookup_env key) [
    | none ↦ loaded def
    | some v ↦ elim (parse (trim_space v)) [
      | none ↦ rejects key (trim_space v) no_number
      | some n ↦ do reject_if (wrong n) key (trim_space v) why; loaded n
    ]
  ]

  unfoldable pub lookup_int_positive : String → ℤ → Loading ℤ
  unfolding lookup_number
  lookup_int_positive = lookup_number atoi no_int is_le_zero not_above_zero

  unfoldable pub lookup_int_non_negative : String → ℤ → Loading ℤ
  unfolding lookup_number
  lookup_int_non_negative = lookup_number atoi no_int is_neg below_zero

  unfoldable pub lookup_duration_positive : String → ℤ → Loading ℤ
  unfolding lookup_number
  lookup_duration_positive = lookup_number parse_duration no_duration is_le_zero not_above_zero

  unfoldable pub lookup_duration_non_negative : String → ℤ → Loading ℤ
  unfolding lookup_number
  lookup_duration_non_negative = lookup_number parse_duration no_duration is_neg below_zero

  unfoldable pub lookup_bool : String → Bool → Loading Bool
  lookup_bool key def = elim (lookup_env key) [
    | none ↦ loaded def
    | some v ↦ elim (parse_bool v) [ none ↦ rejects key v no_bool | some b ↦ loaded b ]
  ]

  -- tls.VersionTLS12 and tls.VersionTLS13.
  unfoldable pub lookup_tls_min_version : String → ℕ → Loading ℕ
  unfolding one_of without_blanks
  lookup_tls_min_version key def = elim (lookup_env key) [
    | none ↦ loaded def
    | some v ↦
        let normalized = map lower (without_blanks (trim_space v)) in
        if one_of normalized (codes "1.2" ∷ codes "tls1.2" ∷ codes "tls12" ∷ [])
        then loaded 771
        else if one_of normalized (codes "1.3" ∷ codes "tls1.3" ∷ codes "tls13" ∷ [])
        then loaded 772
        else rejects key (trim_space v) unsupported
  ]

  unfoldable pub normalize_base : String → Text → Url → Loading Url
  unfolding trim_right
  normalize_base key v u = do
    reject_if (not (is_http u.scheme)) key v bad_scheme
    reject_if (text_eq u.host []) key v host_is_empty
    reject_if (not (text_eq u.fragment [])) key v has_fragment
    elim (parse_url (trim_right b'/' v)) [
      | none ↦ rejects key (trim_right b'/' v) no_url
      | some uu ↦ loaded uu
    ]

  unfoldable pub parse_base : String → Text → Loading Url
  unfolding normalize_base
  parse_base key v = do
    reject_if (text_eq v []) key v is_empty
    elim (parse_url v) [ none ↦ rejects key v no_url | some u ↦ normalize_base key v u ]

  unfoldable pub lookup_url_absolute_parsed : String → Text → Loading Url
  unfolding parse_base
  lookup_url_absolute_parsed key def = elim (lookup_env key) [
    | none ↦ parse_base key (trim_space def)
    | some v ↦ parse_base key (trim_space v)
  ]
