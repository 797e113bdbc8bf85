-- ===== src/Config/Items.antt =====
-- The lists in the values of variables, in internal/config/config.go: splitCSVStrict,
-- dedupePreserveOrder, and the parsers of keys, origins, methods, headers and proxies. The maps `seen`
-- are the lists of their keys.
use go_max_tech_stack.Config.{JwtKey, Prefix, Url}
use go_max_tech_stack.Config.Loading.{
  Loading, loaded, rejects, reject_if, ◌>>=◌, ◌>>◌, empty_item, bad_key_item, empty_kid,
  empty_secret, duplicate_kid, no_keys, no_url, bad_scheme, host_is_empty, has_userinfo, has_path,
  bad_method, bad_header, bad_proxy, is_empty,
}
use go_max_tech_stack.Config.Lookup.{Platform, trim_right, is_http}
use go_max_tech_stack.Negotiation.{split_commas}
use go_max_tech_stack.Text.{Text, codes, text_eq, trim_space, index_byte}
use go_max_tech_stack.Prelude.{
  ◌++◌, ◌-◌, ◌==◌, Bool, List, String, [], drop, false, if◌then◌else◌, leb, length, map, none, not,
  some, take, true, ◌||◌, ℕ, ◌∷◌, suc,
}

-- The loop of splitCSVStrict.
unfoldable pub trim_items : String → Text → List Text → Loading (List Text)
trim_items key v [] = loaded []
trim_items key v (part ∷ parts) = do
  reject_if (text_eq (trim_space part) []) key v empty_item
  out ← trim_items key v parts
  loaded (trim_space part ∷ out)

unfoldable pub split_csv_strict : String → Text → Loading (List Text)
unfolding trim_items split_commas
split_csv_strict key v = trim_items key v (split_commas [] v)

unfoldable pub contains_string : List Text → Text → Bool
contains_string [] s = false
contains_string (x ∷ xs) s = if text_eq x s then true else contains_string xs s

unfoldable pub dedupe_from : List Text → List Text → List Text
unfolding contains_string
dedupe_from seen [] = []
dedupe_from seen (x ∷ xs) =
    let skipped = dedupe_from seen xs in
    let kept = x ∷ dedupe_from (x ∷ seen) xs in if contains_string seen x then skipped else kept

unfoldable pub dedupe_preserve_order : List Text → List Text
unfolding dedupe_from
dedupe_preserve_order xs = dedupe_from [] xs

-- The loop of joinJWTKeys after its first key.
unfoldable pub join_more : List JwtKey → Text
join_more [] = []
join_more (k ∷ ks) = b',' ∷ (trim_space k.kid ++ (b':' ∷ (k.secret ++ join_more ks)))

unfoldable pub join_jwt_keys : List JwtKey → Text
unfolding join_more
join_jwt_keys [] = []
join_jwt_keys (k ∷ ks) = trim_space k.kid ++ (b':' ∷ (k.secret ++ join_more ks))

-- An item whose colon is at `i`, with the kids before it.
unfoldable pub parse_key_at : String → Text → List Text → Text → ℕ → Loading JwtKey
unfolding contains_string
parse_key_at key v seen item i = do
  reject_if (leb i 0 || leb (length item - 1) i) key v bad_key_item
  let kid = trim_space (take i item)
  let sec = drop (suc i) item
  reject_if (text_eq kid []) key v empty_kid
  reject_if (text_eq (trim_space sec) []) key v empty_secret
  reject_if (contains_string seen kid) key v duplicate_kid
  loaded (record { kid = kid; secret = sec })

unfoldable pub parse_key : String → Text → List Text → Text → Loading JwtKey
unfolding parse_key_at
parse_key key v seen item = elim (index_byte b':' item) [
  | none ↦ rejects key v bad_key_item
  | some i ↦ parse_key_at key v seen item i
]

-- The loop of parseJWTKeys, with the kids seen so far.
unfoldable pub parse_keys : String → Text → List Text → List Text → Loading (List JwtKey)
unfolding parse_key
parse_keys key v seen [] = loaded []
parse_keys key v seen (item ∷ items) = do
  k ← parse_key key v seen item
  out ← parse_keys key v (k.kid ∷ seen) items
  loaded (k ∷ out)

unfoldable pub parse_jwt_keys : String → Text → Loading (List JwtKey)
unfolding split_csv_strict parse_keys
parse_jwt_keys key v = do
  items ← split_csv_strict key v
  out ← parse_keys key v [] items
  elim out [ [] ↦ rejects key v no_keys | k ∷ ks ↦ loaded (k ∷ ks) ]

-- strings.ContainsAny(s, " \t").
unfoldable pub has_blank : Text → Bool
has_blank [] = false
has_blank (c ∷ s) = if c == b' ' || c == b'\t' then true else has_blank s

-- `for _, it := range items { ...; out = append(out, ...) }`.
unfoldable pub each : (Text → Loading Text) → List Text → Loading (List Text)
each f [] = loaded []
each f (item ∷ items) = do x ← f item; out ← each f items; loaded (x ∷ out)

module _ (p : Platform) where
  open p use {
    parse_url, lower, upper, canonical_header_key, parse_prefix, masked, parse_addr, prefix_of,
  }

  unfoldable pub origin_of : String → Text → Url → Loading Text
  origin_of key raw u = do
    reject_if (not (is_http u.scheme)) key raw bad_scheme
    reject_if (text_eq u.host []) key raw host_is_empty
    reject_if u.user key raw has_userinfo
    reject_if
        (not (text_eq u.path []) || not (text_eq u.raw_query []) || not (text_eq u.fragment [])) key
        raw has_path
    loaded (map lower u.scheme ++ (codes "://" ++ map lower u.host))

  unfoldable pub normalize_origin : String → Text → Loading Text
  unfolding origin_of trim_right
  normalize_origin key raw = do
    reject_if (text_eq (trim_space raw) []) key raw is_empty
    elim (parse_url (trim_right b'/' (trim_space raw))) [
      | none ↦ rejects key raw no_url
      | some u ↦ origin_of key raw u
    ]

  unfoldable pub cors_origin : String → Text → Loading Text
  unfolding normalize_origin
  cors_origin key item =
      if text_eq item (codes "*") then loaded (codes "*") else normalize_origin key item

  unfoldable pub parse_cors_origins : String → Text → Loading (List Text)
  unfolding split_csv_strict cors_origin each dedupe_preserve_order
  parse_cors_origins key v = do
    items ← split_csv_strict key v
    out ← each (cors_origin key) items
    loaded (dedupe_preserve_order out)

  unfoldable pub http_method : String → Text → Text → Loading Text
  unfolding has_blank
  http_method key v item = do
    let m = map upper (trim_space item)
    reject_if (text_eq m [] || has_blank m) key v bad_method
    loaded m

  unfoldable pub parse_http_methods_csv : String → Text → Loading (List Text)
  unfolding split_csv_strict http_method each dedupe_preserve_order
  parse_http_methods_csv key v = do
    items ← split_csv_strict key v
    out ← each (http_method key v) items
    loaded (dedupe_preserve_order out)

  unfoldable pub http_header : String → Text → Text → Loading Text
  unfolding has_blank
  http_header key v item = do
    let h = trim_space item
    reject_if (text_eq h [] || has_blank h) key v bad_header
    loaded (canonical_header_key h)

  unfoldable pub parse_http_headers_csv : String → Text → Loading (List Text)
  unfolding split_csv_strict http_header each dedupe_preserve_order
  parse_http_headers_csv key v = do
    items ← split_csv_strict key v
    out ← each (http_header key v) items
    loaded (dedupe_preserve_order out)

  -- A range, or an address as the range of itself.
  unfoldable pub trusted_proxy : String → Text → Text → Loading Prefix
  trusted_proxy key v item = elim (parse_prefix item) [
    | some range ↦ loaded (masked range)
    | none ↦ elim (parse_addr item) [
      | some addr ↦ loaded (prefix_of addr)
      | none ↦ rejects key v bad_proxy
    ]
  ]

  unfoldable pub trusted_from : String → Text → List Text → List Text → Loading (List Prefix)
  unfolding trusted_proxy contains_string
  trusted_from key v seen [] = loaded []
  trusted_from key v seen (item ∷ items) = do
    n ← trusted_proxy key v item
    out ← trusted_from key v (if contains_string seen n.text then seen else n.text ∷ seen) items
    loaded (if contains_string seen n.text then out else n ∷ out)

  unfoldable pub parse_trusted_proxies : String → Text → Loading (List Prefix)
  unfolding split_csv_strict trusted_from
  parse_trusted_proxies key v = do items ← split_csv_strict key v; trusted_from key v [] items
