-- ===== src/Security/Jwt.antt =====
-- internal/security/jwt_verifier_hs256.go: the verifier of tokens signed with HS256. The parser of
-- golang-jwt is the parameter `parse`, a function of the key function and the token; `JwtParser`
-- states what the verifier relies on: the documented behaviour of ParseWithClaims under the options
-- that NewJWTVerifierHS256 passes (the methods that are allowed, the leeway, a required expiry).
use go_max_tech_stack.Security.{Principal, Role, admin, user}
use go_max_tech_stack.Failure.{
  Failure, is, authn_by, opaque, sentinel, no_kid, token_signature_invalid, token_expired,
  token_not_valid_yet, invalid, expired, not_yet_valid, Sentinel,
}
use go_max_tech_stack.Failure.Result.{Result, ok, err}
use go_max_tech_stack.Text.{Text, codes}
use go_max_tech_stack.Decimal.{parse_int}
use go_max_tech_stack.Prelude.{
  ◌++◌, ◌==◌, Bool, List, Option, String, [], false, if◌then◌else◌, is_neg, length, negsuc, none,
  not, pos, some, str_eq, suc, true, zero, ℤ, ◌∷◌, ◌≡◌,
}

-- What a token's header holds: the algorithm of its method, and `kid`, which may be any JSON value.
pub data Kid : Type 0 where
  absent : Kid
  not_text : Kid
  text : String → Kid

pub record Header : Type 0 where
  pub alg : Option String
  pub kid : Kid

pub record Claims : Type 0 where
  pub subject : String
  pub role : String

pub record HmacKey : Type 0 where
  pub kid : String
  pub secret : Text

pub record JwtParser : Type 1 where
  pub Token : Type 0
  pub header : Token → Header
  pub claims : Token → Claims
  -- The signature is the key's, and the registered claims hold now.
  pub signed_by : Token → Text → Bool
  pub current : Token → Bool
  pub parse : (Header → Result Text) → Token → Result Claims
  -- It accepts only what the chosen key has signed and what is current.
  pub accepts_only :
      (key_func : Header → Result Text) (t : Token) (c : Claims)
      → parse key_func t ≡ ok c
      → (secret : Text) × (key_func (header t) ≡ ok secret)
        × (signed_by t secret ≡ true)
        × (current t ≡ true)
        × (c ≡ claims t)
  pub accepts :
      (key_func : Header → Result Text) (t : Token) (secret : Text)
      → key_func (header t) ≡ ok secret
      → signed_by t secret ≡ true
      → current t ≡ true
      → parse key_func t ≡ ok (claims t)
  -- An error of the key function, and a wrong signature, are found in what it answers.
  pub refuses_key :
      (key_func : Header → Result Text) (t : Token) (s : Sentinel)
      → key_func (header t) ≡ err (sentinel s)
      → (e : Failure) × (parse key_func t ≡ err e) × (is e s ≡ true)
  pub refuses_signature :
      (key_func : Header → Result Text) (t : Token) (secret : Text)
      → key_func (header t) ≡ ok secret
      → signed_by t secret ≡ false
      → (e : Failure) × (parse key_func t ≡ err e) × (is e token_signature_invalid ≡ true)

pub record JwtVerifier : Type 0 where
  pub allowed_alg : String
  pub keys : List HmacKey

-- The map keysByKID; a text that is looked up.
unfoldable pub secret_of : String → List HmacKey → Option Text
secret_of kid [] = none
secret_of kid (k ∷ rest) = if str_eq k.kid kid then some k.secret else secret_of kid rest

-- The loop of NewJWTVerifierHS256 over the keys, with the keys that it has seen.
unfoldable pub check_keys : List HmacKey → List HmacKey → Result (Unit {0})
unfolding secret_of
check_keys seen [] = ok tt
check_keys seen (k ∷ rest) =
    let later = check_keys (seen ++ (k ∷ [])) rest in
    if str_eq k.kid ""
    then err (opaque "jwt verifier: kid is empty")
    else if length k.secret == 0
    then err (opaque "jwt verifier: secret is empty")
    else elim (secret_of k.kid seen) [
      | some secret ↦ err (opaque "jwt verifier: duplicate kid")
      | none ↦ later
    ]

unfoldable pub new_jwt_verifier : String → ℤ → List HmacKey → Result JwtVerifier
unfolding check_keys
new_jwt_verifier allowed_alg clock_skew keys =
    if not (str_eq allowed_alg "HS256")
    then err (opaque "jwt verifier: unsupported alg")
    else if is_neg clock_skew
    then err (opaque "jwt verifier: clockSkew must be >= 0")
    else if length keys == 0
    then err (opaque "jwt verifier: at least 1 key is required")
    else elim (check_keys [] keys) [
      | err e ↦ err e
      | ok u ↦ ok (record { allowed_alg = allowed_alg; keys = keys })
    ]

-- principalFromClaims: the subject is a positive int64.
abbrev pub bad_claims : String → Result Principal
bad_claims cause = err (authn_by invalid (opaque cause))

abbrev pub role_of : String → Option Role
role_of s =
    if str_eq s ""
    then some user
    else if str_eq s "user"
    then some user
    else if str_eq s "admin"
    then some admin
    else none

unfoldable pub principal_from_claims : Claims → Result Principal
principal_from_claims c =
    if str_eq c.subject "" then bad_claims "missing sub" else elim (parse_int (codes c.subject)) [
      | none ↦ bad_claims "invalid sub"
      | some (negsuc n) ↦ bad_claims "invalid sub"
      | some (pos zero) ↦ bad_claims "invalid sub"
      | some (pos (suc n)) ↦ elim (role_of c.role) [
        | none ↦ bad_claims "invalid role"
        | some role ↦ ok (record { user_id = suc n; role = role })
      ]
    ]

unfoldable pub map_jwt_parse_error : Failure → Failure
unfolding is
map_jwt_parse_error e =
    if is e token_signature_invalid
    then authn_by invalid e
    else if is e token_expired
    then authn_by expired e
    else if is e token_not_valid_yet
    then authn_by not_yet_valid e
    else authn_by invalid e

-- The test of the algorithm, first in both key functions.
abbrev pub alg_allowed : JwtVerifier → Header → Bool
alg_allowed v h = elim h.alg [ none ↦ false | some alg ↦ str_eq alg v.allowed_alg ]

unfoldable pub key_by_kid : JwtVerifier → Header → Result Text
unfolding secret_of
key_by_kid v h = if not (alg_allowed v h) then err (opaque "unexpected alg") else elim h.kid [
  | absent ↦ err (sentinel no_kid)
  | not_text ↦ err (opaque "invalid kid header")
  | text kid ↦
      if str_eq kid "" then err (opaque "invalid kid header") else elim (secret_of kid v.keys) [
        | none ↦ err (opaque "unknown kid")
        | some secret ↦ ok secret
      ]
]

unfoldable pub key_given : JwtVerifier → Text → Header → Result Text
key_given v secret h = if not (alg_allowed v h) then err (opaque "unexpected alg") else ok secret

module _ (jwt : JwtParser) (v : JwtVerifier) where
  open jwt use {Token, parse}

  -- What the parser accepts is valid, so `tok.Valid` is never false beside a nil error.
  unfoldable pub try_verify_by_kid : Token → Result Principal
  try_verify_by_kid t = elim (parse (key_by_kid v) t) [
    | err e ↦ err e
    | ok c ↦ principal_from_claims c
  ]

  unfoldable pub try_verify_with_key : Token → Text → Result Principal
  try_verify_with_key t secret = elim (parse (key_given v secret) t) [
    | err e ↦ err e
    | ok c ↦ principal_from_claims c
  ]

  -- The loop over the keys, with the last error.
  unfoldable pub try_keys : Token → List HmacKey → Failure → Result Principal
  unfolding is
  try_keys t [] last = err (authn_by invalid last)
  try_keys t (k ∷ rest) last = elim (try_verify_with_key t k.secret) [
    | ok p ↦ ok p
    | err e ↦
        let next = try_keys t rest e in
        if is e token_signature_invalid then next else err (map_jwt_parse_error e)
  ]

  unfoldable pub verify : Token → Result Principal
  unfolding is
  verify t = elim (try_verify_by_kid t) [
    | ok p ↦ ok p
    | err e ↦
        if not (is e no_kid)
        then err (map_jwt_parse_error e)
        else try_keys t v.keys (sentinel token_signature_invalid)
  ]
