-- ===== src/Security/Examples.antt =====
-- Two keys, and the theorems at a token of the second.
use go_max_tech_stack.Security.{
  Principal, RouteRule, admin, user, default_policy, access_admin_only, resource_none,
}
use go_max_tech_stack.Security.Access.{
  check_access, parse_words, fields_from, Request, Counters, AppHandler, authenticate, authorize,
  rule_for, new_authorize_api, parse_bearer_token,
}
use go_max_tech_stack.Security.Jwt.{
  JwtVerifier, HmacKey, absent, new_jwt_verifier, principal_from_claims, verify, secret_of,
}
use go_max_tech_stack.Security.Rotation.{verify_rotates}
use go_max_tech_stack.Security.Tokens.{Vouched, verify_sound}
use go_max_tech_stack.Security.Sample.{Sample, samples}
use go_max_tech_stack.Security.Guarded.{admin_route_guarded}
use go_max_tech_stack.Failure.{Failure, unauthorized, missing}
use go_max_tech_stack.Failure.Result.{ok, err}
use go_max_tech_stack.Text.{trim_space, Text, codes, text_eq}
use go_max_tech_stack.Prelude.{
  [], inl, inr, none, pos, refl, some, true, ◌∷◌, ◌≡◌, ◌⊎◌, ℕ, ◌+◌, ◌<◌,
}
use go_max_tech_stack.Decimal.{parse_int, parse_nat, scan}

abbrev old_key : HmacKey
old_key = record { kid = "2024"; secret = b'a' ∷ [] }

abbrev new_key : HmacKey
new_key = record { kid = "2025"; secret = b'b' ∷ [] }

abbrev verifier : JwtVerifier
verifier = record { allowed_alg = "HS256"; keys = old_key ∷ new_key ∷ [] }

verifier_made : new_jwt_verifier "HS256" (pos 0) (old_key ∷ new_key ∷ []) ≡ ok verifier
unfolding new_jwt_verifier secret_of
verifier_made = refl

abbrev root : Principal
root = record { user_id = 7; role = admin }

abbrev root_token : Sample
root_token = record {
  head = record { alg = some "HS256"; kid = absent };
  body = record { subject = "7"; role = "admin" };
  secret = b'b' ∷ [];
  fresh = true;
}

root_claims : principal_from_claims (samples.claims root_token) ≡ ok root
unfolding principal_from_claims parse_int parse_nat scan
root_claims = refl

root_signed : samples.signed_by root_token (b'b' ∷ []) ≡ true
unfolding text_eq
root_signed = refl

root_verified : verify samples verifier root_token ≡ ok root
root_verified =
    verify_rotates samples verifier root_token new_key root (inr (inl refl)) refl refl root_signed
      refl root_claims

verify_rotates_example : verify samples verifier root_token ≡ ok root
verify_rotates_example =
    verify_rotates samples verifier root_token new_key root (inr (inl refl)) refl refl root_signed
      refl root_claims

verify_sound_example :
    ((k : HmacKey) × Vouched samples verifier root_token k root)
    × (0 < 7)
    × ((admin ≡ user) ⊎ (admin ≡ admin))
verify_sound_example = verify_sound samples verifier root_token root root_verified

policy_made : new_authorize_api default_policy ≡ ok default_policy
unfolding new_authorize_api default_policy
policy_made = refl

-- A handler that counts its calls, behind the rule of the users' list.
abbrev counting : AppHandler ℕ
counting r (c, n) = ((c, n + 1), ok tt)

abbrev no_counts : Counters × ℕ
no_counts = (record { authn_failures = []; forbidden_total = 0 }, 0)

abbrev listing : Request
listing = record {
  method = "GET";
  pattern = "GET /api/v1/users";
  authorization = codes "Bearer x";
  path_id = [];
  principal = none;
}

abbrev users_rule : RouteRule
users_rule = record {
  pattern = "GET /api/v1/users";
  methods = "GET" ∷ [];
  access = access_admin_only;
  resource_constraint = resource_none;
  notes = "";
}

users_rule_found : rule_for listing.pattern default_policy ≡ some users_rule
unfolding rule_for default_policy
users_rule_found = refl

abbrev decode_one : Text → samples.Token
decode_one t = root_token

admin_route_guarded_example :
    let out =
      authenticate
        (λ t. verify samples verifier (decode_one t))
        (authorize default_policy counting)
        listing
        no_counts in
    ((token : Text) × (p : Principal) × (k : HmacKey) × (parse_bearer_token listing.authorization
        ≡ ok token)
      × Vouched samples verifier (decode_one token) k p
      × (p.role ≡ admin)
      × (out ≡ counting (record listing { principal = some p }) no_counts))
    ⊎ ((e : Failure) × (out.1 ≡ err e) × (out.0.1 ≡ no_counts.1))
admin_route_guarded_example =
    admin_route_guarded samples verifier decode_one counting default_policy users_rule listing
      no_counts refl refl users_rule_found refl

-- The request gets through.
listing_served :
    (authenticate
      (λ t. verify samples verifier (decode_one t))
      (authorize default_policy counting)
      listing
      no_counts).0.1
    ≡ 1
unfolding authenticate authorize parse_bearer_token rule_for default_policy text_eq trim_space
    parse_words fields_from check_access
listing_served = rw root_verified refl

abbrev nameless : Request
nameless = record listing { authorization = [] }

nameless_unparsed : parse_bearer_token nameless.authorization ≡ err (unauthorized missing)
unfolding parse_bearer_token text_eq trim_space
nameless_unparsed = refl
