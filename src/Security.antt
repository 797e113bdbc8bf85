-- ===== src/Security.antt =====
-- internal/security: principals, roles, the access policy of the routes, and the errors of
-- authentication. A role is a Go string; `other_role` stands for every text but the two constants.
-- `Security.Jwt` is the verifier of tokens, `Security.Access` the middleware that authenticates and
-- authorizes, `Security.Tokens`, `Security.Rotation` and `Security.Guarded`
-- are about these.
use go_max_tech_stack.Failure.{
  Failure, AuthnErrorKind, invalid, find, unauthorized, unauthorized_by, authn_by,
}
use go_max_tech_stack.Prelude.{
  ◌==◌, Bool, List, Option, String, [], false, none, some, true, ◌||◌, ℕ, ◌∷◌,
}
pub mod Jwt
pub mod Tokens
pub mod Rotation
pub mod Access
pub mod Guarded
mod Sample
mod Examples

pub data Role : Type 0 where
  admin user : Role
  other_role : String → Role

abbrev pub is_admin : Role → Bool
is_admin admin = true
is_admin user = false
is_admin (other_role s) = false

-- `UserID` is an int64, kept as its bit pattern.
pub record Principal : Type 0 where
  pub user_id : ℕ
  pub role : Role

-- A uint8 with three constants.
pub data AccessLevel : Type 0 where
  access_public access_authenticated access_admin_only : AccessLevel
  other_access : ℕ → AccessLevel

pub data ResourceConstraint : Type 0 where
  resource_none resource_self_only : ResourceConstraint

pub record RouteRule : Type 0 where
  pub pattern : String
  pub methods : List String
  pub access : AccessLevel
  pub resource_constraint : ResourceConstraint
  pub notes : String

abbrev rule : String → String → AccessLevel → ResourceConstraint → String → RouteRule
rule pattern method access constraint notes = record {
  pattern = pattern;
  methods = method ∷ [];
  access = access;
  resource_constraint = constraint;
  notes = notes;
}

unfoldable pub default_policy : List RouteRule
default_policy =
    rule "/livez" "GET" access_public resource_none ""
    ∷ rule "/readyz" "GET" access_public resource_none ""
    ∷ rule "/debug/" "GET" access_admin_only resource_none "только когда HTTP_DEBUG=true"
    ∷ rule "GET /api/v1/users" "GET" access_admin_only resource_none ""
    ∷ rule "POST /api/v1/users" "POST" access_admin_only resource_none ""
    ∷ rule "/api/v1/users" "*" access_admin_only resource_none "fallback коллекции (хелпер для 405)"
    ∷ rule "/api/v1/users/{id}" "GET" access_authenticated resource_self_only ""
    ∷ rule "/api/v1/users/{id}/export" "GET" access_authenticated resource_self_only ""
    ∷ rule "/api/v1/users/{id}/profile" "GET" access_authenticated resource_self_only ""
    ∷ rule "/api/v1/jobs/{id}/events" "GET" access_authenticated resource_none ""
    ∷ rule "/api/v1/jobs/{id}" "GET" access_admin_only resource_none ""
    ∷ rule "/api/v1/jobs/{id}/grpc" "GET" access_admin_only resource_none ""
    ∷ rule "GET /api/v2/users" "GET" access_admin_only resource_none ""
    ∷ rule "POST /api/v2/users" "POST" access_admin_only resource_none ""
    ∷ rule "/api/v2/users" "*" access_admin_only resource_none "fallback коллекции (хелпер для 405)"
    ∷ []

unfoldable pub can_read_user : Principal → ℕ → Bool
can_read_user p target_id = is_admin p.role || p.user_id == target_id

unfoldable pub can_read_job : Principal → ℕ → Bool
can_read_job p owner_id = is_admin p.role || p.user_id == owner_id

-- AuthNKind: the kind of the first AuthNError in the chain.
abbrev pub as_authn : Failure → Option AuthnErrorKind
as_authn (authn_by kind cause) = some kind
as_authn e = none

unfoldable pub authn_kind : Failure → Option AuthnErrorKind
unfolding find
authn_kind e = find as_authn e

-- UnauthorizedFromVerifyErr, of an error that is not nil.
unfoldable pub unauthorized_from_verify_err : Failure → Failure
unfolding authn_kind
unauthorized_from_verify_err e = elim (authn_kind e) [
  | some kind ↦ unauthorized_by kind e
  | none ↦ unauthorized_by invalid e
]
