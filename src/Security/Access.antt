-- ===== src/Security/Access.antt =====
-- internal/middleware/authorization.go and rbac.go: the middleware that authenticates a request by
-- its bearer token, and the one that authorizes it by the policy of its route. The counters
-- authn_failures_total and authz_forbidden_total stand beside the state of the handler that follows;
-- a kind that has no count yet is added to the map. Logging is left out.
use go_max_tech_stack.Security.{
  Principal, RouteRule, AccessLevel, access_public, access_authenticated, access_admin_only,
  other_access, is_admin, authn_kind, unauthorized_from_verify_err,
}
use go_max_tech_stack.Text.{Text, trim_space, is_space, text_eq}
use go_max_tech_stack.Failure.{
  Failure, AuthnErrorKind, missing, invalid, expired, not_yet_valid, no_policy_rule, admin_required,
  unknown_access, unauthorized, forbidden_for, opaque, AuthzErrorKind,
}
use go_max_tech_stack.Failure.Result.{Result, ok, err}
use go_max_tech_stack.Prelude.{
  ◌&&◌, ◌+◌, ◌++◌, ◌==◌, List, Option, String, [], if◌then◌else◌, leb, length, map, none, not, some,
  str_eq, ℕ, ◌∷◌,
}

pub record Request : Type 0 where
  pub method : String
  pub pattern : String
  pub authorization : Text
  pub path_id : Text
  pub principal : Option Principal

pub record Counters : Type 0 where
  pub authn_failures : List (String × ℕ)
  pub forbidden_total : ℕ

abbrev pub AppHandler : Type 0 → Type 0
AppHandler S = Request → Counters × S → (Counters × S) × Result (Unit {0})

-- strings.Fields: the words between runs of spaces; the first argument is the word so far.
unfoldable pub fields_from : Text → Text → List Text
fields_from word [] = if text_eq word [] then [] else word ∷ []
fields_from word (c ∷ s) =
    let apart = fields_from [] s in
    let more = fields_from (word ++ (c ∷ [])) s in
    if is_space c then (if text_eq word [] then apart else word ∷ apart) else more

-- strings.EqualFold with an ASCII text in lower case: only letters of either case are equal to it.
abbrev pub lower_ascii : ℕ → ℕ
lower_ascii c = if leb b'A' c && leb c b'Z' then c + 32 else c

abbrev pub bearer : Text
bearer = b'b' ∷ b'e' ∷ b'a' ∷ b'r' ∷ b'e' ∷ b'r' ∷ []

unfoldable pub parse_words : List Text → Result Text
parse_words (scheme ∷ word ∷ []) =
    if not (text_eq (map lower_ascii scheme) bearer)
    then err (unauthorized invalid)
    else let token = trim_space word in
      if text_eq token [] then err (unauthorized invalid) else ok token
parse_words words = err (unauthorized invalid)

unfoldable pub parse_bearer_token : Text → Result Text
parse_bearer_token header =
    let trimmed = trim_space header in
    if text_eq trimmed [] then err (unauthorized missing) else parse_words (fields_from [] trimmed)

abbrev pub kind_text : AuthnErrorKind → String
kind_text missing = "missing"
kind_text invalid = "invalid"
kind_text expired = "expired"
kind_text not_yet_valid = "not_yet_valid"

unfoldable pub authn_kind_or_other : Failure → String
unfolding authn_kind
authn_kind_or_other e = elim (authn_kind e) [ some kind ↦ kind_text kind | none ↦ "other" ]

unfoldable pub count_up : String → List (String × ℕ) → List (String × ℕ)
count_up key [] = (key, 1) ∷ []
count_up key ((k, n) ∷ rest) =
    if str_eq k key then (k, n + 1) ∷ rest else (k, n) ∷ count_up key rest

unfoldable pub inc_authn : String → Counters → Counters
unfolding count_up
inc_authn key c = record c { authn_failures = count_up key c.authn_failures }

-- `check_token` is the verifier of the tokens.
unfoldable pub authenticate : {S : Type 0} → (Text → Result Principal) → AppHandler S → AppHandler S
unfolding parse_bearer_token authn_kind_or_other inc_authn unauthorized_from_verify_err
authenticate check_token handler r (c, s) =
    if str_eq r.method "OPTIONS"
    then handler r (c, s)
    else elim (parse_bearer_token r.authorization) [
      | err e ↦ ((inc_authn (authn_kind_or_other e) c, s), err e)
      | ok token ↦ elim (check_token token) [
        | err e ↦
            let refusal = unauthorized_from_verify_err e in
            ((inc_authn (authn_kind_or_other refusal) c, s), err refusal)
        | ok p ↦ handler (record r { principal = some p }) (c, s)
      ]
    ]

-- The rules by their pattern.
unfoldable pub rule_for : String → List RouteRule → Option RouteRule
rule_for pattern [] = none
rule_for pattern (rr ∷ rest) = if str_eq rr.pattern pattern then some rr else rule_for pattern rest

unfoldable pub add_rules : List RouteRule → List RouteRule → Result (List RouteRule)
unfolding rule_for
add_rules rules [] = ok rules
add_rules rules (rr ∷ rest) =
    let later = add_rules (rules ++ (rr ∷ [])) rest in
    if str_eq rr.pattern ""
    then err (opaque "authorize api: empty rule pattern")
    else elim (rule_for rr.pattern rules) [
      | some old ↦ err (opaque "authorize api: duplicate rule pattern")
      | none ↦ later
    ]

unfoldable pub new_authorize_api : List RouteRule → Result (List RouteRule)
unfolding add_rules
new_authorize_api policy =
    if length policy == 0
    then err (opaque "authorize api: policy is empty")
    else add_rules [] policy

abbrev pub forbid :
    {S : Type 0} → AuthzErrorKind → Counters × S → (Counters × S) × Result (Unit {0})
forbid kind (c, s) =
    ((record c { forbidden_total = c.forbidden_total + 1 }, s), err (forbidden_for kind))

abbrev pub principal_missing : Failure
principal_missing = opaque "authorize: principal missing (Authenticate must run before Authorize)"

-- The switch on the rule's access level.
unfoldable pub check_access : {S : Type 0} → AccessLevel → AppHandler S → AppHandler S
check_access access_public handler r s = handler r s
check_access access_authenticated handler r s = elim r.principal [
  | none ↦ (s, err principal_missing)
  | some p ↦ handler r s
]
check_access access_admin_only handler r s = elim r.principal [
  | none ↦ (s, err principal_missing)
  | some p ↦ if not (is_admin p.role) then forbid admin_required s else handler r s
]
check_access (other_access n) handler r s = forbid unknown_access s

unfoldable pub authorize : {S : Type 0} → List RouteRule → AppHandler S → AppHandler S
unfolding rule_for
authorize rules handler r s =
    if str_eq r.method "OPTIONS"
    then handler r s
    else if str_eq r.pattern ""
    then (s, err (opaque "authorize: empty r.Pattern (Authorize must run after ServeMux)"))
    else elim (rule_for r.pattern rules) [
      | none ↦ forbid no_policy_rule s
      | some rule ↦ check_access rule.access handler r s
    ]
