-- ===== src/Handlers/Lookup.antt =====
-- The handlers of internal/routes that read: users_handler.go, users_handler_v2.go and
-- job_handler.go. Headers that are set before an error are left out.
use go_max_tech_stack.JobService
use go_max_tech_stack.JobService.{JobRepository}
use go_max_tech_stack.UserService.{UserRepository, get_all_users}
use go_max_tech_stack.Handlers.{
  Response, response, no_body, negotiated_body, users_body, users_v2_body, user_body, export_body,
  job_body,
}
use go_max_tech_stack.Entity.User.{User, UserDto, map_users_to_v2}
use go_max_tech_stack.Security.{Principal, can_read_user, can_read_job}
use go_max_tech_stack.Etag.{user_etag, if_none_match_matches}
use go_max_tech_stack.Negotiation.{accept_header}
use go_max_tech_stack.Failure.{unauthorized, missing, forbidden_for, denied}
use go_max_tech_stack.Failure.Result.{Result, ok, err}
use go_max_tech_stack.Text.{Text, codes}
use go_max_tech_stack.Prelude.{
  ◌++◌, List, Option, String, [], if◌then◌else◌, int64, map, none, not, some, ℕ, ◌∷◌,
}
use go_max_tech_stack.Entity.Job.{Job}
use go_max_tech_stack.Decimal.{format_int}
use go_max_tech_stack.UserService

abbrev pub dto : User → UserDto
dto u = record { id = u.id; name = u.name; email = u.email }

abbrev pub etag_of : User → Text
etag_of u = user_etag (int64 u.id) (int64 u.version)

abbrev pub cached : User → List (String × Text)
cached u =
    ("ETag", etag_of u)
    ∷ ("Cache-Control", codes "private, max-age=60")
    ∷ ("Vary", codes "Accept")
    ∷ []

-- The test that every handler of a user starts with.
abbrev pub permit_user : Option Principal → ℕ → Result (Unit {0})
permit_user none id = err (unauthorized missing)
permit_user (some p) id = if not (can_read_user p id) then err (forbidden_for denied) else ok tt

-- WriteNegotiated sets `Vary` once the media type is chosen.
unfoldable pub write_user : (Text → Option Text) → Text → User → Result Response
write_user media accept u = elim (accept_header media accept) [
  | err e ↦ err e
  | ok t ↦ ok (response 200 (cached u) (negotiated_body t (dto u)))
]

abbrev pub export_headers : ℕ → List (String × Text)
export_headers id =
    (
      "Content-Disposition",
      codes "attachment; filename=\"user-" ++ (format_int (int64 id) ++ codes "-export.json\""),
    )
    ∷ ("Content-Type", codes "application/json")
    ∷ []

module _ {U : Type 0} (users : UserRepository U) where
  unfoldable pub get_user :
      (Text → Option Text) → Option Principal → Text → Text → ℕ → U → Result Response
  get_user media principal if_none_match accept id r = elim (permit_user principal id) [
    | err e ↦ err e
    | ok _ ↦ elim (UserService.get_by_id users id r) [
      | err e ↦ err e
      | ok u ↦
          if if_none_match_matches if_none_match (etag_of u)
          then ok (response 304 (cached u) no_body)
          else write_user media accept u
    ]
  ]

  unfoldable pub get_user_v2 : Option Principal → ℕ → U → Result Response
  get_user_v2 principal id r = elim (permit_user principal id) [
    | err e ↦ err e
    | ok _ ↦ elim (UserService.get_by_id users id r) [
      | err e ↦ err e
      | ok u ↦ ok (response 200 [] (user_body (dto u)))
    ]
  ]

  -- Without the work of http.ServeContent: the range that a request asks for.
  unfoldable pub export_user : Option Principal → ℕ → U → Result Response
  export_user principal id r = elim (permit_user principal id) [
    | err e ↦ err e
    | ok _ ↦ elim (UserService.get_by_id users id r) [
      | err e ↦ err e
      | ok u ↦ ok (
          response 200 (export_headers id)
            (export_body (record { id = u.id; name = u.name; email = u.email; age = u.age })))
    ]
  ]

  unfoldable pub list_users : U → Result Response
  list_users r = elim (get_all_users users r) [
    | err e ↦ err e
    | ok us ↦ ok (response 200 [] (users_body (map dto us)))
  ]

  unfoldable pub list_users_v2 : U → Result Response
  list_users_v2 r = elim (get_all_users users r) [
    | err e ↦ err e
    | ok us ↦ ok (response 200 [] (users_v2_body (map_users_to_v2 us)))
  ]

module _ {R : Type 0} (jobs : JobRepository R) where
  -- The job is looked up before the principal, and then its owner may see it.
  unfoldable pub find_readable_job : Option Principal → ℕ → R → Result Job
  find_readable_job principal id r = elim (JobService.get_by_id jobs id r) [
    | err e ↦ err e
    | ok job ↦ elim principal [
      | none ↦ err (unauthorized missing)
      | some p ↦
          if not (can_read_job p job.owner_user_id) then err (forbidden_for denied) else ok job
    ]
  ]

  unfoldable pub get_job : Option Principal → ℕ → R → Result Response
  unfolding find_readable_job
  get_job principal id r = elim (find_readable_job principal id r) [
    | err e ↦ err e
    | ok job ↦ ok (response 200 [] (job_body job))
  ]
