-- ===== src/Grpc/Examples.antt =====
-- The owner of the first job, and a stranger, ask for it over the bridge.
use go_max_tech_stack.Grpc.{get_by_id_via_grpc, map_job_status, map_pb_job_status}
use go_max_tech_stack.Grpc.Bridge.{bridge_agrees, bridged, server}
use go_max_tech_stack.Handlers.Lookup.{find_readable_job}
use go_max_tech_stack.Prelude.Assoc.{lookup}
use go_max_tech_stack.JobService.{memory_repository}
use go_max_tech_stack.JobRepo.Examples.{one_job}
use go_max_tech_stack.Security.{Principal, user, can_read_job}
use go_max_tech_stack.Security.Access.{parse_bearer_token, parse_words, fields_from}
use go_max_tech_stack.Failure.Result.{Result, ok}
use go_max_tech_stack.Text.{Text, codes, text_eq, trim_space, trim_left}
use go_max_tech_stack.JobRepo.{JobRepo}
use go_max_tech_stack.Prelude.{arith, refl, some, ◌≡◌}
use go_max_tech_stack.JobService
use go_max_tech_stack.JobRepo

abbrev owner : Principal
owner = record { user_id = 7; role = user }

abbrev as_owner : Text → Result Principal
as_owner t = ok owner

header_parsed : parse_bearer_token (trim_space (codes " Bearer x")) ≡ ok (codes "x")
unfolding parse_bearer_token parse_words fields_from text_eq trim_space trim_left
header_parsed = refl

bridge_agrees_example :
    get_by_id_via_grpc (some (server as_owner one_job)) (codes " Bearer x") 1
    ≡ bridged (find_readable_job memory_repository (some owner) 1 one_job)
bridge_agrees_example =
    bridge_agrees as_owner (codes " Bearer x") (codes "x") owner 1 one_job header_parsed refl
      (omega arith) (omega arith)

-- The job is there.
owner_answered :
    get_by_id_via_grpc (some (server as_owner one_job)) (codes " Bearer x") 1
    ≡ ok (record { id = 1; status = "queued"; source = "grpc" })
unfolding find_readable_job JobService.get_by_id JobRepo.get_by_id can_read_job lookup
    map_job_status map_pb_job_status
owner_answered =
    bridge_agrees as_owner (codes " Bearer x") (codes "x") owner 1 one_job header_parsed refl
      (omega arith) (omega arith)
