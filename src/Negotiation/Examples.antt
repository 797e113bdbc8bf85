-- ===== src/Negotiation/Examples.antt =====
-- A header that names both forms; `plain` takes a part without parameters for its media type.
use go_max_tech_stack.Negotiation.{accept_header, negotiate, split_commas, media_type_protobuf}
use mathlib.Core.List.{Perm}
use go_max_tech_stack.Failure.Result.{ok}
use go_max_tech_stack.Text.{Text, codes, text_eq, trim_space, trim_left}
use go_max_tech_stack.Prelude.{Option, refl, some, ◌≡◌}
use mathlib.Core.List.Perm

abbrev plain : Text → Option Text
plain = some

abbrev both : Text
both = codes "application/json,application/protobuf"

both_chosen : accept_header plain both ≡ ok media_type_protobuf
unfolding accept_header negotiate split_commas text_eq trim_space trim_left
both_chosen = refl

abbrev reversed : Text
reversed = codes " application/protobuf,application/json"
