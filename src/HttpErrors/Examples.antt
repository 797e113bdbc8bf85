-- ===== src/HttpErrors/Examples.antt =====
-- The mapping of errors at concrete ones.
use go_max_tech_stack.HttpErrors.{Printing}
use go_max_tech_stack.HttpErrors.Mapping.{
  map_error, unexpected, map_bridge, map_domain, map_json, map_limit, map_profile, map_request,
  map_typed,
}
use go_max_tech_stack.HttpErrors.Soundness.{Tells}
use go_max_tech_stack.HttpErrors.Statuses.{rules, first, is_found}
use go_max_tech_stack.HttpErrors.Exact.{map_error_exact, status_of, Allows}
use go_max_tech_stack.Failure.{wrapped, sentinel, conflict, user_already_exists, find, is}
use go_max_tech_stack.Prelude.{◌==◌, if◌then◌else◌, refl, some, suc, zero, ◌≡◌, not}

abbrev printing : Printing
printing = record {
  quoted = λ s. s;
  format_int = λ n. elim n [ zero ↦ "0" | suc k ↦ if k == 0 then "1" else "many" ];
}

map_error_exact_example :
    let e = wrapped "save user" (sentinel conflict) in
    let m = map_error printing (some e) in
    (m.problem.status ≡ status_of (first (rules e)))
    × (m.log ≡ not (is_found (first (rules e))))
    × Tells m
    × Allows e m
map_error_exact_example = map_error_exact printing (wrapped "save user" (sentinel conflict))

conflict_is_409 : status_of (first (rules (wrapped "save user" (sentinel conflict)))) ≡ 409
unfolding find is
conflict_is_409 = refl

-- An error of the user repository that no test knows.
already_exists : map_error printing (some (sentinel user_already_exists)) ≡ unexpected
unfolding map_error map_typed map_bridge map_request map_json map_domain map_profile map_limit find
    is
already_exists = refl
