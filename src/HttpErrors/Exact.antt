-- ===== src/HttpErrors/Exact.antt =====
-- What `MapError` of internal/httputils/errmap.go answers to every error: the status of the table, the
-- headers that go with it, and whether it is logged.
use go_max_tech_stack.HttpErrors.{
  MappedProblem, Printing, answer, as_bad_request, as_method_not_allowed,
}
use go_max_tech_stack.HttpErrors.Mapping.{map_error, map_typed, map_untyped, or_unexpected}
use go_max_tech_stack.HttpErrors.Soundness.{
  Tells, AllExpected, answered, has_header, or_unexpected-Tells, known-AllExpected,
}
use go_max_tech_stack.HttpErrors.Statuses.{
  Agrees, first, first-append, is_found, later_rules, map_typed-status, map_untyped-status,
  other_rules, rules, status, typed_rules,
}
use go_max_tech_stack.Failure.{Failure, find, or_else}
use go_max_tech_stack.Prelude.{
  ◌&&◌, ◌++◌, ◌==◌, Bool, List, Option, Option-cases, String, [], ap, arith, false, if◌then◌else◌,
  inl, inr, none, not, refl, some, str_eq, true, ℕ, ◌∙◌, ◌∷◌, ◌≡◌, ◌⊎◌,
}

-- The status of the first test that is passed, or 500.
abbrev pub status_of : Option ℕ → ℕ
status_of none = 500
status_of (some n) = n

-- The header Allow stands in no other answer than that to a method that is not allowed; there it has
-- what the error carries, if that is not empty.
abbrev pub Allows : Failure → MappedProblem → Type 0
Allows e m =
    (((m.problem.status == 405) ≡ false) × (has_header "Allow" m.headers ≡ false))
    ⊎ ((allow : String) × (find as_method_not_allowed e ≡ some allow)
        × (m.problem.status ≡ 405)
        × (m.headers ≡ (if str_eq allow "" then none else some ("Allow", allow))))

abbrev known : Printing → Failure → Option MappedProblem
known print e = or_else (map_typed e) (map_untyped print e)

known-Agrees : (print : Printing) (e : Failure) → Agrees (known print e) (rules e)
known-Agrees print e =
    first-append (typed_rules e) (other_rules e) (map_typed e) (map_untyped print e)
      (map_typed-status e) (map_untyped-status print e)

logged_exactly :
    (x : Option MappedProblem) (found : Option ℕ)
    → AllExpected x
    → status x ≡ found
    → ((or_unexpected x).problem.status ≡ status_of found)
      × ((or_unexpected x).log ≡ not (is_found found))
logged_exactly none none h s = (refl, refl)
logged_exactly none (some n) h s = cc s
logged_exactly (some m) none h s = cc s
logged_exactly (some m) (some n) (answered m' h) s = (ground (arith, s), h.1)

abbrev lacks_405 : List (Bool × ℕ) → Bool
lacks_405 [] = true
lacks_405 ((b, n) ∷ rs) = not (n == 405) && lacks_405 rs

first-lacks_405 :
    (rs : List (Bool × ℕ)) → lacks_405 rs ≡ true → (status_of (first rs) == 405) ≡ false
first-lacks_405 [] h = refl
first-lacks_405 ((true, n) ∷ rs) h = ground (arith, h)
first-lacks_405 ((false, n) ∷ rs) h = first-lacks_405 rs (ground (arith, h))

map_error-Allows :
    (print : Printing) (e : Failure)
    → Tells (or_unexpected (known print e))
    → (or_unexpected (known print e)).problem.status ≡ status_of (first (rules e))
    → Allows e (or_unexpected (known print e))
unfolding map_typed
map_error-Allows print e t s = elim (Option-cases (find as_bad_request e)) [
  | inr (d, b) ↦ rw (b, answer) (inl (refl, refl))
  | inl b ↦ elim (Option-cases (find as_method_not_allowed e)) [
    | inr (allow, m) ↦ rw (b, answer) (rw (m, answer) (inr (allow, refl, refl, refl)))
    | inl m ↦
        let miss : (status_of (first (rules e)) == 405) ≡ false =
          rw (b) (rw m (first-lacks_405 (later_rules e ++ other_rules e) refl)) in
        elim t.allows [
          | inl a ↦ inl (ap (λ n. n == 405) s ∙ miss, a)
          | inr a ↦ ground (arith, a, s, miss)
        ]
  ]
]

-- Every error is answered by the status of the first test of the table that it passes, and by 500 if
-- it passes none; it is logged exactly in that last case. WWW-Authenticate is there exactly if the
-- status is 401, Retry-After exactly if it is 429, and Allow only with 405, as the error carries it.
pub map_error_exact :
    (print : Printing) (e : Failure)
    → let m = map_error print (some e) in
      (m.problem.status ≡ status_of (first (rules e)))
      × (m.log ≡ not (is_found (first (rules e))))
      × Tells m
      × Allows e m
unfolding map_error
map_error_exact print e =
    let x = known print e in
    let (s, l) =
      logged_exactly x (first (rules e)) (known-AllExpected print e)
        (known-Agrees print e).same_status in
    let t = or_unexpected-Tells x (known-AllExpected print e) in
    (s, l, t, map_error-Allows print e t s)
