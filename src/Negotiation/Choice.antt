-- ===== src/Negotiation/Choice.antt =====
-- What accept_header of internal/httputils/accept.go chooses.
use mathlib.Core.List.{Perm}
use go_max_tech_stack.Negotiation.{
  split_commas, is_protobuf, is_json, MediaType, media_type_json, media_type_protobuf,
}
use go_max_tech_stack.Failure.{Failure, sentinel, not_acceptable, wrapped}
use go_max_tech_stack.Failure.Result.{Result, ok, err}
use go_max_tech_stack.Text.{Text, text_eq, trim_space}
use go_max_tech_stack.Prelude.{
  Bool, List, Option, [], false, if◌then◌else◌, none, not, some, true, ◌||◌, ◌∷◌,
}
use mathlib.Core.List.Perm

module _ (media : Text → Option Text) where
  -- The media types that a header names.
  pub named : List Text → List Text
  named [] = []
  named (part ∷ rest) =
      let more = named rest in
      if text_eq (trim_space part) []
      then more
      else elim (media (trim_space part)) [ none ↦ more | some t ↦ t ∷ more ]

  pub any_of : (Text → Bool) → List Text → Bool
  any_of test [] = false
  any_of test (t ∷ rest) = let more = any_of test rest in test t || more

  abbrev pub refusal : Bool → Failure
  refusal parsed_any =
      if not parsed_any
      then wrapped "invalid Accept" (sentinel not_acceptable)
      else wrapped "" (sentinel not_acceptable)

  abbrev is_named : List Text → Bool
  is_named [] = false
  is_named (t ∷ ts) = true

  abbrev pub best : Bool → Bool → List Text → Result MediaType
  best json_ok parsed_any types =
      if any_of is_protobuf types
      then ok media_type_protobuf
      else if json_ok || any_of is_json types
      then ok media_type_json
      else err (refusal (parsed_any || is_named types))

  -- What one part of the header adds to a test on the media types that are named.
  mentions : (Text → Bool) → Text → Bool
  mentions test part =
      if text_eq (trim_space part) []
      then false
      else elim (media (trim_space part)) [ none ↦ false | some t ↦ test t ]

  -- The parts of a header, as the code splits it.
  abbrev pub parts : Text → List Text
  parts accept = split_commas [] (trim_space accept)
