-- ===== src/Negotiation.antt =====
-- internal/httputils/accept.go, and what RequireJSONContentType and WriteNegotiated of
-- internal/httputils/utils.go make of a request's headers. `media` is the media type that
-- mime.ParseMediaType finds, which is lower case and ASCII; its parameters are never used. The quoted
-- header in an error's text is left out.
-- `Negotiation.Choice` says what is chosen.
use go_max_tech_stack.Text.{Text, codes, text_eq, trim_space}
use go_max_tech_stack.Failure.{sentinel, not_acceptable, unsupported_media_type, wrapped}
use go_max_tech_stack.Failure.Result.{Result, ok, err}
use go_max_tech_stack.Prelude.{
  ◌++◌, ◌==◌, Bool, List, Option, [], false, if◌then◌else◌, none, not, some, true, ◌||◌, ◌∷◌,
}
pub mod Choice
mod Examples

pub data MediaType : Type 0 where
  media_type_json media_type_protobuf : MediaType

-- strings.Split by commas; the first argument is the part so far.
unfoldable pub split_commas : Text → Text → List Text
split_commas part [] = part ∷ []
split_commas part (c ∷ s) =
    let cut = part ∷ split_commas [] s in
    let on = split_commas (part ++ (c ∷ [])) s in if c == b',' then cut else on

abbrev pub is_protobuf : Text → Bool
is_protobuf t =
    text_eq t (codes "application/protobuf") || text_eq t (codes "application/x-protobuf")

abbrev pub is_json : Text → Bool
is_json t =
    text_eq t (codes "application/json")
    || text_eq t (codes "*/*")
    || text_eq t (codes "application/*")

module _ (media : Text → Option Text) where
  -- The loop over the parts, with the flags jsonOK and parsedAny.
  unfoldable pub negotiate : Bool → Bool → List Text → Result MediaType
  negotiate json_ok parsed_any [] =
      if json_ok
      then ok media_type_json
      else if not parsed_any
      then err (wrapped "invalid Accept" (sentinel not_acceptable))
      else err (wrapped "" (sentinel not_acceptable))
  negotiate json_ok parsed_any (part ∷ rest) =
      let on = negotiate json_ok parsed_any rest in
      let parsed = negotiate json_ok true rest in
      let json = negotiate true true rest in
      if text_eq (trim_space part) [] then on else elim (media (trim_space part)) [
        | none ↦ on
        | some t ↦
            if is_protobuf t then ok media_type_protobuf else if is_json t then json else parsed
      ]

  unfoldable pub accept_header : Text → Result MediaType
  unfolding negotiate split_commas
  accept_header accept =
      if text_eq (trim_space accept) []
      then ok media_type_json
      else negotiate false false (split_commas [] (trim_space accept))

  unfoldable pub require_json_content_type : Text → Result (Unit {0})
  require_json_content_type ct =
      if text_eq ct []
      then err (wrapped "missing Content-Type" (sentinel unsupported_media_type))
      else elim (media ct) [
        | none ↦ err (wrapped "invalid Content-Type" (sentinel unsupported_media_type))
        | some t ↦
            if not (text_eq t (codes "application/json"))
            then err (wrapped "" (sentinel unsupported_media_type))
            else ok tt
      ]
