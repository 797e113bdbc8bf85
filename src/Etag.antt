-- ===== src/Etag.antt =====
-- The entity tags of internal/httputils/utils.go: UserETag, IfNoneMatchMatches, normalizeETag and
-- splitHeaderList. `split_from` is the loop of splitHeaderList: its first argument is the text
-- s[start:i], and the flags are inQuote and escape.
-- `Etag.Tags` is about one tag, `Etag.Matching` about a request that sends one.
use go_max_tech_stack.Text.{Text, trim_space, text_eq, last_is, codes}
use go_max_tech_stack.Decimal.{format_int}
use go_max_tech_stack.Prelude.{
  ◌&&◌, ◌++◌, ◌==◌, Bool, List, Option, [], false, if◌then◌else◌, none, not, some, true, ◌||◌, ℤ,
  ◌∷◌,
}
pub mod Tags
pub mod Matching
mod Examples

-- UserETag; `tag_body` is the part that comparison keeps.
abbrev pub tag_body : ℤ → ℤ → Text
tag_body id version =
    b'"'
    ∷ b'u'
    ∷ b':'
    ∷ (format_int id ++ (b':' ∷ b'v' ∷ b':' ∷ (format_int version ++ (b'"' ∷ []))))

unfoldable pub user_etag : ℤ → ℤ → Text
user_etag id version = b'W' ∷ b'/' ∷ tag_body id version

-- The weak prefix is taken off.
unfoldable pub strip_weak : Text → Text
strip_weak (c ∷ d ∷ rest) =
    if (c == b'W' || c == b'w') && d == b'/' then trim_space rest else c ∷ d ∷ rest
strip_weak (c ∷ []) = c ∷ []
strip_weak [] = []

-- A quoted string has at least two characters, the first and the last of them quotes.
unfoldable pub quoted : Text → Option Text
quoted [] = none
quoted (c ∷ []) = none
quoted (c ∷ d ∷ rest) =
    if not (c == b'"') || not (last_is b'"' (c ∷ d ∷ rest)) then none else some (c ∷ d ∷ rest)

unfoldable pub normalize_etag : Text → Option Text
normalize_etag v = let t = trim_space v in if text_eq t [] then none else quoted (strip_weak t)

abbrev pub add_part : Text → List Text → List Text
add_part part out = let t = trim_space part in if text_eq t [] then out else t ∷ out

unfoldable pub split_from : Text → Bool → Bool → Text → List Text
split_from part in_quote escape [] = add_part part []
split_from part in_quote escape (c ∷ rest) =
    let skip = split_from (part ++ (c ∷ [])) in_quote false rest in
    let escaped = split_from (part ++ (c ∷ [])) in_quote true rest in
    let turned = split_from (part ++ (c ∷ [])) (not in_quote) escape rest in
    let cut = add_part part (split_from [] in_quote escape rest) in
    let on = split_from (part ++ (c ∷ [])) in_quote escape rest in
    if escape
    then skip
    else if c == b'\\' && in_quote
    then escaped
    else if c == b'"'
    then turned
    else if c == b',' && not in_quote
    then cut
    else on

unfoldable pub split_header_list : Text → List Text
split_header_list = split_from [] false false

-- The loop over the candidates.
unfoldable pub any_matches : Text → List Text → Bool
any_matches cur [] = false
any_matches cur (cand ∷ rest) =
    let later = any_matches cur rest in
    elim (normalize_etag cand) [ none ↦ later | some n ↦ if text_eq n cur then true else later ]

unfoldable pub if_none_match_matches : Text → Text → Bool
if_none_match_matches if_none_match current =
    let header = trim_space if_none_match in
    if text_eq header []
    then false
    else if text_eq header (b'*' ∷ [])
    then true
    else elim (normalize_etag current) [
      | none ↦ false
      | some cur ↦ any_matches cur (split_header_list header)
    ]
