-- ===== src/Etag/Matching.antt =====
-- A conditional request of internal/httputils/utils.go that sends a tag back.
use go_max_tech_stack.Etag.{tag_body, user_etag, any_matches, if_none_match_matches}
use go_max_tech_stack.Etag.Tags.{
  normalize_etag-user_etag, split_header_list-user_etag, user_etag-trimmed, tag_body_inj,
  user_etag-ne-nil,
}
use go_max_tech_stack.Text.{Text, text_eq}
use go_max_tech_stack.Text.Laws.{text_eq_iff}
use go_max_tech_stack.Prelude.{
  Bool-cases, [], false, inl, inr, refl, sym, true, ℤ, ◌↔◌, ◌∙◌, ◌∷◌, ◌≡◌,
}
use go_max_tech_stack.Decimal.{fits_int}

user_etag-ne-star : (id version : ℤ) → text_eq (user_etag id version) (b'*' ∷ []) ≡ false
unfolding user_etag text_eq
user_etag-ne-star id version = refl

one_candidate :
    (id version : ℤ) (cur : Text)
    → any_matches cur (user_etag id version ∷ []) ≡ text_eq (tag_body id version) cur
unfolding any_matches
one_candidate id version cur =
    rw (normalize_etag-user_etag id version, any_matches)
      (elim (Bool-cases (text_eq (tag_body id version) cur)) [
        | inl e ↦ rw e refl
        | inr e ↦ rw e refl
      ])

matches-bodies :
    (id version id' version' : ℤ)
    → if_none_match_matches (user_etag id version) (user_etag id' version')
      ≡ text_eq (tag_body id version) (tag_body id' version')
unfolding if_none_match_matches
matches-bodies id version id' version' =
    rw (user_etag-trimmed id version, user_etag-ne-nil id version, user_etag-ne-star id version)
      (rw (normalize_etag-user_etag id' version', if_none_match_matches)
        (rw (user_etag-trimmed id version, split_header_list-user_etag id version)
          (one_candidate id version (tag_body id' version'))))

-- A client that sends the tag it was given is told that nothing changed exactly if the user and the
-- version are still those of the tag. Ids and versions are any int64.
pub if_none_match_exact :
    (id version id' version' : ℤ)
    → fits_int id ≡ true
    → fits_int version ≡ true
    → fits_int id' ≡ true
    → fits_int version' ≡ true
    → (if_none_match_matches (user_etag id version) (user_etag id' version') ≡ true)
      ↔ ((id ≡ id') × (version ≡ version'))
if_none_match_exact id version id' version' h k h' k' = (
  λ e. tag_body_inj id id' version version' h h' k k' (
      (text_eq_iff (tag_body id version) (tag_body id' version')).0
        (sym (matches-bodies id version id' version') ∙ e)),
  λ e.
      matches-bodies id version id' version'
      ∙ (text_eq_iff (tag_body id version) (tag_body id' version')).1 (rw (e.0, e.1) refl),
)
