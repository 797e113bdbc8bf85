-- ===== src/Etag/Examples.antt =====
-- Tags and headers as clients send them.
use go_max_tech_stack.Etag.{
  user_etag, if_none_match_matches, normalize_etag, split_header_list, strip_weak, quoted,
  split_from, any_matches,
}
use go_max_tech_stack.Text.{codes, trim_left, text_eq, last_is, trim_space}
use go_max_tech_stack.Prelude.{pos, refl, true, ◌≡◌}
use go_max_tech_stack.Decimal.{digits, format_int, format_nat}

tag : user_etag (pos 7) (pos 12) ≡ codes "W/\"u:7:v:12\""
unfolding user_etag format_int format_nat digits
tag = refl

-- A list with a comma inside quotes, and strong comparison of a weak tag.
listed : if_none_match_matches (codes " \"a,b\" , \"u:7:v:12\"") (codes "W/\"u:7:v:12\"") ≡ true
unfolding if_none_match_matches normalize_etag strip_weak quoted split_header_list split_from
    any_matches trim_space trim_left text_eq last_is
listed = refl
