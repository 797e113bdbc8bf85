-- ===== src/Etag/Tags.antt =====
-- One entity tag of internal/httputils/utils.go: what normalizeETag and splitHeaderList make of it,
-- and which user and version it stands for.
use go_max_tech_stack.Etag.{
  tag_body, user_etag, normalize_etag, split_from, split_header_list, strip_weak, quoted, add_part,
}
use go_max_tech_stack.Text.{Text, trim_space, text_eq, last_is}
use go_max_tech_stack.Text.Laws.{trim_space-kept, last_is-append}
use go_max_tech_stack.Decimal.{format_int, format_nat, fits_int, parse_int}
use go_max_tech_stack.Decimal.RoundTrip.{parse_int-format_int, format_nat-cons}
use go_max_tech_stack.Prelude.{
  ℤ, pos, negsuc, ◌+◌, ◌++◌, All, All-map, Bool, List, [], ap, append-nil, append_assoc, arith,
  false, refl, some, subst, sym, ℕ, ◌∷◌, ◌≡◌, ◌≢◌, ◌≤◌, true, Option, ◌∙◌,
}

-- Between the marks stand only digits and minus signs.
abbrev IsPlain : ℕ → Type 0
IsPlain c = (45 ≤ c) × (c ≤ 57)

All-append {ℓ κ} :
    {A : Type ℓ} (P : A → Type κ) (xs ys : List A) → All P xs → All P ys → All P (xs ++ ys)
All-append P [] ys h k = k
All-append P (x ∷ xs) ys h k = (h.0, All-append P xs ys h.1 k)

format_nat-IsPlain : (n : ℕ) → All IsPlain (format_nat n)
format_nat-IsPlain n =
    let (d, s, e, dig, rest) = format_nat-cons n in
    subst (All IsPlain) (sym e) (omega (arith, dig), All-map s (λ c h. omega (arith, h)) rest)

format_int-IsPlain : (x : ℤ) → All IsPlain (format_int x)
unfolding format_int
format_int-IsPlain (pos n) = format_nat-IsPlain n
format_int-IsPlain (negsuc n) = (omega arith, format_nat-IsPlain (n + 1))

-- What stands between the quotes.
abbrev marked : ℤ → ℤ → Text
marked id version = b'u' ∷ b':' ∷ (format_int id ++ (b':' ∷ b'v' ∷ b':' ∷ format_int version))

tag_body-eq : (id version : ℤ) → tag_body id version ≡ b'"' ∷ (marked id version ++ (b'"' ∷ []))
tag_body-eq id version =
    ap (λ (t : Text). b'"' ∷ b'u' ∷ b':' ∷ t)
      (sym (append_assoc (format_int id) (b':' ∷ b'v' ∷ b':' ∷ format_int version) (b'"' ∷ [])))

pub user_etag-trimmed : (id version : ℤ) → trim_space (user_etag id version) ≡ user_etag id version
unfolding user_etag
user_etag-trimmed id version =
    rw (tag_body-eq id version)
      (trim_space-kept b'W' b'"' (b'/' ∷ b'"' ∷ marked id version) refl refl)

tag_body-trimmed : (id version : ℤ) → trim_space (tag_body id version) ≡ tag_body id version
tag_body-trimmed id version =
    rw (tag_body-eq id version) (trim_space-kept b'"' b'"' (marked id version) refl refl)

quoted-tag_body : (id version : ℤ) → quoted (tag_body id version) ≡ some (tag_body id version)
unfolding quoted
quoted-tag_body id version =
    let closed : last_is b'"' (tag_body id version) ≡ true =
      subst (λ t. last_is b'"' t ≡ true) (sym (tag_body-eq id version))
        (last_is-append b'"' (b'"' ∷ marked id version)) in
    rw closed refl

strip_weak-user_etag : (id version : ℤ) → strip_weak (user_etag id version) ≡ tag_body id version
unfolding strip_weak user_etag
strip_weak-user_etag id version = tag_body-trimmed id version

pub user_etag-ne-nil : (id version : ℤ) → text_eq (user_etag id version) [] ≡ false
unfolding user_etag text_eq
user_etag-ne-nil id version = refl

pub normalize_etag-user_etag :
    (id version : ℤ) → normalize_etag (user_etag id version) ≡ some (tag_body id version)
unfolding normalize_etag
normalize_etag-user_etag id version =
    rw (user_etag-trimmed id version, user_etag-ne-nil id version, strip_weak-user_etag id version)
      (quoted-tag_body id version)

-- A character that neither quotes, nor escapes, nor separates.
abbrev IsQuiet : ℕ → Type 0
IsQuiet c = (c ≢ b'\\') × (c ≢ b'"') × (c ≢ b',')

split_from-quiet :
    (part p rest : Text) (in_quote : Bool)
    → All IsQuiet p
    → split_from part in_quote false (p ++ rest) ≡ split_from (part ++ p) in_quote false rest
unfolding split_from
split_from-quiet part [] rest in_quote h = rw (append-nil part) refl
split_from-quiet part (c ∷ p) rest in_quote h =
    let on = split_from-quiet (part ++ (c ∷ [])) p rest in_quote h.1 in
    ground (arith, h.0, on, append_assoc part (c ∷ []) p)

marked-IsQuiet : (id version : ℤ) → All IsQuiet (marked id version)
marked-IsQuiet id version =
    let quiet : (x : ℤ) → All IsQuiet (format_int x) =
      λ x. All-map (format_int x) (λ c h. omega (arith, h)) (format_int-IsPlain x) in
    (
      omega arith,
      (
        omega arith,
        All-append IsQuiet (format_int id) (b':' ∷ b'v' ∷ b':' ∷ format_int version) (quiet id)
            (omega arith, (omega arith, (omega arith, quiet version))),
      ),
    )

-- The characters up to the first quote, and the last quote.
opening : Text
opening = b'W' ∷ b'/' ∷ b'"' ∷ []

split_from-opening :
    (t : Text)
    → split_from [] false false (b'W' ∷ b'/' ∷ b'"' ∷ t) ≡ split_from opening true false t
unfolding split_from opening
split_from-opening t = refl

split_from-closing :
    (part : Text) → split_from part true false (b'"' ∷ []) ≡ add_part (part ++ (b'"' ∷ [])) []
unfolding split_from
split_from-closing part = refl

pub split_header_list-user_etag :
    (id version : ℤ) → split_header_list (user_etag id version) ≡ user_etag id version ∷ []
unfolding split_header_list opening
split_header_list-user_etag id version =
    let whole : user_etag id version ≡ (opening ++ marked id version) ++ (b'"' ∷ []) =
      unfold user_etag in ap (λ (t : Text). b'W' ∷ b'/' ∷ t) (tag_body-eq id version) in
    let inside =
      split_from-quiet opening (marked id version) (b'"' ∷ []) true (marked-IsQuiet id version) in
    ap (split_from [] false false) whole
    ∙ split_from-opening (marked id version ++ (b'"' ∷ []))
    ∙ inside
    ∙ split_from-closing (opening ++ marked id version)
    ∙ rw (← whole) (rw (user_etag-trimmed id version, user_etag-ne-nil id version) refl)

-- Two texts of plain characters, each up to a mark that is none.
up_to_mark :
    (mark : ℕ) (p q r t : Text)
    → ¬ IsPlain mark
    → All IsPlain p
    → All IsPlain q
    → Path Text (p ++ (mark ∷ r)) (q ++ (mark ∷ t))
    → (p ≡ q) × (r ≡ t)
up_to_mark mark [] [] r t outside h k e = (refl, cc e)
up_to_mark mark [] (d ∷ q) r t outside h k e =
    let same_mark : d ≡ mark = cc e in absurd (outside (subst IsPlain same_mark k.0))
up_to_mark mark (c ∷ p) [] r t outside h k e =
    let same_mark : c ≡ mark = cc e in absurd (outside (subst IsPlain same_mark h.0))
up_to_mark mark (c ∷ p) (d ∷ q) r t outside h k e =
    let rest = up_to_mark mark p q r t outside h.1 k.1 (cc e) in
    let first : c ≡ d = cc e in (cc (first, rest.0), rest.1)

format_int_inj :
    (x y : ℤ) → fits_int x ≡ true → fits_int y ≡ true → format_int x ≡ format_int y → x ≡ y
format_int_inj x y h k e =
    let read : Path (Option ℤ) (some x) (some y) =
      sym (parse_int-format_int x h) ∙ ap parse_int e ∙ parse_int-format_int y k in
    cc read

-- The tag tells the user and the version.
pub tag_body_inj :
    (id id' version version' : ℤ)
    → fits_int id ≡ true
    → fits_int id' ≡ true
    → fits_int version ≡ true
    → fits_int version' ≡ true
    → tag_body id version ≡ tag_body id' version'
    → (id ≡ id') × (version ≡ version')
tag_body_inj id id' version version' h h' k k' e =
    let (ids, rest) =
      up_to_mark b':' (format_int id) (format_int id')
        (b'v' ∷ b':' ∷ (format_int version ++ (b'"' ∷ [])))
        (b'v' ∷ b':' ∷ (format_int version' ++ (b'"' ∷ []))) (λ p. omega (arith, p))
        (format_int-IsPlain id) (format_int-IsPlain id') (cc e) in
    let (versions, _) =
      up_to_mark b'"' (format_int version) (format_int version') [] [] (λ p. omega (arith, p))
        (format_int-IsPlain version) (format_int-IsPlain version') (cc rest) in
    (format_int_inj id id' h h' ids, format_int_inj version version' k k' versions)
