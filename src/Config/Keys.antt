-- ===== src/Config/Keys.antt =====
-- The keys of a configuration as text: joinJWTKeys and parseJWTKeys of internal/config/config.go.
use go_max_tech_stack.Config.{JwtKey}
use go_max_tech_stack.Config.Loading.{loaded, ◌>>=◌, ◌>>◌, reject_if}
use go_max_tech_stack.Config.Items.{
  join_more, trim_items, contains_string, join_jwt_keys, parse_jwt_keys, parse_key, parse_keys,
  parse_key_at,
}
use go_max_tech_stack.Negotiation.{split_commas}
use go_max_tech_stack.Text.{Text, text_eq, trim_space}
use go_max_tech_stack.Text.Search.{Lacks, index_byte-append}
use go_max_tech_stack.Prelude.{
  ◌++◌, [], ap, append-nil, append_assoc, sym, ◌∷◌, ◌≡◌, ◌==◌, All, List, List-cases, String, arith,
  false, inl, inr, map, refl, ℕ, ◌≢◌, ◌-◌, drop-length-append, leb, length, length-append,
  take-length-append, ◌||◌, ◌≤◌,
}
use go_max_tech_stack.Config.Secure.{Apart}

abbrev pub item_of : JwtKey → Text
item_of k = k.kid ++ (b':' ∷ k.secret)

-- A key whose text is read back: no comma, no colon in the kid, and no spaces at the ends.
abbrev pub IsPlain : JwtKey → Type 0
IsPlain k =
    Lacks b',' (item_of k)
    × Lacks b':' k.kid
    × (trim_space k.kid ≡ k.kid)
    × (trim_space (item_of k) ≡ item_of k)

differs : (c d : ℕ) → c ≢ d → (c == d) ≡ false
differs c d h = ground arith

-- A list of items with commas between them is split into the items.
split_commas-item :
    (part s t : Text)
    → Lacks b',' s
    → split_commas part (s ++ (b',' ∷ t)) ≡ (part ++ s) ∷ split_commas [] t
unfolding split_commas
split_commas-item part [] t h = ap (λ q. q ∷ split_commas [] t) (sym (append-nil part))
split_commas-item part (c ∷ s) t h =
    rw (differs c b',' h.0, split_commas-item (part ++ (c ∷ [])) s t h.1)
      (ap (λ q. q ∷ split_commas [] t) (append_assoc part (c ∷ []) s))

split_commas-last : (part s : Text) → Lacks b',' s → split_commas part s ≡ (part ++ s) ∷ []
unfolding split_commas
split_commas-last part [] h = ap (λ q. q ∷ []) (sym (append-nil part))
split_commas-last part (c ∷ s) h =
    rw (differs c b',' h.0, split_commas-last (part ++ (c ∷ [])) s h.1)
      (ap (λ q. q ∷ []) (append_assoc part (c ∷ []) s))

-- The keys after the first, as joinJWTKeys writes them.
join_more-item :
    (k : JwtKey) (ks : List JwtKey)
    → trim_space k.kid ≡ k.kid
    → trim_space k.kid ++ (b':' ∷ (k.secret ++ join_more ks)) ≡ item_of k ++ join_more ks
join_more-item k ks e = rw e (sym (append_assoc k.kid (b':' ∷ k.secret) (join_more ks)))

split_commas-joined :
    (k : JwtKey) (ks : List JwtKey)
    → IsPlain k
    → All IsPlain ks
    → split_commas [] (item_of k ++ join_more ks) ≡ map item_of (k ∷ ks)
unfolding join_more
split_commas-joined k [] h a = rw (append-nil (item_of k)) (split_commas-last [] (item_of k) h.0)
split_commas-joined k (l ∷ ks) h a =
    rw (join_more-item l ks a.0.2, split_commas-item [] (item_of k) (item_of l ++ join_more ks) h.0)
      (ap (λ q. item_of k ∷ q) (split_commas-joined l ks a.0 a.1))

item_of-not_empty : (k : JwtKey) → text_eq (item_of k) [] ≡ false
unfolding text_eq
item_of-not_empty k = elim (List-cases k.kid) [ inl e ↦ rw e refl | inr (c, s, e) ↦ rw e refl ]

trim_items-plain :
    (key : String) (v : Text) (ks : List JwtKey)
    → All IsPlain ks
    → trim_items key v (map item_of ks) ≡ loaded (map item_of ks)
unfolding trim_items ◌>>=◌ ◌>>◌ reject_if
trim_items-plain key v [] a = refl
trim_items-plain key v (k ∷ ks) a =
    rw (a.0.3, item_of-not_empty k, trim_items-plain key v ks a.1) refl

length-not_empty : (s : Text) → text_eq s [] ≡ false → 1 ≤ length s
unfolding text_eq
length-not_empty [] h = cc
length-not_empty (c ∷ s) h = omega arith

not_blank : (s : Text) → text_eq (trim_space s) [] ≡ false → 1 ≤ length s
unfolding text_eq trim_space
not_blank [] h = cc
not_blank (c ∷ s) h = omega arith

-- The colon of an item is neither its first character nor its last one.
inside :
    (k : JwtKey)
    → 1 ≤ length k.kid
    → 1 ≤ length k.secret
    → (leb (length k.kid) 0 || leb (length (item_of k) - 1) (length k.kid)) ≡ false
inside k h j = ground (arith, length-append k.kid (b':' ∷ k.secret))

parse_key_at-plain :
    (key : String) (v : Text) (seen : List Text) (k : JwtKey)
    → IsPlain k
    → text_eq k.kid [] ≡ false
    → text_eq (trim_space k.secret) [] ≡ false
    → contains_string seen k.kid ≡ false
    → parse_key_at key v seen (item_of k) (length k.kid) ≡ loaded k
unfolding parse_key_at ◌>>=◌ ◌>>◌ reject_if
parse_key_at-plain key v seen k p kid secret fresh =
    rw
      (
        inside k (length-not_empty k.kid kid) (not_blank k.secret secret),
        take-length-append k.kid (b':' ∷ k.secret),
        drop-length-append k.kid b':' k.secret,
        p.2,
        kid,
        secret,
        fresh,
      )
      refl

parse_key-plain :
    (key : String) (v : Text) (seen : List Text) (k : JwtKey)
    → IsPlain k
    → text_eq k.kid [] ≡ false
    → text_eq (trim_space k.secret) [] ≡ false
    → contains_string seen k.kid ≡ false
    → parse_key key v seen (item_of k) ≡ loaded k
unfolding parse_key
parse_key-plain key v seen k p kid secret fresh =
    rw (parse_key, index_byte-append b':' k.kid k.secret p.1)
      (parse_key_at-plain key v seen k p kid secret fresh)

parse_keys-plain :
    (key : String) (v : Text) (seen : List Text) (ks : List JwtKey)
    → All IsPlain ks
    → Apart seen ks
    → parse_keys key v seen (map item_of ks) ≡ loaded ks
unfolding parse_keys ◌>>=◌
parse_keys-plain key v seen [] a h = refl
parse_keys-plain key v seen (k ∷ ks) a h =
    rw
      (
        parse_key-plain key v seen k a.0 h.0 h.1 h.2,
        parse_keys-plain key v (k.kid ∷ seen) ks a.1 h.3,
      )
      refl

-- The text that joinJWTKeys writes for one key or more is read back by parseJWTKeys as these keys, if
-- their kids are distinct and not empty, their secrets not blank, and no kid or secret has a comma, no
-- kid a colon, and no kid or item spaces at its ends.
pub parse-join :
    (key : String) (k : JwtKey) (ks : List JwtKey)
    → All IsPlain (k ∷ ks)
    → Apart [] (k ∷ ks)
    → parse_jwt_keys key (join_jwt_keys (k ∷ ks)) ≡ loaded (k ∷ ks)
unfolding parse_jwt_keys join_jwt_keys ◌>>=◌
parse-join key k ks a h =
    rw
      (
        join_more-item k ks a.0.2,
        split_commas-joined k ks a.0 a.1,
        trim_items-plain key (item_of k ++ join_more ks) (k ∷ ks) a,
        parse_keys-plain key (item_of k ++ join_more ks) [] (k ∷ ks) a h,
      )
      refl
