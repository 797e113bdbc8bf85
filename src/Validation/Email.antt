-- ===== src/Validation/Email.antt =====
-- Which emails isLikelyEmail of internal/httputils/utils.go accepts.
use go_max_tech_stack.Validation.{is_likely_domain, is_likely_email}
use go_max_tech_stack.Text.{Text, last_index_byte, index_byte, text_eq}
use go_max_tech_stack.Text.Search.{
  Lacks, last_index_byte-some, last_index_byte-append, Splits, index_byte-Lacks, index_byte-append,
  index_byte-none, index_byte-some,
}
use go_max_tech_stack.Prelude.{
  ◌+◌, ◌++◌, ◌<◌, Option-cases, [], ap, arith, inl, inr, length, length-append, refl, some, suc,
  true, ◌∙◌, ◌∷◌, ◌≡◌, ◌≢◌, drop, drop-length-append, false, subst, take, take-length-append, ℕ,
  ◌↔◌,
}

-- A host and a last label around the last dot.
pub record IsDomain (domain : Text) : Type 0 where
  pub host : Text
  pub label : Text
  pub whole : domain ≡ host ++ (b'.' ∷ label)
  pub no_dot : Lacks b'.' label
  pub some_host : host ≢ []
  pub some_label : label ≢ []

-- One @, with a local part before it and a domain behind.
pub record IsEmail (s : Text) : Type 0 where
  pub local : Text
  pub domain : Text
  pub whole : s ≡ local ++ (b'@' ∷ domain)
  pub lacks : Lacks b'@' local
  pub lacks_more : Lacks b'@' domain
  pub some_local : local ≢ []
  pub dotted : IsDomain domain

empty-length : (s : Text) → length s ≡ 0 → s ≡ []
empty-length [] h = refl
empty-length (c ∷ s) h = absurd (omega (arith, h))

is_likely_domain-IsDomain : (domain : Text) → is_likely_domain domain ≡ true → IsDomain domain
unfolding is_likely_domain
is_likely_domain-IsDomain domain h = elim (Option-cases (last_index_byte b'.' domain)) [
  | inl e ↦ ground (arith, e, h)
  | inr (dot, e) ↦
      let (p, no_dot) = last_index_byte-some b'.' domain dot e in
      let len : length domain ≡ length p.before + suc (length p.after) =
        ap length p.whole ∙ length-append p.before (b'.' ∷ p.after) in
      record {
        host = p.before;
        label = p.after;
        whole = p.whole;
        no_dot = no_dot;
        some_host = λ x. ground (arith, e, h, ap length x, p.place);
        some_label = λ x. ground (arith, e, h, ap length x, p.place, len);
      }
]

nonempty-length : (s : Text) → s ≢ [] → 0 < length s
nonempty-length [] h = absurd (h refl)
nonempty-length (c ∷ s) h = omega arith

IsDomain-is_likely_domain : (domain : Text) → IsDomain domain → is_likely_domain domain ≡ true
unfolding is_likely_domain
IsDomain-is_likely_domain domain d =
    let found : last_index_byte b'.' domain ≡ some (length d.host) =
      ap (last_index_byte b'.') d.whole ∙ last_index_byte-append b'.' d.host d.label d.no_dot in
    let len : length domain ≡ length d.host + suc (length d.label) =
      ap length d.whole ∙ length-append d.host (b'.' ∷ d.label) in
    rw (found, is_likely_domain)
      (ground
        (arith, len, nonempty-length d.host d.some_host, nonempty-length d.label d.some_label))

after_at : (s : Text) (at : ℕ) (p : Splits b'@' s at) → drop (suc at) s ≡ p.after
after_at s at p =
    ap (λ i. drop (suc i) s) p.place
    ∙ ap (drop (suc (length p.before))) p.whole
    ∙ drop-length-append p.before b'@' p.after

is_likely_email-IsEmail : (s : Text) → is_likely_email s ≡ true → IsEmail s
unfolding is_likely_email
is_likely_email-IsEmail s h = elim (Option-cases (index_byte b'@' s)) [
  | inl e ↦ ground (arith, e, h)
  | inr (at, e) ↦
      let (p, lacks) = index_byte-some b'@' s at e in
      let rest = after_at s at p in
      elim (Option-cases (index_byte b'@' (drop (suc at) s))) [
        | inr (more, e') ↦ ground (arith, e, e', h)
        | inl e' ↦ record {
          local = p.before;
          domain = p.after;
          whole = p.whole;
          lacks = lacks;
          lacks_more = subst (Lacks b'@') rest (index_byte-none b'@' (drop (suc at) s) e');
          some_local = λ x. ground (arith, e, h, ap length x, p.place);
          dotted =
              subst IsDomain rest
                (is_likely_domain-IsDomain (drop (suc at) s) (ground (arith, e, e', h)));
        }
      ]
]

domain_some : (domain : Text) → IsDomain domain → 0 < length domain
domain_some domain d = omega (arith, ap length d.whole ∙ length-append d.host (b'.' ∷ d.label))

ne-text_eq : (s : Text) → 0 < length s → text_eq s [] ≡ false
unfolding text_eq
ne-text_eq [] h = absurd (omega arith)
ne-text_eq (c ∷ s) h = refl

pub IsEmail-ne-nil : (s : Text) → IsEmail s → text_eq s [] ≡ false
IsEmail-ne-nil s m =
    ne-text_eq s (omega (arith, ap length m.whole ∙ length-append m.local (b'@' ∷ m.domain)))

IsEmail-is_likely_email : (s : Text) → IsEmail s → is_likely_email s ≡ true
unfolding is_likely_email
IsEmail-is_likely_email s m =
    let at : ℕ = length m.local in
    let found : index_byte b'@' s ≡ some at =
      ap (index_byte b'@') m.whole ∙ index_byte-append b'@' m.local m.domain m.lacks in
    let len : length s ≡ at + suc (length m.domain) =
      ap length m.whole ∙ length-append m.local (b'@' ∷ m.domain) in
    let behind : drop (suc at) s ≡ m.domain =
      ap (drop (suc at)) m.whole ∙ drop-length-append m.local b'@' m.domain in
    let before : take at s ≡ m.local =
      ap (take at) m.whole ∙ take-length-append m.local (b'@' ∷ m.domain) in
    let local_some = nonempty-length m.local m.some_local in
    let domain_long = domain_some m.domain m.dotted in
    let alone = index_byte-Lacks b'@' m.domain m.lacks_more in
    rw (found, is_likely_email)
      (rw behind (
        rw (alone, is_likely_email)
          (rw (before, behind)
            (ground (
              arith,
              len,
              local_some,
              domain_long,
              ne-text_eq s,
              ne-text_eq m.local,
              ne-text_eq m.domain,
              IsDomain-is_likely_domain m.domain m.dotted,
            )))))

-- An email is accepted exactly if it has one @ alone, something before it, and behind it a domain
-- whose last dot has something on both sides.
pub is_likely_email_exact : (s : Text) → (is_likely_email s ≡ true) ↔ IsEmail s
is_likely_email_exact s = (is_likely_email-IsEmail s, IsEmail-is_likely_email s)
