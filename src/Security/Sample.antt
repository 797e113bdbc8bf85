-- ===== src/Security/Sample.antt =====
-- A parser that keeps what `JwtParser` states.
use go_max_tech_stack.Security.Jwt.{JwtParser, Header, Claims}
use go_max_tech_stack.Failure.Result.{Result-cases}
use go_max_tech_stack.Failure.{
  Failure, Sentinel, is, sentinel, token_signature_invalid, token_expired, tag,
}
use go_max_tech_stack.Failure.Result.{Result, ok, err}
use go_max_tech_stack.Text.{Text, text_eq}
use go_max_tech_stack.Prelude.{
  Bool, Bool-cases, arith, false, if◌then◌else◌, inl, inr, not, refl, true, ◌≡◌, ==_iff,
}

pub record Sample : Type 0 where
  pub head : Header
  pub body : Claims
  pub secret : Text
  pub fresh : Bool

unfoldable pub parse_sample : (Header → Result Text) → Sample → Result Claims
parse_sample key_func t = elim (key_func t.head) [
  | err e ↦ err e
  | ok s ↦
      if not (text_eq t.secret s)
      then err (sentinel token_signature_invalid)
      else if t.fresh
      then ok t.body
      else err (sentinel token_expired)
]

pub is_itself : (s : Sentinel) → is (sentinel s) s ≡ true
unfolding is
is_itself s = (==_iff (tag s) (tag s)).1 refl

pub sample_only :
    (key_func : Header → Result Text) (t : Sample) (c : Claims)
    → parse_sample key_func t ≡ ok c
    → (s : Text) × (key_func t.head ≡ ok s)
      × (text_eq t.secret s ≡ true)
      × (t.fresh ≡ true)
      × (c ≡ t.body)
unfolding parse_sample
sample_only key_func t c h = elim (Result-cases (key_func t.head)) [
  | inr (e, q) ↦ ground (arith, q, h)
  | inl (s, q) ↦ elim (Bool-cases (text_eq t.secret s)) [
    | inr b ↦ ground (arith, q, b, h)
    | inl b ↦ elim (Bool-cases t.fresh) [
      | inr f ↦ ground (arith, q, b, f, h)
      | inl f ↦ (s, q, b, f, ground (arith, q, b, f, h))
    ]
  ]
]

pub sample_accepts :
    (key_func : Header → Result Text) (t : Sample) (s : Text)
    → key_func t.head ≡ ok s
    → text_eq t.secret s ≡ true
    → t.fresh ≡ true
    → parse_sample key_func t ≡ ok t.body
unfolding parse_sample
sample_accepts key_func t s k g n = rw (k, parse_sample) (rw (g, n) refl)

pub sample_fails :
    (key_func : Header → Result Text) (t : Sample) (e : Failure)
    → key_func t.head ≡ err e
    → parse_sample key_func t ≡ err e
unfolding parse_sample
sample_fails key_func t e k = rw (k, parse_sample) refl

pub sample_unsigned :
    (key_func : Header → Result Text) (t : Sample) (s : Text)
    → key_func t.head ≡ ok s
    → text_eq t.secret s ≡ false
    → parse_sample key_func t ≡ err (sentinel token_signature_invalid)
unfolding parse_sample
sample_unsigned key_func t s k g = rw (k, parse_sample) (rw g refl)

abbrev pub samples : JwtParser
samples = record {
  Token = Sample;
  header = λ t. t.head;
  claims = λ t. t.body;
  signed_by = λ t s. text_eq t.secret s;
  current = λ t. t.fresh;
  parse = parse_sample;
  accepts_only = sample_only;
  accepts = sample_accepts;
  refuses_key = λ key_func t s k. (sentinel s, sample_fails key_func t (sentinel s) k, is_itself s);
  refuses_signature = λ key_func t s k g. (
    sentinel token_signature_invalid,
    sample_unsigned key_func t s k g,
    is_itself token_signature_invalid,
  );
}
