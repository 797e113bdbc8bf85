-- ===== src/Text/Search.antt =====
-- Where strings.IndexByte and strings.LastIndexByte find a character.
use go_max_tech_stack.Text.{Text, index_byte, last_index_byte}
use go_max_tech_stack.Prelude.{
  ◌++◌, ◌==◌, All, Bool-cases, Option-cases, [], ap, arith, inl, inr, length, none, refl, some, ℕ,
  ◌∷◌, ◌≡◌, ◌≢◌,
}

abbrev pub Lacks : ℕ → Text → Type 0
Lacks x = All (λ c. c ≢ x)

-- The text around the place that was found.
pub record Splits (x : ℕ) (s : Text) (i : ℕ) : Type 0 where
  pub before : Text
  pub after : Text
  pub whole : s ≡ before ++ (x ∷ after)
  pub place : i ≡ length before

pub index_byte-some :
    (x : ℕ) (s : Text) (i : ℕ) → index_byte x s ≡ some i → (p : Splits x s i) × Lacks x p.before
unfolding index_byte
index_byte-some x [] i h = cc
index_byte-some x (c ∷ s) i h = elim (Bool-cases (c == x)) [
  | inl hit ↦ (
    record { before = []; after = s; whole = ground (arith, hit); place = ground (arith, hit, h) },
    tt,
  )
  | inr miss ↦ elim (Option-cases (index_byte x s)) [
    | inl e ↦ ground (arith, miss, e, h)
    | inr (j, e) ↦
        let (p, lacks) = index_byte-some x s j e in
        (
          record {
            before = c ∷ p.before;
            after = p.after;
            whole = ap (λ (t : Text). c ∷ t) p.whole;
            place = ground (arith, miss, e, h, p.place);
          },
          (ground (arith, miss), lacks),
        )
  ]
]

pub index_byte-none : (x : ℕ) (s : Text) → index_byte x s ≡ none → Lacks x s
unfolding index_byte
index_byte-none x [] h = tt
index_byte-none x (c ∷ s) h = ground (arith, index_byte-none x s)

pub index_byte-Lacks : (x : ℕ) (s : Text) → Lacks x s → index_byte x s ≡ none
unfolding index_byte
index_byte-Lacks x [] h = refl
index_byte-Lacks x (c ∷ s) h = ground (arith, index_byte-Lacks x s h.1, h.0)

pub index_byte-append :
    (x : ℕ) (s t : Text) → Lacks x s → index_byte x (s ++ (x ∷ t)) ≡ some (length s)
unfolding index_byte
index_byte-append x [] t h = ground arith
index_byte-append x (c ∷ s) t h = ground (arith, index_byte-append x s t h.1, h.0)

last_index_byte-none : (x : ℕ) (s : Text) → last_index_byte x s ≡ none → Lacks x s
unfolding last_index_byte
last_index_byte-none x [] h = tt
last_index_byte-none x (c ∷ s) h = ground (arith, last_index_byte-none x s)

pub last_index_byte-Lacks : (x : ℕ) (s : Text) → Lacks x s → last_index_byte x s ≡ none
unfolding last_index_byte
last_index_byte-Lacks x [] h = refl
last_index_byte-Lacks x (c ∷ s) h = ground (arith, last_index_byte-Lacks x s h.1, h.0)

pub last_index_byte-some :
    (x : ℕ) (s : Text) (i : ℕ) → last_index_byte x s ≡ some i → (p : Splits x s i) × Lacks x p.after
unfolding last_index_byte
last_index_byte-some x [] i h = cc
last_index_byte-some x (c ∷ s) i h = elim (Option-cases (last_index_byte x s)) [
  | inl e ↦ elim (Bool-cases (c == x)) [
    | inl hit ↦ (
      record {
        before = [];
        after = s;
        whole = ground (arith, hit);
        place = ground (arith, hit, e, h);
      },
      last_index_byte-none x s e,
    )
    | inr miss ↦ ground (arith, miss, e, h)
  ]
  | inr (j, e) ↦
      let (p, lacks) = last_index_byte-some x s j e in
      (
        record {
          before = c ∷ p.before;
          after = p.after;
          whole = ap (λ (t : Text). c ∷ t) p.whole;
          place = ground (arith, e, h, p.place);
        },
        lacks,
      )
]

pub last_index_byte-append :
    (x : ℕ) (s t : Text) → Lacks x t → last_index_byte x (s ++ (x ∷ t)) ≡ some (length s)
unfolding last_index_byte
last_index_byte-append x [] t h = rw (last_index_byte-Lacks x t h, last_index_byte) (ground arith)
last_index_byte-append x (c ∷ s) t h = rw (last_index_byte-append x s t h, last_index_byte) refl
