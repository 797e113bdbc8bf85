-- ===== src/Decimal/RoundTrip.antt =====
-- What strconv prints, it reads back.
use go_max_tech_stack.Text.{Text}
use go_max_tech_stack.Decimal.{digits, format_nat, format_int, scan, parse_nat, parse_int, fits_int}
use go_max_tech_stack.Prelude.{
  ◌%◌, ◌+◌, ◌/◌, ◌<◌, All, Bool-cases, [], arith, inl, inr, ltb, negsuc, pos, refl, some, subst,
  suc, true, zero, ℕ, ℤ, ◌∷◌, ◌≡◌, ◌≤◌, ◌∙◌,
}

scan-digits : (fuel n : ℕ) (out : Text) → n < fuel → scan (digits fuel n out) 0 ≡ scan out n
unfolding digits scan
scan-digits zero n out h = absurd (omega arith)
scan-digits (suc fuel) n out h = ground (arith, scan-digits fuel (n / 10) ((b'0' + n % 10) ∷ out))

abbrev pub IsDigit : ℕ → Type 0
IsDigit c = (b'0' ≤ c) × (c ≤ b'9')

All-digits :
    (fuel n : ℕ) (out : Text) → n < fuel → All IsDigit out → All IsDigit (digits fuel n out)
unfolding digits
All-digits zero n out l h = absurd (omega arith)
All-digits (suc fuel) n out l h = ground (arith, All-digits fuel (n / 10) ((b'0' + n % 10) ∷ out))

digits-ne-nil :
    (fuel n c : ℕ) (out : Text) → (d : ℕ) × (s : Text) × (digits fuel n (c ∷ out) ≡ d ∷ s)
unfolding digits
digits-ne-nil zero n c out = (c, out, refl)
digits-ne-nil (suc fuel) n c out = elim (Bool-cases (ltb n 10)) [
  | inl small ↦ (b'0' + n, c ∷ out, rw small refl)
  | inr large ↦
      let (d, s, e) = digits-ne-nil fuel (n / 10) (b'0' + n % 10) (c ∷ out) in (d, s, rw large e)
]

-- A printed number is digits, at least one.
pub format_nat-cons :
    (n : ℕ) → (d : ℕ) × (s : Text) × (format_nat n ≡ d ∷ s) × IsDigit d × All IsDigit s
unfolding format_nat digits
format_nat-cons n =
    let shape : (d : ℕ) × (s : Text) × (digits (suc n) n [] ≡ d ∷ s) =
      elim (Bool-cases (ltb n 10)) [
        | inl small ↦ (b'0' + n, [], rw small refl)
        | inr large ↦
            let (d, s, e) = digits-ne-nil n (n / 10) (b'0' + n % 10) [] in (d, s, rw large e)
      ] in
    let all_digits = subst (All IsDigit) (shape.2) (All-digits (suc n) n [] (omega arith) tt) in
    (shape.0, shape.1, shape.2, all_digits.0, all_digits.1)

parse_nat-scan : (s : Text) (d : ℕ) (t : Text) → s ≡ d ∷ t → parse_nat s ≡ scan s 0
unfolding parse_nat
parse_nat-scan s d t e = rw e refl

pub parse_nat-format_nat : (n : ℕ) → parse_nat (format_nat n) ≡ some n
unfolding format_nat scan
parse_nat-format_nat n =
    let (d, s, e, dig, rest) = format_nat-cons n in
    parse_nat-scan (format_nat n) d s e ∙ scan-digits (suc n) n [] (omega arith)

parse_int-digits :
    (s : Text) (d : ℕ) (t : Text) (n : ℕ)
    → s ≡ d ∷ t
    → IsDigit d
    → parse_nat s ≡ some n
    → fits_int (pos n) ≡ true
    → parse_int s ≡ some (pos n)
unfolding parse_int
parse_int-digits s d t n e dig p h =
    let p' : parse_nat (d ∷ t) ≡ some n = subst (λ r. parse_nat r ≡ some n) e p in
    rw e (ground (arith, p', dig, h))

parse_int-minus :
    (n : ℕ) → fits_int (negsuc n) ≡ true → parse_int (b'-' ∷ format_nat (n + 1)) ≡ some (negsuc n)
unfolding parse_int
parse_int-minus n h = rw (parse_nat-format_nat (n + 1)) (ground (arith, h))

-- Every int64 is read back from its print.
pub parse_int-format_int : (x : ℤ) → fits_int x ≡ true → parse_int (format_int x) ≡ some x
unfolding format_int
parse_int-format_int (pos n) h =
    let (d, s, e, dig, rest) = format_nat-cons n in
    parse_int-digits (format_nat n) d s n e dig (parse_nat-format_nat n) h
parse_int-format_int (negsuc n) h = parse_int-minus n h
