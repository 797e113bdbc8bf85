-- ===== src/Decimal.antt =====
-- strconv.FormatInt, strconv.Itoa and strconv.ParseInt of Go's standard library in base 10, which
-- internal/httputils and internal/security call.
-- `Decimal.RoundTrip` reads back what was printed.
use go_max_tech_stack.Prelude.{
  ℤ, pos, negsuc, ◌%◌, ◌*◌, ◌+◌, ◌-◌, ◌/◌, ◌==◌, Bool, List, Option, String, [], if◌then◌else◌, ltb,
  none, some, suc, zero, ◌||◌, ℕ, ◌∷◌,
}
use go_max_tech_stack.Text.{Text}
pub mod RoundTrip

-- The digits of `n` before `out`; more fuel than `n` is enough.
unfoldable pub digits : ℕ → ℕ → Text → Text
digits zero n out = out
digits (suc fuel) n out =
    let more = digits fuel (n / 10) ((b'0' + n % 10) ∷ out) in
    if ltb n 10 then (b'0' + n) ∷ out else more

unfoldable pub format_nat : ℕ → Text
unfolding digits
format_nat n = digits (suc n) n []

unfoldable pub format_int : ℤ → Text
format_int (pos n) = format_nat n
format_int (negsuc n) = b'-' ∷ format_nat (n + 1)

-- The number that digits spell behind `n`.
unfoldable pub scan : Text → ℕ → Option ℕ
scan [] n = some n
scan (c ∷ s) n = if ltb c b'0' || ltb b'9' c then none else scan s (n * 10 + (c - b'0'))

unfoldable pub parse_nat : Text → Option ℕ
unfolding scan
parse_nat [] = none
parse_nat (c ∷ s) = scan (c ∷ s) 0

-- The range of an int64.
abbrev pub fits_int : ℤ → Bool
fits_int (pos n) = ltb n 9223372036854775808
fits_int (negsuc n) = ltb n 9223372036854775808

abbrev negated : ℕ → ℤ
negated zero = pos 0
negated (suc n) = negsuc n

abbrev in_range : ℤ → Option ℤ
in_range x = if fits_int x then some x else none

-- A sign may stand before the digits; a number out of range is an error.
unfoldable pub parse_int : Text → Option ℤ
parse_int [] = none
parse_int (c ∷ s) =
    if c == b'-'
    then elim (parse_nat s) [ none ↦ none | some n ↦ in_range (negated n) ]
    else if c == b'+'
    then elim (parse_nat s) [ none ↦ none | some n ↦ in_range (pos n) ]
    else elim (parse_nat (c ∷ s)) [ none ↦ none | some n ↦ in_range (pos n) ]
