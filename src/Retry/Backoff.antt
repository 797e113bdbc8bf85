-- ===== src/Retry/Backoff.antt =====
-- The delays of internal/outbound/profile_retry.go.
use native.Mathlib.Nat.{mul-suc, mul_assoc}
use go_max_tech_stack.Retry.{delay_bound, doubled, not_positive, exceeds}
use go_max_tech_stack.Prelude.{
  ◌&&◌, ◌*◌, ◌<◌, ◌==◌, arith, if◌then◌else◌, not, rounds, suc, zero, ℕ, ◌≤◌, Bool-cases, inl, inr,
  refl, true, u64, ◌≡◌, ltb, sym, ap, ◌∙◌,
}

-- 2 ^ n.
abbrev pub power : ℕ → ℕ
power zero = 1
power (suc n) = 2 * power n

power_pos : (n : ℕ) → 0 < power n
power_pos zero = omega arith
power_pos (suc n) = omega (arith, power_pos n)

-- With a positive cap no delay exceeds it.
pub delay_bound-capped :
    (base max rounds : ℕ) → 0 < max → max < 9223372036854775808 → delay_bound base max rounds ≤ max
unfolding delay_bound
delay_bound-capped base max rounds p q = capped (doubled rounds base) max p q
  where
    capped :
        (delay max : ℕ)
        → 0 < max
        → max < 9223372036854775808
        → (let capped = if not (max == 0) && exceeds delay max then max else delay in
            if not_positive capped then 0 else capped)
          ≤ max
    capped delay max p q = ground (arith, p, q)

u64-small : (n : ℕ) → n < 18446744073709551616 → u64 n ≡ n
u64-small n h = omega (arith, h)

at_least : (n m : ℕ) → 0 < m → n ≤ n * m
at_least n zero p = absurd (omega arith)
at_least n (suc m) p = omega (arith, mul-suc n m)

twice : (base r : ℕ) → base * power (suc r) ≡ base * 2 * power r
twice base r = sym (mul_assoc base 2 (power r))

doubled-exact :
    (rounds base : ℕ)
    → 0 < base
    → base * power rounds < 9223372036854775808
    → doubled rounds base ≡ base * power rounds
unfolding doubled
doubled-exact zero base p h = omega arith
doubled-exact (suc r) base p h =
    let small : base * 2 < 9223372036854775808 =
      omega (arith, h, twice base r, at_least (base * 2) (power r) (power_pos r)) in
    let on = doubled-exact r (base * 2) (omega arith) (omega (arith, h, twice base r)) in
    rw (u64-small (base * 2) (omega arith), twice base r, on) (ground (arith, small, p))

doubled-overflow :
    (rounds base : ℕ)
    → 0 < base
    → base < 18446744073709551616
    → 9223372036854775808 ≤ base * power rounds
    → not_positive (doubled rounds base) ≡ true
unfolding doubled
doubled-overflow zero base p w h = ground (arith, h)
doubled-overflow (suc r) base p w h = elim (Bool-cases (not_positive base)) [
  | inl b ↦ rw b refl
  | inr b ↦
      let small : base * 2 < 18446744073709551616 = ground (arith, b, p) in
      rw (b, u64-small (base * 2) small)
        (doubled-overflow r (base * 2) (omega arith) small (omega (arith, h, twice base r)))
]

abbrev cut : ℕ → ℕ → ℕ
cut delay max =
    let capped = if not (max == 0) && exceeds delay max then max else delay in
    if not_positive capped then 0 else capped

cut_positive :
    (delay max : ℕ)
    → 0 < delay
    → delay < 9223372036854775808
    → cut delay max ≡ (if not (max == 0) && ltb max delay then max else delay)
cut_positive delay max p h = ground (arith, p, h)

cut_negative :
    (delay max : ℕ) → not_positive delay ≡ true → max < 9223372036854775808 → cut delay max ≡ 0
cut_negative delay max h m = ground (arith, h, m)

-- The delay before the attempt after `rounds + 1` attempts is the base doubled that often, cut at
-- the cap if there is one; but once the doubling leaves the range of an int64 there is no delay at
-- all, whatever the cap. The base is positive and the cap is an int64.
delay_bound_exact :
    (base max rounds : ℕ)
    → 0 < base
    → base < 9223372036854775808
    → max < 9223372036854775808
    → let wanted = base * power rounds in
      delay_bound base max rounds ≡ (
        if ltb wanted 9223372036854775808
        then (if not (max == 0) && ltb max wanted then max else wanted)
        else 0)
unfolding delay_bound
delay_bound_exact base max rounds p b m =
    elim (Bool-cases (ltb (base * power rounds) 9223372036854775808)) [
      | inl small ↦
          let low : base * power rounds < 9223372036854775808 = ground (arith, small) in
          let wide : 0 < base * power rounds =
            omega (arith, p, at_least base (power rounds) (power_pos rounds)) in
          ap (λ d. cut d max) (doubled-exact rounds base p low)
          ∙ cut_positive (base * power rounds) max wide low
          ∙ rw small refl
      | inr large ↦ rw large (
          cut_negative (doubled rounds base) max
            (doubled-overflow rounds base p (omega (arith, b)) (ground (arith, large))) m)
    ]
