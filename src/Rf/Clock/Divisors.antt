-- ===== src/Rf/Clock/Divisors.antt =====
-- pi/gpclk.py: which dividers the driver picks and lists.
use native.Mathlib.Nat.{div-le_of_le-mul, le-div_iff_mul-le, mul_comm}
use embedded_ai_harness.Prelude.{ℕ, zero, suc, ◌+◌, ◌*◌, ◌/◌, ◌≤◌, ◌<◌, ◌↔◌, arith, In, ap}
use embedded_ai_harness.Rf.Clock.{dividers_from, list_frequencies}

In-dividers_from :
    (n d low high k : ℕ)
    → In k (dividers_from n d low high)
      ↔ ((d ≤ k) × (k < d + n) × (low * k ≤ 500_000_000) × (500_000_000 ≤ high * k))
unfolding dividers_from
In-dividers_from zero d low high k = ground arith
In-dividers_from (suc n) d low high k =
    ground (arith, In-dividers_from n (d + 1) low high k, ap (λ x. low * x), ap (λ x. high * x))

div_up : (n d k : ℕ) → 0 < d → n ≤ d * k → n / d ≤ k
div_up n d k h le = div-le_of_le-mul d le

div_down : (n d k : ℕ) → 0 < d → d * k ≤ n → k ≤ n / d
div_down n d k h le = (le-div_iff_mul-le h).1 (rw (mul_comm k d) le)

-- For bounds that are not 0, `list_frequencies` lists exactly the dividers from 2 to 4095 whose
-- frequency lies from `low` to `high`.
pub In-list_frequencies :
    (low high k : ℕ)
    → 0 < low
    → 0 < high
    → In k (list_frequencies low high)
      ↔ ((2 ≤ k) × (k ≤ 4095) × (low * k ≤ 500_000_000) × (500_000_000 ≤ high * k))
unfolding list_frequencies
In-list_frequencies low high k l h = (
  λ i.
      let (a, b, c, d) = (In-dividers_from _ _ low high k).0 i in
      (omega (arith, a), omega (arith, a, b), c, d),
  λ (a, b, c, d). (In-dividers_from _ _ low high k).1 (
    omega (arith, div_up 500_000_000 high k h d),
    omega (arith, div_down 500_000_000 low k l c),
    c,
    d,
  ),
)
