-- ===== src/Rf/Si5351/Divider.antt =====
-- pi/si5351.py: the choice of the output divider in `set_frequency`.
use native.Mathlib.Nat.{mod-lt, mul-le-mul_left, mul-add}
use native.Mathlib.Omega.{div_any}
use embedded_ai_harness.Prelude.{
  ap, ◌⊎◌, inl, inr, ℕ, zero, suc, ◌+◌, ◌-◌, ◌*◌, ◌/◌, ◌%◌, ◌≤◌, ◌<◌, ◌≡◌, true, arith, round_div,
}
use embedded_ai_harness.Rf.Si5351.{
  in_range, first_div, lower_div, raise_div, search_div, choose_div, ok,
}

-- A divider that the search may hold: even, within the part's limits, with a VCO that is not slow.
abbrev pub IsCandidate : ℕ → ℕ → Type 0
IsCandidate freq d = (d % 2 ≡ 0) × (8 ≤ d) × (d ≤ 1800) × (600_000_000 ≤ freq * d)

mul_le_mul : (k : ℕ) (a b : ℕ) → a ≤ b → k * a ≤ k * b
mul_le_mul k a b h = mul-le-mul_left k h

div-le_round : (n d : ℕ) → n / d ≤ round_div n d
unfolding round_div
div-le_round n d = ground arith

round_div_near : (n d : ℕ) → 0 < d → n ≤ d * round_div n d + d
round_div_near n d pos =
    omega
      (arith, div_any n d, mod-lt n pos, mul_le_mul d (n / d) (round_div n d) (div-le_round n d))

in_range_bounds :
    (freq : ℕ) → in_range freq ≡ true → (600_000_000 ≤ freq * 1800) × (freq * 8 ≤ 900_000_000)
unfolding in_range
in_range_bounds freq h = ground arith

two_back : (d : ℕ) → 2 ≤ d → d - 2 + 2 ≡ d
two_back d h = omega arith

mul_step : (freq d : ℕ) → 2 ≤ d → freq * (d - 2) + 2 * freq ≡ freq * d
mul_step freq d h = omega (arith, mul-add freq (d - 2) 2, ap (λ x. freq * x) (two_back d h))

lower_div-IsCandidate :
    (n freq d : ℕ)
    → freq * 8 ≤ 900_000_000
    → IsCandidate freq d
    → IsCandidate freq (lower_div n freq d)
unfolding lower_div
lower_div-IsCandidate zero freq d h c = c
lower_div-IsCandidate (suc n) freq d h c =
    ground (arith, mul_step freq d, lower_div-IsCandidate n freq (d - 2) h)

-- With half as many rounds as the divider is large, the first loop has run to its end.
lower_div-end :
    (n freq d : ℕ)
    → freq * 8 ≤ 900_000_000
    → d % 2 ≡ 0
    → 8 ≤ d
    → d ≤ 2 * n + 8
    → freq * lower_div n freq d ≤ 900_000_000
unfolding lower_div
lower_div-end zero freq d h e l b = ground (arith, mul_le_mul freq d 8 (omega arith))
lower_div-end (suc n) freq d h e l b =
    ground (arith, mul_le_mul freq d 8, lower_div-end n freq (d - 2) h)

raise_div-end : (n freq d : ℕ) → 600_000_000 ≤ freq * d → raise_div n freq d ≡ d
unfolding raise_div
raise_div-end zero freq d h = ground arith
raise_div-end (suc n) freq d h = ground arith

first_div_bounds :
    (freq : ℕ)
    → (first_div freq % 2 ≡ 0)
      × (8 ≤ first_div freq)
      × (first_div freq ≤ 1800)
      × ((first_div freq ≡ 1800) ⊎ (round_div 900_000_000 freq ≤ first_div freq))
unfolding first_div
first_div_bounds freq = ground arith

first_div-IsCandidate : (freq : ℕ) → in_range freq ≡ true → IsCandidate freq (first_div freq)
first_div-IsCandidate freq h =
    let (slow, quick) = in_range_bounds freq h in
    let near = round_div_near 900_000_000 freq (omega arith) in
    let (even, low, high, cases) = first_div_bounds freq in
    (
      even,
      low,
      high,
      elim cases [ inl e ↦ rw e slow | inr le ↦ omega (arith, mul_le_mul freq _ _ le) ],
    )

search_div-lower :
    (freq : ℕ) → in_range freq ≡ true → search_div freq ≡ lower_div 1800 freq (first_div freq)
unfolding search_div
search_div-lower freq h =
    let c = first_div-IsCandidate freq h in
    let quick = (in_range_bounds freq h).1 in
    raise_div-end 1800 freq _ (lower_div-IsCandidate 1800 freq (first_div freq) quick c).3

search_div-IsCandidate :
    (freq : ℕ)
    → in_range freq ≡ true
    → IsCandidate freq (search_div freq) × (freq * search_div freq ≤ 900_000_000)
search_div-IsCandidate freq h =
    let c = first_div-IsCandidate freq h in
    let quick = (in_range_bounds freq h).1 in
    let end = lower_div-end 1800 freq (first_div freq) quick c.0 c.1 (omega (arith, c.2)) in
    rw (search_div-lower freq h) (lower_div-IsCandidate 1800 freq (first_div freq) quick c, end)

-- Every frequency in the driver's range gets a divider that the part can be programmed with: even,
-- from 8 to 1800, and with the VCO from 600 to 900 MHz.
pub choose_div_lem :
    (freq : ℕ)
    → in_range freq ≡ true
    → (choose_div freq ≡ ok (search_div freq))
      × (search_div freq % 2 ≡ 0)
      × (8 ≤ search_div freq)
      × (search_div freq ≤ 1800)
      × (600_000_000 ≤ freq * search_div freq)
      × (freq * search_div freq ≤ 900_000_000)
unfolding choose_div
choose_div_lem freq h = ground (arith, search_div-IsCandidate freq h)
