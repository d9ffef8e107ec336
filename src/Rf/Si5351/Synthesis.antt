-- ===== src/Rf/Si5351/Synthesis.antt =====
-- pi/si5351.py: the PLL's multiplier in `set_frequency`, and its packing in `_write_msn`.
use embedded_ai_harness.Prelude.{ℕ, ◌+◌, ◌*◌, ◌/◌, ◌%◌, ◌≤◌, ◌<◌, ◌≡◌, arith, round_div}
use embedded_ai_harness.Rf.Si5351.{multiplier, p1, p2, max_denom}

-- Half a unit of the numerator, on either side: for an exact quotient n / d.
round_div_bounds :
    (n : ℕ)
    → (2 * n ≤ 50_000_000 * round_div n 25_000_000 + 25_000_000)
      × (50_000_000 * round_div n 25_000_000 ≤ 2 * n + 25_000_000)
unfolding round_div
round_div_bounds n = ground arith

-- For a VCO from 600 to 900 MHz the multiplier is from 24 to 36, its fraction is proper, and it is
-- the closest that a denominator of 1048575 gives: the VCO is off by at most half a step of it.
pub multiplier_lem :
    (vco : ℕ)
    → 600_000_000 ≤ vco
    → vco ≤ 900_000_000
    → (24 ≤ (multiplier vco).0)
      × ((multiplier vco).0 ≤ 36)
      × ((multiplier vco).1 < 1_048_575)
      × (2 * (vco * 1_048_575)
          ≤ 50_000_000 * ((multiplier vco).0 * 1_048_575 + (multiplier vco).1) + 25_000_000)
      × (50_000_000 * ((multiplier vco).0 * 1_048_575 + (multiplier vco).1)
          ≤ 2 * (vco * 1_048_575) + 25_000_000)
unfolding multiplier
multiplier_lem vco low high = ground (arith, round_div_bounds (vco % 25_000_000 * 1_048_575))

-- The parameters of AN619, as the part reads them from the eight registers of a block.
pub record Params : Type 0 where
  pub a : ℕ
  pub b : ℕ
  pub c : ℕ

unfoldable pub read_params : (ℕ → ℕ) → ℕ → Params
read_params r base = record {
  a = r (base + 2) % 4 * 65536 + r (base + 3) * 256 + r (base + 4);
  b = r (base + 5) % 16 * 65536 + r (base + 6) * 256 + r (base + 7);
  c = r (base + 5) / 16 * 65536 + r base * 256 + r (base + 1);
}

-- The ratio that the part makes of its parameters, as a fraction.
unfoldable pub ratio : Params → ℕ × ℕ
ratio p = ((p.a + 512) * p.c + p.b, 128 * p.c)

-- The bytes of `pack`, put together again.
pub unpack_a :
    (a : ℕ)
    → a < 262_144
    → a / 65536 % 4 % 256 % 4 * 65536 + a / 256 % 256 % 256 * 256 + a % 256 % 256 ≡ a
unpack_a a h = omega arith

pub unpack_b :
    (b c : ℕ)
    → b < 1_048_576
    → (c / 65536 % 16 * 16 + b / 65536 % 16) % 256 % 16 * 65536
        + b / 256 % 256 % 256 * 256
        + b % 256 % 256
      ≡ b
unpack_b b c h = omega arith

pub unpack_c :
    (b c : ℕ)
    → c < 1_048_576
    → (c / 65536 % 16 * 16 + b / 65536 % 16) % 256 / 16 * 65536
        + c / 256 % 256 % 256 * 256
        + c % 256 % 256
      ≡ c
unpack_c b c h = omega arith

-- The packed parameters of the PLL stand for its multiplier.
pub pll-ratio :
    (mult num : ℕ)
    → 8 ≤ mult
    → ratio (record { a = p1 mult num max_denom; b = p2 mult num max_denom; c = max_denom })
      ≡ (128 * (mult * max_denom + num), 128 * max_denom)
unfolding ratio p1 p2
pll-ratio mult num h = ground arith

-- The parameters of a multiplier up to 36 fit their fields of 18 and 20 bits.
pub params_small :
    (mult num : ℕ)
    → mult ≤ 36
    → num < 1_048_575
    → (p1 mult num max_denom < 262_144) × (p2 mult num max_denom < 1_048_576)
unfolding p1 p2
params_small mult num high proper = ground arith
