-- ===== src/Rf/Si5351/Examples.antt =====
-- pi/si5351.py: the driver at concrete frequencies, on a bus that fails two attempts of three.
use embedded_ai_harness.Prelude.{
  none, some, ℕ, ◌+◌, ◌*◌, ◌%◌, ◌≤◌, ◌≡◌, Bool, arith, ◌==◌, refl, round_div,
}
use embedded_ai_harness.Rf.Si5351.{
  Chip, ok, in_range, search_div, raise_div, lower_div, first_div, multiplier, actual_freq,
  set_frequency, frequency,
}
use embedded_ai_harness.Rf.Si5351.Registers.{IsAnswering, chip_freq}
use embedded_ai_harness.Rf.Si5351.Tuning.{set_frequency_lem}

abbrev one_in_three : ℕ → Bool
one_in_three n = n % 3 == 2

abbrev powered_up : Chip
powered_up = record { register = λ r. 255; attempts = 2; ch_freqs = λ k. none }

one_in_three-IsAnswering : IsAnswering one_in_three
one_in_three-IsAnswering n = ground arith

search_div_7_mhz : search_div 7_030_000 ≡ 128
unfolding search_div raise_div lower_div first_div round_div
search_div_7_mhz = refl

multiplier_7_mhz : multiplier 899_840_000 ≡ (35, 1041864)
unfolding multiplier round_div
multiplier_7_mhz = refl

set_frequency_lem_example :
    let (mult, num) = multiplier (7_030_000 * search_div 7_030_000) in
    let (n, d) = actual_freq mult num (search_div 7_030_000) in
    let (c', r) = set_frequency one_in_three 2 7_030_000 powered_up in
    (r ≡ ok (n, d))
    × ((chip : ℕ × ℕ) × (chip_freq c'.register 2 ≡ some chip) × (chip.0 * d ≡ n * chip.1))
    × (2 * n ≤ 2 * (7_030_000 * d) + 25_000_000)
    × (2 * (7_030_000 * d) ≤ 2 * n + 25_000_000)
    × (8_388_600 ≤ d)
    × (frequency 2 c' ≡ (n, d))
unfolding in_range
set_frequency_lem_example =
    set_frequency_lem one_in_three 2 7_030_000 powered_up (omega arith) refl
      one_in_three-IsAnswering
