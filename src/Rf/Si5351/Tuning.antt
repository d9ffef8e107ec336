-- ===== src/Rf/Si5351/Tuning.antt =====
-- pi/si5351.py: what `set_frequency` promises, from the request to the registers.
use embedded_ai_harness.Prelude.{
  ℕ, ◌+◌, ◌*◌, ◌≤◌, ◌<◌, ◌≡◌, Bool, true, false, arith, ltb, ◌∙◌, ◌&&◌, if◌then◌else◌, some,
}
use embedded_ai_harness.Rf.Si5351.{
  Chip, ok, raised, bad_channel, out_of_range, in_range, search_div, multiplier, program,
  actual_freq, set_frequency, frequency, write_all, max_denom, xtal_freq,
}
use embedded_ai_harness.Rf.Si5351.Divider.{choose_div_lem}
use embedded_ai_harness.Rf.Si5351.Synthesis.{multiplier_lem}
use embedded_ai_harness.Rf.Si5351.Registers.{
  IsAnswering, chip_freq, blocks_freq, write_all_lem, program_params, chip_freq-program,
}

same_ratio :
    (x ms : ℕ)
    → xtal_freq * (128 * x) * 128 * (max_denom * ms)
      ≡ xtal_freq * x * (128 * max_denom * (128 * ms))
same_ratio x ms = omega arith

scaled :
    (freq ms x : ℕ)
    → 2 * (freq * ms * 1_048_575) ≤ 50_000_000 * x + 25_000_000
    → 50_000_000 * x ≤ 2 * (freq * ms * 1_048_575) + 25_000_000
    → 8 ≤ ms
    → (2 * (xtal_freq * x) ≤ 2 * (freq * (max_denom * ms)) + 25_000_000)
      × (2 * (freq * (max_denom * ms)) ≤ 2 * (xtal_freq * x) + 25_000_000)
      × (8_388_600 ≤ max_denom * ms)
scaled freq ms x above below low = ground arith

-- What `set_frequency` comes to for a channel and a frequency that it accepts.
set_frequency-accepted :
    (acks : ℕ → Bool) (channel freq : ℕ) (c : Chip)
    → channel < 3
    → in_range freq ≡ true
    → IsAnswering acks
    → let d = search_div freq in
      let (mult, num) = multiplier (freq * d) in
      ((set_frequency acks channel freq c).1 ≡ ok (actual_freq mult num d))
      × ((r : ℕ)
          → (set_frequency acks channel freq c).0.register r
            ≡ (write_all acks (program channel mult num d) c).0.register r)
      × (frequency channel (set_frequency acks channel freq c).0 ≡ actual_freq mult num d)
unfolding set_frequency frequency
set_frequency-accepted acks channel freq c h range answers =
    let (mult, num) = multiplier (freq * search_div freq) in
    let (done, _) = write_all_lem acks (program channel mult num (search_div freq)) c answers in
    let (chosen, _, _, _, _, _) = choose_div_lem freq range in ground (arith, chosen, done)

-- On a bus that never fails three times in a row, every frequency in the driver's range can be set on
-- every channel: the driver returns a fraction, the part has the output powered up and makes that fraction of
-- its registers, and so is the one it remembers, and it is off the requested frequency by at most
-- 12.5 MHz over its denominator, which is at least 1048575 * 8: less than 1.5 Hz.
pub set_frequency_lem :
    (acks : ℕ → Bool) (channel freq : ℕ) (c : Chip)
    → channel < 3
    → in_range freq ≡ true
    → IsAnswering acks
    → let (mult, num) = multiplier (freq * search_div freq) in
      let (n, d) = actual_freq mult num (search_div freq) in
      let (c', r) = set_frequency acks channel freq c in
      (r ≡ ok (n, d))
      × ((chip : ℕ × ℕ) × (chip_freq c'.register channel ≡ some chip) × (chip.0 * d ≡ n * chip.1))
      × (2 * n ≤ 2 * (freq * d) + 25_000_000)
      × (2 * (freq * d) ≤ 2 * n + 25_000_000)
      × (8_388_600 ≤ d)
      × (frequency channel c' ≡ (n, d))
unfolding actual_freq blocks_freq
set_frequency_lem acks channel freq c h range answers =
    let ms = search_div freq in
    let (_, _, low, high, slow, fast) = choose_div_lem freq range in
    let (mult, num) = multiplier (freq * ms) in
    let (m_low, m_high, proper, above, below) = multiplier_lem (freq * ms) slow fast in
    let (done, same, kept) = set_frequency-accepted acks channel freq c h range answers in
    let stored = (write_all_lem acks (program channel mult num ms) c answers).1 in
    let (pll, out) =
      program_params channel mult num ms (set_frequency acks channel freq c).0.register c.register h
        (omega (arith, m_low)) m_high proper low high (λ q. same q ∙ stored q) in
    let made =
      chip_freq-program channel mult num ms (set_frequency acks channel freq c).0.register
        c.register h (λ q. same q ∙ stored q) in
    let (over, under, fine) = scaled freq ms (mult * max_denom + num) above below low in
    (
      done,
      (_, made, rw (pll, out) (same_ratio (mult * max_denom + num) ms)),
      over,
      under,
      fine,
      kept,
    )

-- A channel that the part does not have, and a frequency outside the range, are refused before the
-- bus is touched.
pub set_frequency-refused :
    (acks : ℕ → Bool) (channel freq : ℕ) (c : Chip)
    → (ltb channel 3 && in_range freq) ≡ false
    → ((set_frequency acks channel freq c).0 ≡ c)
      × ((set_frequency acks channel freq c).1
          ≡ raised (if ltb channel 3 then out_of_range else bad_channel))
unfolding set_frequency
set_frequency-refused acks channel freq c h = ground arith
