-- ===== src/Rf/Si5351/Registers.antt =====
-- pi/si5351.py: the registers that `set_frequency` leaves behind, on a bus that answers.
use embedded_ai_harness.Prelude.{
  ℕ, zero, suc, ◌+◌, ◌*◌, ◌/◌, ◌%◌, ◌≤◌, ◌<◌, ◌≡◌, Bool, true, Option, none, some, ◌||◌, ◌&&◌, List,
  [], ◌∷◌, arith, if◌then◌else◌, ◌==◌, ◌∙◌, ap, refl,
}
use embedded_ai_harness.Rf.Si5351.Synthesis.{
  read_params, ratio, unpack_a, unpack_b, unpack_c, pll-ratio, params_small,
}
use embedded_ai_harness.Rf.Si5351.{
  msn, pack, p1, p2, pll_base, ms_base, xtal_freq, max_denom, Chip, ok, raised, bus_error, attempt,
  write, write_all, write_byte, program, bit,
}

-- The bus never fails three times in a row.
abbrev pub IsAnswering : (ℕ → Bool) → Type 0
IsAnswering acks = (n : ℕ) → (acks n || (acks (n + 1) || acks (n + 1 + 1))) ≡ true

-- What a register holds after the writes, each of which stores a byte.
unfoldable pub final : List (ℕ × ℕ) → ℕ → ℕ → ℕ
final [] r old = old
final ((reg, value) ∷ rest) r old = final rest r (if r == reg then value % 256 else old)

-- A write is tried at most three times. Where one of the three is acknowledged, it stores the byte
-- once and raises nothing; where none is, it raises and stores nothing.
pub write_lem :
    (acks : ℕ → Bool) (reg value : ℕ) (c : Chip)
    → let n = c.attempts in
      let ack = acks n || (acks (n + 1) || acks (n + 1 + 1)) in
      ((write acks reg value c).1 ≡ (if ack then ok tt else raised bus_error))
      × ((write acks reg value c).0.attempts ≤ n + 3)
      × ((r : ℕ)
          → (write acks reg value c).0.register r
            ≡ (if ack && (r == reg) then value % 256 else c.register r))
unfolding write attempt write_byte
write_lem acks reg value c = ground arith

pub write_all_lem :
    (acks : ℕ → Bool) (ws : List (ℕ × ℕ)) (c : Chip)
    → IsAnswering acks
    → ((write_all acks ws c).1 ≡ ok tt)
      × ((r : ℕ) → (write_all acks ws c).0.register r ≡ final ws r (c.register r))
unfolding write_all final
write_all_lem acks [] c h = ground arith
write_all_lem acks ((reg, value) ∷ rest) c h =
    let (done, _, stored) = write_lem acks reg value c in
    let (fine, same) = write_all_lem acks rest (write acks reg value c).0 h in
    rw (write_all, done, h c.attempts)
      (fine, λ r. same r ∙ ap (final rest r) (stored r ∙ rw (h c.attempts) refl))

-- The crystal's frequency, times the ratio of a PLL's block, over that of an output's block; a fraction.
unfoldable pub blocks_freq : (ℕ → ℕ) → ℕ → ℕ → ℕ × ℕ
blocks_freq r pll ms =
    let (n, d) = ratio (read_params r pll) in
    let (n', d') = ratio (read_params r ms) in (xtal_freq * n * d', d * n')

-- The frequency of an output, as the part makes it from its registers. Of the output's control register,
-- from 16 on, bit 7 powers it down, the bits 2 and 3 connect it to its own block, from 42 on, where both
-- are set, and bit 5 feeds that from PLL B, from 34 on, rather than from PLL A, from 26 on.
unfoldable pub chip_freq : (ℕ → ℕ) → ℕ → Option (ℕ × ℕ)
chip_freq r channel =
    let control = r (16 + channel) in
    if (bit control 7 == 0) && ((bit control 2 == 1) && (bit control 3 == 1))
    then some (blocks_freq r (if bit control 5 == 1 then 34 else 26) (42 + 8 * channel))
    else none

-- The registers from `base` on hold the bytes of the three parameters.
abbrev HoldsBlock : (ℕ → ℕ) → ℕ → ℕ → ℕ → ℕ → Type 0
HoldsBlock r base a b c =
    (r base ≡ c / 256 % 256 % 256)
    × (r (base + 1) ≡ c % 256 % 256)
    × (r (base + 2) ≡ a / 65536 % 4 % 256)
    × (r (base + 3) ≡ a / 256 % 256 % 256)
    × (r (base + 4) ≡ a % 256 % 256)
    × (r (base + 5) ≡ (c / 65536 % 16 * 16 + b / 65536 % 16) % 256)
    × (r (base + 6) ≡ b / 256 % 256 % 256)
    × (r (base + 7) ≡ b % 256 % 256)

-- The part reads back the parameters that were packed.
read_params-HoldsBlock :
    (r : ℕ → ℕ) (base a b c : ℕ)
    → a < 262_144
    → b < 1_048_576
    → c < 1_048_576
    → HoldsBlock r base a b c
    → read_params r base ≡ record { a = a; b = b; c = c }
unfolding read_params
read_params-HoldsBlock r base a b c a_small b_small c_small (e0, e1, e2, e3, e4, e5, e6, e7) =
    rw
      (
        e0,
        e1,
        e2,
        e3,
        e4,
        e5,
        e6,
        e7,
        unpack_a a a_small,
        unpack_b b c b_small,
        unpack_c b c c_small,
      )
      refl

pll_ratio-HoldsBlock :
    (r : ℕ → ℕ) (base mult num : ℕ)
    → 8 ≤ mult
    → mult ≤ 36
    → num < 1_048_575
    → HoldsBlock r base (p1 mult num max_denom) (p2 mult num max_denom) max_denom
    → ratio (read_params r base) ≡ (128 * (mult * max_denom + num), 128 * max_denom)
pll_ratio-HoldsBlock r base mult num low high proper h =
    let (a_small, b_small) = params_small mult num high proper in
    rw (read_params-HoldsBlock r base _ _ max_denom a_small b_small (omega arith) h)
      (pll-ratio mult num low)

ms_ratio-HoldsBlock :
    (r : ℕ → ℕ) (base d : ℕ)
    → 8 ≤ d
    → d ≤ 1800
    → HoldsBlock r base (p1 d 0 1) (p2 d 0 1) 1
    → ratio (read_params r base) ≡ (128 * d, 128)
unfolding ratio p1 p2
ms_ratio-HoldsBlock r base d low high h =
    rw
      (read_params-HoldsBlock r base (p1 d 0 1) (p2 d 0 1) 1 (omega arith) (omega arith)
        (omega arith) h)
      (ground arith)

pub program_params :
    (channel mult num ms_div : ℕ) (r old : ℕ → ℕ)
    → channel < 3
    → 8 ≤ mult
    → mult ≤ 36
    → num < 1_048_575
    → 8 ≤ ms_div
    → ms_div ≤ 1800
    → ((q : ℕ) → r q ≡ final (program channel mult num ms_div) q (old q))
    → (ratio (read_params r (pll_base channel)) ≡ (128 * (mult * max_denom + num), 128 * max_denom))
      × (ratio (read_params r (ms_base channel)) ≡ (128 * ms_div, 128))
unfolding final program msn pack
program_params zero mult num ms_div r old h a b c d e f = (
  pll_ratio-HoldsBlock r 26 mult num a b c (f 26, f 27, f 28, f 29, f 30, f 31, f 32, f 33),
  ms_ratio-HoldsBlock r 42 ms_div d e (f 42, f 43, f 44, f 45, f 46, f 47, f 48, f 49),
)
program_params (suc zero) mult num ms_div r old h a b c d e f = (
  pll_ratio-HoldsBlock r 26 mult num a b c (f 26, f 27, f 28, f 29, f 30, f 31, f 32, f 33),
  ms_ratio-HoldsBlock r 50 ms_div d e (f 50, f 51, f 52, f 53, f 54, f 55, f 56, f 57),
)
program_params (suc (suc zero)) mult num ms_div r old h a b c d e f = (
  pll_ratio-HoldsBlock r 34 mult num a b c (f 34, f 35, f 36, f 37, f 38, f 39, f 40, f 41),
  ms_ratio-HoldsBlock r 58 ms_div d e (f 58, f 59, f 60, f 61, f 62, f 63, f 64, f 65),
)
program_params (suc (suc (suc n))) mult num ms_div r old h a b c d e f = ground arith

-- The output is powered up and fed from the PLL that was programmed.
pub chip_freq-program :
    (channel mult num ms_div : ℕ) (r old : ℕ → ℕ)
    → channel < 3
    → ((q : ℕ) → r q ≡ final (program channel mult num ms_div) q (old q))
    → chip_freq r channel ≡ some (blocks_freq r (pll_base channel) (ms_base channel))
unfolding final program msn pack chip_freq
chip_freq-program zero mult num ms_div r old h f = let e : r 16 ≡ 0x4C = f 16 in rw e refl
chip_freq-program (suc zero) mult num ms_div r old h f = let e : r 17 ≡ 0x4C = f 17 in rw e refl
chip_freq-program (suc (suc zero)) mult num ms_div r old h f =
    let e : r 18 ≡ 0x6C = f 18 in rw e refl
chip_freq-program (suc (suc (suc n))) mult num ms_div r old h f = ground arith
