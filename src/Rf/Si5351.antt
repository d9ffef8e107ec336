-- ===== src/Rf/Si5351.antt =====
-- pi/si5351.py: the Si5351A clock generator. The quotients of floats are exact fractions here, rounded
-- as Python's `round` does. The chip keeps its registers in a function; the I2C bus is a parameter
-- that tells which attempts at a write it acknowledges.
pub mod Divider
pub mod Synthesis
pub mod Registers
pub mod Tuning
pub mod Keying
mod Examples
use embedded_ai_harness.Prelude.{
  ℕ, zero, suc, ◌+◌, ◌-◌, ◌*◌, ◌/◌, ◌%◌, ◌^◌, min, max, Bool, true, false, not, ◌&&◌, ◌||◌, Option,
  none, some, List, [], ◌∷◌, ◌++◌, leb, ltb, if◌then◌else◌, ◌==◌, round_div,
}

abbrev pub xtal_freq : ℕ
xtal_freq = 25_000_000

abbrev pub pll_freq_min : ℕ
pll_freq_min = 600_000_000

abbrev pub pll_freq_max : ℕ
pll_freq_max = 900_000_000

abbrev pub ms_div_min : ℕ
ms_div_min = 8

abbrev pub ms_div_max : ℕ
ms_div_max = 1800

-- The largest denominator of 20 bits.
abbrev pub max_denom : ℕ
max_denom = 1_048_575

pub data Error : Type 0 where
  bad_channel : Error
  out_of_range : Error
  not_reachable : ℕ → Error
  -- the OSError of the bus after its third failure
  bus_error : Error

pub data Result {ℓ} (A : Type ℓ) : Type ℓ where
  ok : A → Result A
  raised : Error → Result A

-- `OUT_FREQ_MIN <= freq_hz <= OUT_FREQ_MAX`, where the bounds are the quotients
-- PLL_FREQ_MIN / MS_DIV_MAX and PLL_FREQ_MAX / MS_DIV_MIN
pub in_range : ℕ → Bool
in_range freq = leb pll_freq_min (freq * ms_div_max) && leb (freq * ms_div_min) pll_freq_max

-- The first divider that is tried.
pub first_div : ℕ → ℕ
first_div freq = let d = max ms_div_min (round_div pll_freq_max freq) in min (d + d % 2) ms_div_max

-- `while vco > PLL_FREQ_MAX and ms_div > MS_DIV_MIN`, for as many rounds as the first argument says
pub lower_div : ℕ → ℕ → ℕ → ℕ
lower_div zero freq d = d
lower_div (suc n) freq d =
    let rest = lower_div n freq (d - 2) in
    if ltb pll_freq_max (freq * d) && ltb ms_div_min d then rest else d

-- `while vco < PLL_FREQ_MIN and ms_div + 2 <= MS_DIV_MAX`
pub raise_div : ℕ → ℕ → ℕ → ℕ
raise_div zero freq d = d
raise_div (suc n) freq d =
    let rest = raise_div n freq (d + 2) in
    if ltb (freq * d) pll_freq_min && leb (d + 2) ms_div_max then rest else d

-- Each loop changes the divider by two, and stops at a limit that is at most 1800 away.
pub search_div : ℕ → ℕ
search_div freq = raise_div ms_div_max freq (lower_div ms_div_max freq (first_div freq))

pub choose_div : ℕ → Result ℕ
choose_div freq =
    let d = search_div freq in
    let vco = freq * d in
    if not (leb pll_freq_min vco && leb vco pll_freq_max) || ltb ms_div_max d
    then raised (not_reachable d)
    else ok d

-- `mult_int` and `num`, over the denominator `max_denom`
pub multiplier : ℕ → ℕ × ℕ
multiplier vco =
    let num = round_div (vco % xtal_freq * max_denom) xtal_freq in
    if num == max_denom then (vco / xtal_freq + 1, 0) else (vco / xtal_freq, num)

-- The registers, how many transfers the bus has seen, and `_ch_freqs`.
pub record Chip : Type 0 where
  pub register : ℕ → ℕ
  pub attempts : ℕ
  pub ch_freqs : ℕ → Option (ℕ × ℕ)

pub write_byte : ℕ → ℕ → Chip → Chip
write_byte reg value c = record c { register = λ r. if r == reg then value else c.register r }

-- `_write`, with `n` attempts left
pub attempt : (ℕ → Bool) → ℕ → ℕ → ℕ → Chip → Chip × Result {0} Unit
attempt acks zero reg value c = (c, raised bus_error)
attempt acks (suc n) reg value c =
    let c' = record c { attempts = c.attempts + 1 } in
    let again = attempt acks n reg value c' in
    if acks c.attempts then (write_byte reg (value % 256) c', ok tt) else again

pub write : (ℕ → Bool) → ℕ → ℕ → Chip → Chip × Result {0} Unit
write acks reg value c = attempt acks 3 reg value c

-- The writes in turn, up to the first that raises.
pub write_all : (ℕ → Bool) → List (ℕ × ℕ) → Chip → Chip × Result {0} Unit
write_all acks [] c = (c, ok tt)
write_all acks ((reg, value) ∷ rest) c =
    let (c', r) = write acks reg value c in
    elim r [ ok _ ↦ write_all acks rest c' | raised e ↦ (c', raised e) ]

pub p1 : ℕ → ℕ → ℕ → ℕ
p1 div num denom = 128 * div + 128 * num / denom - 512

pub p2 : ℕ → ℕ → ℕ → ℕ
p2 div num denom = 128 * num - denom * (128 * num / denom)

pub pack : ℕ → ℕ → ℕ → ℕ → List (ℕ × ℕ)
pack base a b c =
    (base, c / 256 % 256)
    ∷ (base + 1, c % 256)
    ∷ (base + 2, a / 65536 % 4)
    ∷ (base + 3, a / 256 % 256)
    ∷ (base + 4, a % 256)
    ∷ (base + 5, c / 65536 % 16 * 16 + b / 65536 % 16)
    ∷ (base + 6, b / 256 % 256)
    ∷ (base + 7, b % 256)
    ∷ []

-- `_write_msn`: the registers that it writes, in order. Every caller has a divider of at least 8.
pub msn : ℕ → ℕ → ℕ → ℕ → List (ℕ × ℕ)
msn base div num denom = pack base (p1 div num denom) (p2 div num denom) denom

abbrev pub is_pll_b : ℕ → Bool
is_pll_b channel = channel == 2

abbrev pub pll_base : ℕ → ℕ
pll_base channel = if is_pll_b channel then 34 else 26

abbrev pub ms_base : ℕ → ℕ
ms_base channel = 42 + 8 * channel

-- The writes of `set_frequency` once the divider and the multiplier are known: both blocks, the PLL's
-- reset, and the control register (CLK_INTEGER_MODE, CLK_SRC_MS, CLK_DRIVE_2MA, and the PLL).
pub program : ℕ → ℕ → ℕ → ℕ → List (ℕ × ℕ)
program channel mult num ms_div =
    msn (pll_base channel) mult num max_denom
    ++ msn (ms_base channel) ms_div 0 1
    ++ (177, if is_pll_b channel then 0x80 else 0x20)
      ∷ (16 + channel, if is_pll_b channel then 0x6C else 0x4C)
      ∷ []

-- What `set_frequency` returns: the frequency as the fraction
-- XTAL_FREQ * (mult_int * denom + num) / (denom * ms_div).
pub actual_freq : ℕ → ℕ → ℕ → ℕ × ℕ
actual_freq mult num ms_div = (xtal_freq * (mult * max_denom + num), max_denom * ms_div)

tuned : ℕ → ℕ × ℕ → Chip × Result {0} Unit → Chip × Result (ℕ × ℕ)
tuned channel freq (c, ok _) =
    (record c { ch_freqs = λ k. if k == channel then some freq else c.ch_freqs k }, ok freq)
tuned channel freq (c, raised e) = (c, raised e)

synthesise : (ℕ → Bool) → ℕ → ℕ → Result ℕ → Chip → Chip × Result (ℕ × ℕ)
unfolding tuned
synthesise acks channel freq (raised e) c = (c, raised e)
synthesise acks channel freq (ok ms_div) c =
    let (mult, num) = multiplier (freq * ms_div) in
    tuned channel (actual_freq mult num ms_div) (write_all acks (program channel mult num ms_div) c)

pub set_frequency : (ℕ → Bool) → ℕ → ℕ → Chip → Chip × Result (ℕ × ℕ)
unfolding synthesise
set_frequency acks channel freq c =
    if not (ltb channel 3)
    then (c, raised bad_channel)
    else if not (in_range freq)
    then (c, raised out_of_range)
    else synthesise acks channel freq (choose_div freq) c

abbrev pub bit : ℕ → ℕ → ℕ
bit n k = n / 2 ^ k % 2

-- The value that `output_enable` writes: a 0 in the channel's bit lets its output through.
pub gate : ℕ → Bool → ℕ → ℕ
gate channel true cur = cur - bit cur channel * 2 ^ channel
gate channel false cur = cur + (1 - bit cur channel) * 2 ^ channel

-- `_read`, which is not tried again
pub read : (ℕ → Bool) → ℕ → Chip → Chip × Result ℕ
read acks reg c = (
  record c { attempts = c.attempts + 1 },
  if acks c.attempts then ok (c.register reg) else raised bus_error,
)

gated : (ℕ → Bool) → ℕ → Bool → Chip × Result ℕ → Chip × Result {0} Unit
gated acks channel enabled (c, ok cur) = write acks 3 (gate channel enabled cur) c
gated acks channel enabled (c, raised e) = (c, raised e)

pub output_enable : (ℕ → Bool) → ℕ → Bool → Chip → Chip × Result {0} Unit
unfolding gated
output_enable acks channel enabled c = gated acks channel enabled (read acks 3 c)

-- The writes of `init`: no output, every channel powered down, and the load of the crystal.
pub init : (ℕ → Bool) → Chip → Chip × Result {0} Unit
init acks c =
    write_all acks
      ((3, 0xFF)
        ∷ (16, 0x80)
        ∷ (17, 0x80)
        ∷ (18, 0x80)
        ∷ (19, 0x80)
        ∷ (20, 0x80)
        ∷ (21, 0x80)
        ∷ (22, 0x80)
        ∷ (23, 0x80)
        ∷ (183, 0xD2)
        ∷ [])
      c

-- The writes of `close`; what follows them closes the bus.
pub close : (ℕ → Bool) → Chip → Chip × Result {0} Unit
close acks c = write_all acks ((3, 0xFF) ∷ (16, 0x80) ∷ (17, 0x80) ∷ (18, 0x80) ∷ []) c

pub frequency : ℕ → Chip → ℕ × ℕ
frequency channel c = elim (c.ch_freqs channel) [ none ↦ (0, 1) | some f ↦ f ]
