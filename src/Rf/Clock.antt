-- ===== src/Rf/Clock.antt =====
-- pi/gpclk.py: the GPCLK driver, as the words that it writes to the clock block and the modes that it
-- gives its pin. The busy flag of the clock is a parameter. The quotients of floats are exact
-- fractions here. Waits are left out.
pub mod Divisors
pub mod Start
mod Examples
use embedded_ai_harness.Prelude.{
  ℕ, zero, suc, ◌+◌, ◌-◌, ◌*◌, ◌/◌, ◌%◌, min, max, Bool, true, false, not, ◌&&◌, ◌||◌, Option, none,
  some, List, [], ◌∷◌, ◌++◌, leb, if◌then◌else◌, ◌==◌, round_div,
}

-- CLK_OFFSETS: the control and the divider register of a pin
pub clk_offsets : ℕ → Option (ℕ × ℕ)
clk_offsets pin =
    if pin == 5 then some (0x78, 0x7C) else if pin == 6 then some (0x80, 0x84) else none

abbrev pub clk_passwd : ℕ
clk_passwd = 0x5A000000

abbrev pub plld_freq : ℕ
plld_freq = 500_000_000

abbrev pub div_min : ℕ
div_min = 2

abbrev pub div_max : ℕ
div_max = 4095

pub record Clock : Type 0 where
  pub pin : ℕ
  pub ctl : ℕ
  pub div : ℕ
  pub running : Bool
  pub divider : ℕ

pub data Action : Type 0 where
  clk_write : ℕ → ℕ → Action
  clk_read : ℕ → Action
  set_alt0 : ℕ → Action
  set_input : ℕ → Action

pub data Outcome : Type 0 where
  -- the frequency, as PLLD_FREQ over the divider
  started : ℕ → Outcome
  out_of_range : Outcome
  zero_division : Outcome

-- `GpClk(pin)`; `none` is the ValueError
pub make_clock : ℕ → Option Clock
make_clock pin = elim (clk_offsets pin) [
  | none ↦ none
  | some (ctl, div) ↦
      some (record { pin = pin; ctl = ctl; div = div; running = false; divider = 0 })
]

-- The loop that waits for the clock to fall still: `busy` tells what each read finds, and the first
-- argument how many reads are left.
pub await_idle : ℕ → (ℕ → Bool) → Clock → List Action
await_idle zero busy c = []
await_idle (suc n) busy c =
    let rest = await_idle n busy c in clk_read c.ctl ∷ (if busy n then rest else [])

-- `CLK_PASSWD | CLK_KILL`, and the wait
pub stop_clock_hw : (ℕ → Bool) → Clock → List Action
stop_clock_hw busy c = clk_write c.ctl (clk_passwd + 32) ∷ await_idle 100 busy c

pub key_on : Clock → Action
key_on c = set_alt0 c.pin

pub key_off : Clock → Action
key_off c = set_input c.pin

-- `start`: the words are `CLK_PASSWD | (divider << 12)` and `CLK_PASSWD | CLK_ENAB | CLK_SRC_PLLD`.
pub start : (ℕ → Bool) → ℕ → Clock → Clock × List Action × Outcome
start busy freq c =
    let divider = round_div plld_freq freq in
    if freq == 0
    then (c, [], zero_division)
    else if not (leb div_min divider && leb divider div_max)
    then (c, [], out_of_range)
    else (
      record c { running = true; divider = divider },
      stop_clock_hw busy c
          ++ clk_write c.div (clk_passwd + divider * 4096)
            ∷ clk_write c.ctl (clk_passwd + 16 + 6)
            ∷ key_off c
            ∷ [],
      started divider,
    )

pub stop : (ℕ → Bool) → Clock → Clock × List Action
stop busy c = (record c { running = false; divider = 0 }, key_off c ∷ stop_clock_hw busy c)

-- The dividers from `d` on, as many as the first argument says, whose frequency lies in the range:
-- `low <= PLLD_FREQ / d <= high`.
pub dividers_from : ℕ → ℕ → ℕ → ℕ → List ℕ
dividers_from zero d low high = []
dividers_from (suc n) d low high =
    let rest = dividers_from n (d + 1) low high in
    if leb (low * d) plld_freq && leb plld_freq (high * d) then d ∷ rest else rest

-- `list_frequencies`, for bounds that are not 0: the dividers of its entries
pub list_frequencies : ℕ → ℕ → List ℕ
list_frequencies low high =
    let div_high = max div_min (plld_freq / high) in
    let div_low = min div_max (plld_freq / low + 1) in
    dividers_from (div_low + 1 - div_high) div_high low high

-- `freq_hz`, as a fraction
pub freq_hz : Clock → ℕ × ℕ
freq_hz c = if c.divider == 0 then (0, 1) else (plld_freq, c.divider)
