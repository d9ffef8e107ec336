-- ===== src/Rf/Clock/Examples.antt =====
-- pi/gpclk.py: the clock at concrete frequencies, with a clock that stays busy for ten reads.
use embedded_ai_harness.Prelude.{ℕ, ◌≡◌, Bool, false, true, refl, round_div, leb}
use embedded_ai_harness.Rf.Clock.{Clock, start, started, out_of_range}
use embedded_ai_harness.Rf.Clock.Start.{Block}

abbrev gpio5 : Clock
gpio5 = record { pin = 5; ctl = 0x78; div = 0x7C; running = false; divider = 0 }

abbrev busy_ten : ℕ → Bool
busy_ten n = leb 90 n

abbrev block : Block
block = record { word = λ r. 0; is_connected = true }

start_7_mhz : (start busy_ten 7_030_000 gpio5).2 ≡ started 71
unfolding start round_div
start_7_mhz = refl

start_low : (start busy_ten 100_000 gpio5).2 ≡ out_of_range
unfolding start round_div
start_low = refl
