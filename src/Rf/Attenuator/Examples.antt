-- ===== src/Rf/Attenuator/Examples.antt =====
-- pi/pe4302.py: the attenuator on the pins of the default configuration.
use embedded_ai_harness.Prelude.{◌≡◌, true, arith, refl, round_div}
use embedded_ai_harness.Prelude.Int.{pos}
use embedded_ai_harness.Rf.Attenuator.{Attenuator, shift_out, code_of}
use embedded_ai_harness.Rf.Attenuator.Latch.{Part, IsWired, sense_all, sense-shift_out}

abbrev wired : Attenuator
wired = record { data_pin = 16; clk_pin = 20; le_pin = 21; current = 0; initialized = true }

abbrev part : Part
part = record { bit_in = 1; clk = 1; le = 1; shifted = 42; latched = 63 }

wired-IsWired : IsWired wired
wired-IsWired = (omega arith, omega arith, omega arith)

quarter_rounds_to_even : code_of (pos 250) ≡ 0
unfolding code_of round_div
quarter_rounds_to_even = refl

sense-shift_out_example :
    ((sense_all wired (shift_out wired 37) part).latched ≡ 37)
    × ((sense_all wired (shift_out wired 37) part).le ≡ 0)
sense-shift_out_example = sense-shift_out wired 37 part wired-IsWired (omega arith)
