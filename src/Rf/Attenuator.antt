-- ===== src/Rf/Attenuator.antt =====
-- pi/pe4302.py: the driver of the PE4302 step attenuator, as the levels that it drives on its three
-- pins. Attenuations are thousandths of a decibel; the delays between the writes are left out.
pub mod Latch
mod Examples
use embedded_ai_harness.Prelude.{
  ℕ, ◌+◌, ◌*◌, ◌/◌, ◌%◌, ◌^◌, Bool, true, false, not, ◌&&◌, List, [], ◌∷◌, ◌++◌, leb, if◌then◌else◌,
  ◌==◌, round_div,
}
use embedded_ai_harness.Prelude.Int.{ℤ, pos, negsuc}

abbrev pub step_mdb : ℕ
step_mdb = 500

abbrev pub max_code : ℕ
max_code = 63

-- MAX_DB
abbrev pub max_mdb : ℕ
max_mdb = max_code * step_mdb

pub record Attenuator : Type 0 where
  pub data_pin : ℕ
  pub clk_pin : ℕ
  pub le_pin : ℕ
  pub current : ℕ
  pub initialized : Bool

-- What a call does to the pins: it configures one as an output or an input, or drives its level.
pub data Action : Type 0 where
  set_output : ℕ → Action
  set_input : ℕ → Action
  drive : ℕ → ℕ → Action

pub data Outcome : Type 0 where
  attenuation : ℕ → Outcome
  not_initialized : Outcome
  out_of_range : Outcome

-- One round of the loop, for the bit `i` of the code.
pub shift_bit : Attenuator → ℕ → ℕ → List Action
shift_bit p code i =
    drive p.clk_pin 0 ∷ drive p.data_pin (code / 2 ^ i % 2) ∷ drive p.clk_pin 1 ∷ []

pub shift_bits : Attenuator → ℕ → List ℕ → List Action
shift_bits p code [] = []
shift_bits p code (i ∷ rest) = shift_bit p code i ++ shift_bits p code rest

-- `_shift_out`
pub shift_out : Attenuator → ℕ → List Action
shift_out p code =
    drive p.le_pin 0 ∷ shift_bits p code (5 ∷ 4 ∷ 3 ∷ 2 ∷ 1 ∷ 0 ∷ [])
    ++ drive p.clk_pin 0 ∷ drive p.le_pin 1 ∷ drive p.le_pin 0 ∷ []

pub in_range : ℤ → Bool
in_range (negsuc n) = false
in_range (pos n) = leb n max_mdb

-- `round(db / STEP_DB) & MAX_CODE`, for an attenuation that is in range
pub code_of : ℤ → ℕ
code_of (negsuc n) = 0
code_of (pos n) = round_div n step_mdb % 64

pub set_db : Attenuator → ℤ → Attenuator × List Action × Outcome
set_db p db =
    let code = code_of db in
    if not p.initialized
    then (p, [], not_initialized)
    else if not (in_range db)
    then (p, [], out_of_range)
    else (record p { current = code * step_mdb }, shift_out p code, attenuation (code * step_mdb))

pub init : Attenuator → Attenuator × List Action
unfolding set_db
init p =
    let (p', writes, _) = set_db (record p { initialized = true }) (pos 0) in
    (
      p',
      set_output p.data_pin
          ∷ set_output p.clk_pin
          ∷ set_output p.le_pin
          ∷ drive p.data_pin 0
          ∷ drive p.clk_pin 0
          ∷ drive p.le_pin 0
          ∷ writes,
    )

pub close : Attenuator → Attenuator × List Action
close p = if not p.initialized then (p, []) else (
  record p { initialized = false },
  set_input p.data_pin ∷ set_input p.clk_pin ∷ set_input p.le_pin ∷ [],
)
