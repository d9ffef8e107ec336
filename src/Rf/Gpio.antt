-- ===== src/Rf/Gpio.antt =====
-- pi/bcm_gpio.py: the registers of the GPIO block, as numbers by their offset.
use embedded_ai_harness.Prelude.{
  ℕ, ◌+◌, ◌-◌, ◌*◌, ◌/◌, ◌%◌, ◌^◌, Bool, Option, none, some, if◌then◌else◌, ◌==◌,
}

abbrev pub Registers : Type 0
Registers = ℕ → ℕ

-- The field of three bits at a place: `(value >> shift) & 0b111`
pub field : ℕ → ℕ → ℕ
field value shift = value / 2 ^ shift % 8

-- `(val & ~(0b111 << shift)) | (fsel & 0b111) << shift`
pub with_field : ℕ → ℕ → ℕ → ℕ
unfolding field
with_field value shift fsel = value - field value shift * 2 ^ shift + fsel % 8 * 2 ^ shift

pub set_fsel : ℕ → ℕ → Registers → Registers
set_fsel pin fsel r =
    let reg = pin / 10 * 4 in
    let shift = pin % 10 * 3 in λ q. if q == reg then with_field (r reg) shift fsel else r q

pub set_output : ℕ → Registers → Registers
set_output pin r = set_fsel pin 1 r

pub set_input : ℕ → Registers → Registers
set_input pin r = set_fsel pin 0 r

-- `none` is the KeyError.
pub alt_fsel : ℕ → Option ℕ
alt_fsel alt =
    if alt == 0
    then some 4
    else if alt == 1
    then some 5
    else if alt == 2
    then some 6
    else if alt == 3
    then some 7
    else if alt == 4
    then some 3
    else if alt == 5
    then some 2
    else none

pub set_alt : ℕ → ℕ → Registers → Option Registers
set_alt pin alt r = elim (alt_fsel alt) [ none ↦ none | some fsel ↦ some (set_fsel pin fsel r) ]

-- GPSET0 or GPCLR0
pub write : ℕ → Bool → Registers → Registers
write pin value r = let reg = if value then 0x1C else 0x28 in λ q. if q == reg then 2 ^ pin else r q

-- GPLEV0
pub read : ℕ → Registers → ℕ
read pin r = r 0x34 / 2 ^ pin % 2

-- The clock block has its own registers.
pub clk_read : ℕ → Registers → ℕ
clk_read offset r = r offset

pub clk_write : ℕ → ℕ → Registers → Registers
clk_write offset value r = λ q. if q == offset then value else r q
