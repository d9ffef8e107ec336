-- ===== src/Rf/Attenuator/Latch.antt =====
-- pi/pe4302.py: what the part makes of the driver's writes, as the module's first lines say it: it
-- shifts a bit in on a rising edge of the clock while LE is low, and latches when LE rises.
use embedded_ai_harness.Prelude.{
  ℕ, ◌+◌, ◌*◌, ◌/◌, ◌%◌, ◌^◌, ◌≤◌, ◌<◌, ◌≡◌, ◌≢◌, refl, sym, ◌∙◌, Bool, true, false, ◌&&◌, List, [],
  ◌∷◌, ◌++◌, arith, if◌then◌else◌, ◌==◌, round_div,
}
use embedded_ai_harness.Prelude.Int.{ℤ, pos}
use embedded_ai_harness.Rf.Attenuator.{
  Attenuator, Action, set_output, set_input, drive, shift_bit, shift_bits, shift_out, set_db,
  code_of, in_range, attenuation, not_initialized, out_of_range,
}

pub record Part : Type 0 where
  pub bit_in : ℕ
  pub clk : ℕ
  pub le : ℕ
  pub shifted : ℕ
  pub latched : ℕ

rising : ℕ → ℕ → Bool
rising old new = (old == 0) && (new == 1)

-- The part's answer to a level on one of its pins.
pub sense : Attenuator → Action → Part → Part
unfolding rising
sense p (set_output pin) s = s
sense p (set_input pin) s = s
sense p (drive pin level) s =
    if pin == p.data_pin
    then record s { bit_in = level }
    else if pin == p.clk_pin
    then record s {
      clk = level;
      shifted =
          if rising s.clk level && (s.le == 0) then (2 * s.shifted + s.bit_in) % 64 else s.shifted;
    }
    else if pin == p.le_pin
    then record s { le = level; latched = if rising s.le level then s.shifted else s.latched }
    else s

pub sense_all : Attenuator → List Action → Part → Part
sense_all p [] s = s
sense_all p (a ∷ rest) s = sense_all p rest (sense p a s)

-- The three pins are three.
abbrev pub IsWired : Attenuator → Type 0
IsWired p = (p.data_pin ≢ p.clk_pin) × (p.data_pin ≢ p.le_pin) × (p.clk_pin ≢ p.le_pin)

sense_all-append :
    (p : Attenuator) (xs ys : List Action) (s : Part)
    → sense_all p (xs ++ ys) s ≡ sense_all p ys (sense_all p xs s)
unfolding sense_all
sense_all-append p [] ys s = refl
sense_all-append p (x ∷ xs) ys s = sense_all-append p xs ys (sense p x s)

sense-shift_bit :
    (p : Attenuator) (code i : ℕ) (s : Part)
    → IsWired p
    → s.le ≡ 0
    → let s' = sense_all p (shift_bit p code i) s in
      (s'.le ≡ 0)
      × (s'.clk ≡ 1)
      × (s'.latched ≡ s.latched)
      × (s'.shifted ≡ (2 * s.shifted + code / 2 ^ i % 2) % 64)
unfolding sense_all sense shift_bit
sense-shift_bit p code i s (a, b, c) h = ground arith

-- The shift register after the bits of `code` at the places listed.
shifted_in : ℕ → List ℕ → ℕ → ℕ
shifted_in code [] x = x
shifted_in code (i ∷ rest) x = shifted_in code rest ((2 * x + code / 2 ^ i % 2) % 64)

shifted_in_lem : (code x : ℕ) → code < 64 → shifted_in code (5 ∷ 4 ∷ 3 ∷ 2 ∷ 1 ∷ 0 ∷ []) x ≡ code
unfolding shifted_in
shifted_in_lem code x h = omega arith

sense-shift_bits :
    (p : Attenuator) (code : ℕ) (places : List ℕ) (s : Part)
    → IsWired p
    → s.le ≡ 0
    → let s' = sense_all p (shift_bits p code places) s in
      (s'.le ≡ 0) × (s'.shifted ≡ shifted_in code places s.shifted)
unfolding shift_bits sense_all shifted_in
sense-shift_bits p code [] s w h = ground arith
sense-shift_bits p code (i ∷ rest) s w h =
    let s' = sense_all p (shift_bit p code i) s in
    let (le, _, _, bit) = sense-shift_bit p code i s w h in
    rw (sense_all-append p (shift_bit p code i) (shift_bits p code rest) s, sym bit)
      (sense-shift_bits p code rest s' w le)

sense-le : (p : Attenuator) (s : Part) → IsWired p → (sense p (drive p.le_pin 0) s).le ≡ 0
unfolding sense
sense-le p s w = ground arith

sense-pulse :
    (p : Attenuator) (s : Part)
    → IsWired p
    → s.le ≡ 0
    → let s' = sense_all p (drive p.clk_pin 0 ∷ drive p.le_pin 1 ∷ drive p.le_pin 0 ∷ []) s in
      (s'.latched ≡ s.shifted) × (s'.le ≡ 0)
unfolding sense sense_all
sense-pulse p s w h = ground arith

-- Whatever the part held and whatever levels its lines had, the writes of `_shift_out` latch the code
-- and leave LE low, where the three pins are different ones.
pub sense-shift_out :
    (p : Attenuator) (code : ℕ) (s : Part)
    → IsWired p
    → code < 64
    → ((sense_all p (shift_out p code) s).latched ≡ code)
      × ((sense_all p (shift_out p code) s).le ≡ 0)
unfolding shift_out sense_all
sense-shift_out p code s w small =
    let places : List ℕ = 5 ∷ 4 ∷ 3 ∷ 2 ∷ 1 ∷ 0 ∷ [] in
    let s0 = sense p (drive p.le_pin 0) s in
    let (le, shifted) = sense-shift_bits p code places s0 w (sense-le p s w) in
    let (latched, low) = sense-pulse p (sense_all p (shift_bits p code places) s0) w le in
    let tail : List Action = drive p.clk_pin 0 ∷ drive p.le_pin 1 ∷ drive p.le_pin 0 ∷ [] in
    rw (shift_out, sense_all, sense_all-append p (shift_bits p code places) tail s0)
      (latched ∙ shifted ∙ shifted_in_lem code s0.shifted small, low)

code_of_bounds :
    (n : ℕ)
    → n ≤ 31_500
    → (code_of (pos n) < 64)
      × (2 * (code_of (pos n) * 500) ≤ 2 * n + 500)
      × (2 * n ≤ 2 * (code_of (pos n) * 500) + 500)
unfolding code_of round_div
code_of_bounds n h = ground arith

-- A request from 0 to 31.5 dB on an initialized driver latches, in the part, a code whose half decibels
-- are what the call returns and what the driver remembers, at most a quarter of a decibel from the request.
pub set_db_lem :
    (p : Attenuator) (n : ℕ) (s : Part)
    → IsWired p
    → p.initialized ≡ true
    → n ≤ 31_500
    → let (p', writes, outcome) = set_db p (pos n) in
      let latched = (sense_all p writes s).latched in
      (outcome ≡ attenuation (latched * 500))
      × (p'.current ≡ latched * 500)
      × (2 * (latched * 500) ≤ 2 * n + 500)
      × (2 * n ≤ 2 * (latched * 500) + 500)
unfolding set_db in_range
set_db_lem p n s w on h =
    let (small, over, under) = code_of_bounds n h in
    ground (arith, sense-shift_out p (code_of (pos n)) s w small)

-- An attenuation that is negative or more than 31.5 dB is refused, and so is any request before `init`
-- or after `close`; no pin moves and the driver keeps its state.
pub set_db-refused :
    (p : Attenuator) (db : ℤ)
    → (p.initialized && in_range db) ≡ false
    → set_db p db ≡ (p, [], if p.initialized then out_of_range else not_initialized)
unfolding set_db
set_db-refused p db h = ground arith
