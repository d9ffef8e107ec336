-- ===== src/Rf/Generator.antt =====
-- pi/signal_generator.py: the facade over the two carriers, the keyer and the attenuator. What a
-- driver answers to a request for a frequency is a parameter, and so is whether the I2C bus fails in its other
-- calls; the registers of the GPCLK are memory, which does not fail. `line`
-- says which output carries a signal that is let through. A Morse keyer's thread is only on or off.
pub mod Carrier
pub mod Invariant
mod Examples
use embedded_ai_harness.Prelude.{
  ℕ, ◌+◌, String, Bool, true, false, not, ◌&&◌, ◌||◌, Option, none, some, List, [], ◌∷◌, leb,
  if◌then◌else◌, ◌==◌, str_eq,
}
use embedded_ai_harness.Prelude.Int.{ℤ}
use embedded_ai_harness.Rf.Attenuator.{
  Attenuator, Outcome, attenuation, not_initialized, out_of_range, set_db,
}
use embedded_ai_harness.Rf.Clock.{clk_offsets}

pub data Kind : Type 0 where
  gpclk : Kind
  si5351 : Kind

-- A backend object: its pin or its channel, and its `_freq`.
pub record Backend : Type 0 where
  pub kind : Kind
  pub target : ℕ
  pub freq : ℕ

pub record Morse : Type 0 where
  pub message : String
  pub wpm : ℕ
  pub repeat : Bool

-- `_state`
pub record State : Type 0 where
  pub active : Bool
  pub backend : Option Kind
  pub freq_hz : ℕ
  pub channel : Option ℕ
  pub pin : Option ℕ
  pub atten_db : Option ℕ
  pub morse : Option Morse

abbrev pub Line : Type 0
Line = Kind → ℕ → Bool

pub record Generator : Type 0 where
  pub backend : Option Backend
  -- the keyer, and whether its thread is alive
  pub keyer : Option Bool
  pub attenuator : Option Attenuator
  pub state : State
  pub line : Line

-- The calls that put something on the I2C bus for an Si5351, besides the tuning.
pub data Call : Type 0 where
  keyer_stops stops closes inits keys : Call

pub record Env : Type 0 where
  -- which of these calls succeed in this operation
  pub bus : Call → Bool
  -- `_hardware` and the sections of the configuration
  pub has_si5351 : Bool
  pub default_pin : ℕ
  pub default_channel : ℕ
  -- the frequency that a driver returns for its pin or channel; none where it raises
  pub tune : Kind → ℕ → ℕ → Option ℕ
  -- `str.strip`
  pub strip : String → String

pub data Fault : Type 0 where
  no_si5351 : Fault
  unknown_backend : String → Fault
  no_clock : ℕ → Fault
  not_tunable : Fault
  no_attenuator : Fault
  bad_attenuation : Fault
  empty_message : Fault
  bad_wpm : Fault
  no_carrier : Fault
  bus_failed : Fault

pub data Answer {ℓ} (A : Type ℓ) : Type ℓ where
  ok : A → Answer A
  raised : Fault → Answer A

pub record Request : Type 0 where
  pub freq_hz : ℕ
  pub backend : String
  pub channel : Option ℕ
  pub pin : Option ℕ
  pub atten_db : Option ℤ
  pub morse : Option Morse

abbrev pub is_same : Kind → Kind → Bool
is_same gpclk gpclk = true
is_same gpclk si5351 = false
is_same si5351 gpclk = false
is_same si5351 si5351 = true

-- `key_on` and `key_off` of a backend
pub set_line : Kind → ℕ → Bool → Line → Line
set_line k t v line = λ k' t'. if is_same k k' && (t == t') then v else line k' t'

-- Every output of the Si5351 disabled, as by its `init` and its `close`.
pub mute_si5351 : Line → Line
mute_si5351 line gpclk t = line gpclk t
mute_si5351 line si5351 t = false

abbrev pub on_bus : Env → Kind → Call → Bool
on_bus env gpclk c = true
on_bus env si5351 c = env.bus c

-- `try: …, except Exception: pass`
abbrev pub tried : Bool → Line → Line → Line
tried succeeds after before = if succeeds then after else before

-- `_close_backend`: `stop` and `close`, either of which may fail.
pub close_backend : Env → Backend → Line → Line
close_backend env b line = elim b.kind [
  | gpclk ↦ set_line gpclk b.target false line
  | si5351 ↦
      let stopped = tried (env.bus stops) (set_line si5351 b.target false line) line in
      tried (env.bus closes) (mute_si5351 stopped) stopped
]

-- `self._keyer.stop()`, whose keyer is the backend
pub stop_keyer : Env → Option Bool → Option Backend → Line → Line
stop_keyer env none b line = line
stop_keyer env (some alive) none line = line
stop_keyer env (some alive) (some b) line =
    tried (on_bus env b.kind keyer_stops) (set_line b.kind b.target false line) line

pub close_current : Env → Option Backend → Line → Line
close_current env none line = line
close_current env (some b) line = close_backend env b line

-- The backend is forgotten, whether its calls succeed or not.
pub stop_locked : Env → Generator → Generator
unfolding stop_keyer close_current
stop_locked env g = record g {
  keyer = none;
  backend = none;
  line = close_current env g.backend (stop_keyer env g.keyer g.backend g.line);
  state = record g.state {
    active = false;
    backend = none;
    freq_hz = 0;
    channel = none;
    pin = none;
    morse = none;
  };
}

pub stop : Env → Generator → Generator × Answer State
stop env g = let g' = stop_locked env g in (g', ok g'.state)

pub choose_backend : Env → String → Answer Kind
choose_backend env requested =
    if str_eq requested "auto"
    then ok (if env.has_si5351 then si5351 else gpclk)
    else if str_eq requested "si5351" && not env.has_si5351
    then raised no_si5351
    else if str_eq requested "gpclk"
    then ok gpclk
    else if str_eq requested "si5351"
    then ok si5351
    else raised (unknown_backend requested)

abbrev or_else : Option ℕ → ℕ → ℕ
or_else none d = d
or_else (some n) d = n

abbrev is_clock : Option (ℕ × ℕ) → Bool
is_clock none = false
is_clock (some offsets) = true

pub make_backend : Env → Kind → Option ℕ → Option ℕ → Answer Backend
make_backend env gpclk pin channel =
    let p = or_else pin env.default_pin in
    if is_clock (clk_offsets p)
    then ok (record { kind = gpclk; target = p; freq = 0 })
    else raised (no_clock p)
make_backend env si5351 pin channel =
    ok (record { kind = si5351; target = or_else channel env.default_channel; freq = 0 })

-- Both drivers leave the output off once they are tuned.
pub tuned_to : Backend → Line → Option ℕ → Line × Option Backend
tuned_to b line none = (line, none)
tuned_to b line (some actual) =
    (set_line b.kind b.target false line, some (record b { freq = actual }))

pub tune_backend : Env → Backend → ℕ → Line → Line × Option Backend
tune_backend env b freq line = tuned_to b line (env.tune b.kind b.target freq)

-- What the part of `start` that chose the backend knows: `channel=channel or 0` for the Si5351.
pub retarget : Option ℕ → Backend → Backend
retarget channel b = elim b.kind [ gpclk ↦ b | si5351 ↦ record b { target = or_else channel 0 } ]

pub attenuated : Generator → Attenuator × Outcome → Generator × Answer {0} Unit
attenuated g (a, attenuation n) = (record g { attenuator = some a }, ok tt)
attenuated g (a, not_initialized) = (g, raised bad_attenuation)
attenuated g (a, out_of_range) = (g, raised bad_attenuation)

-- `_set_atten_locked`
pub attenuate : ℤ → Option Attenuator → Generator → Generator × Answer {0} Unit
unfolding attenuated
attenuate db none g = (g, raised no_attenuator)
attenuate db (some a) g = let (a', _, outcome) = set_db a db in attenuated g (a', outcome)

pub set_atten : ℤ → Generator → Generator × Answer {0} Unit
set_atten db g = attenuate db g.attenuator g

abbrev current_db : Option Attenuator → Option ℕ
current_db none = none
current_db (some a) = some a.current

pub start_atten : Option ℤ → Generator → Generator × Answer {0} Unit
start_atten none g = (g, ok tt)
start_atten (some db) g = set_atten db g

-- `MorseKeyer(backend).start(...)`, or `key_on` where no message is to be sent
pub start_keyer : Env → Backend → Option Morse → Generator → Generator × Answer {0} Unit
start_keyer env b none g =
    if on_bus env b.kind keys
    then (
      record g {
        line = set_line b.kind b.target true g.line;
        state = record g.state { morse = none };
      },
      ok tt,
    )
    else (g, raised bus_failed)
start_keyer env b (some m) g =
    if str_eq m.message "" || str_eq (env.strip m.message) ""
    then (g, raised empty_message)
    else if not (leb 1 m.wpm && leb m.wpm 60)
    then (g, raised bad_wpm)
    else (
      record g {
        keyer = some true;
        line = set_line b.kind b.target false g.line;
        state = record g.state { morse = some (record m { message = env.strip m.message }) };
      },
      ok tt,
    )

-- a Morse message is asked for
abbrev pub is_set : Option Morse → Bool
is_set none = false
is_set (some m) = true

abbrev channel_of : Backend → Option ℕ
channel_of b = elim b.kind [ gpclk ↦ none | si5351 ↦ some b.target ]

abbrev pin_of : Backend → Option ℕ
pin_of b = elim b.kind [ gpclk ↦ some b.target | si5351 ↦ none ]

pub report : Backend → Generator × Answer {0} Unit → Generator × Answer State
report b (g, raised e) = (g, raised e)
report b (g, ok _) =
    let s : State = record g.state {
      active = true;
      backend = some b.kind;
      freq_hz = b.freq;
      channel = channel_of b;
      pin = pin_of b;
      atten_db = current_db g.attenuator;
    } in
    (record g { state = s }, ok s)

pub after_atten :
    Env → Backend → Option Morse → Generator × Answer {0} Unit → Generator × Answer State
unfolding report
after_atten env b m (g, raised e) = (g, raised e)
after_atten env b m (g, ok _) = report b (start_keyer env b m g)

pub tuned : Env → Request → Backend → Generator → Line × Option Backend → Generator × Answer State
unfolding after_atten
tuned env r made g (line, none) =
    (record g { line = close_backend env made line }, raised not_tunable)
tuned env r made g (line, some b) =
    after_atten env b r.morse (start_atten r.atten_db (record g { line = line; backend = some b }))

-- The constructor of an Si5351 backend runs the device's `init`.
pub made_line : Kind → Line → Line
made_line gpclk line = line
made_line si5351 line = mute_si5351 line

pub made : Env → Request → Generator → Answer Backend → Generator × Answer State
unfolding tuned
made env r g (raised e) = (g, raised e)
made env r g (ok b) =
    if on_bus env b.kind inits
    then (let b' = retarget r.channel b in
        tuned env r b' g (tune_backend env b' r.freq_hz (made_line b.kind g.line)))
    else (g, raised bus_failed)

pub chosen : Env → Request → Generator → Answer Kind → Generator × Answer State
unfolding made
chosen env r g (raised e) = (g, raised e)
chosen env r g (ok k) = made env r g (make_backend env k r.pin r.channel)

pub start : Env → Request → Generator → Generator × Answer State
unfolding chosen
start env r g = chosen env r (stop_locked env g) (choose_backend env r.backend)

-- `self._keyer and self._keyer.is_active()`
abbrev is_keying : Option Bool → Bool
is_keying none = false
is_keying (some alive) = alive

-- `set_frequency` keys the output again, for a GPCLK that no keyer is keying.
pub rekeyed : Backend → Option Bool → Line → Line
rekeyed b keyer line = elim b.kind [
  | gpclk ↦ if is_keying keyer then line else set_line gpclk b.target true line
  | si5351 ↦ line
]

pub retuned : Backend → Generator → Line × Option Backend → Generator × Answer State
retuned old g (line, none) = (record g { line = line; backend = some old }, raised not_tunable)
retuned old g (line, some b) =
    let s : State = record g.state { freq_hz = b.freq } in
    (record g { line = rekeyed b g.keyer line; backend = some b; state = s }, ok s)

-- A new channel for the Si5351, which the backend keeps.
pub rechannel : Option ℕ → Backend → Backend
rechannel channel b = elim b.kind [
  | gpclk ↦ b
  | si5351 ↦ record b { target = or_else channel b.target }
]

pub retune : Env → ℕ → Option ℕ → Generator → Option Backend → Generator × Answer State
unfolding retuned
retune env freq channel g none = (g, raised no_carrier)
retune env freq channel g (some b) =
    let b' = rechannel channel b in retuned b' g (tune_backend env b' freq g.line)

pub set_frequency : Env → ℕ → Option ℕ → Generator → Generator × Answer State
unfolding retune
set_frequency env freq channel g = retune env freq channel g g.backend

pub attenuation_set : Generator × Answer {0} Unit → Generator × Answer State
attenuation_set (g, raised e) = (g, raised e)
attenuation_set (g, ok _) =
    let s : State = record g.state { atten_db = current_db g.attenuator } in
    (record g { state = s }, ok s)

pub set_attenuation : ℤ → Generator → Generator × Answer State
unfolding attenuation_set
set_attenuation db g = attenuation_set (set_atten db g)

-- What can happen to a generator; the last is the end of a message that is not repeated.
pub data Operation : Type 0 where
  starting : Request → Operation
  stopping : Operation
  retuning : ℕ → Option ℕ → Operation
  attenuating : ℤ → Operation
  keyer_done : Operation

-- the thread has ended
abbrev silenced : Option Bool → Option Bool
silenced none = none
silenced (some alive) = some false

pub step : Env → Operation → Generator → Generator
unfolding start stop set_frequency set_attenuation
step env (starting r) g = (start env r g).0
step env stopping g = (stop env g).0
step env (retuning freq channel) g = (set_frequency env freq channel g).0
step env (attenuating db) g = (set_attenuation db g).0
step env keyer_done g = record g { keyer = silenced g.keyer }

-- The attenuator's pins are released, and it is gone.
pub shutdown : Env → Generator → Generator
unfolding stop_locked
shutdown env g = record (stop_locked env g) { attenuator = none }

abbrev is_present : Option Attenuator → Bool
is_present none = false
is_present (some a) = true

-- `hardware_status`: the Si5351, the GPCLK and the PE4302
pub hardware_status : Env → Generator → Bool × Bool × Bool
hardware_status env g = (env.has_si5351, true, is_present g.attenuator)

pub available_backends : Env → List Kind
available_backends env = if env.has_si5351 then si5351 ∷ gpclk ∷ [] else gpclk ∷ []

pub status : Env → Generator → State × (Bool × Bool × Bool)
status env g = (g.state, hardware_status env g)
