-- ===== src/Rf/Generator/Examples.antt =====
-- pi/signal_generator.py: a generator with an Si5351 on channel 0 and a GPCLK on GPIO 5.
use embedded_ai_harness.Prelude.{◌≡◌, true, false, none, some, refl, if◌then◌else◌, ◌==◌}
use embedded_ai_harness.Rf.Generator.{
  si5351, Generator, Env, Request, start, stop, step, starting, retuning, stop_locked, stop_keyer,
  close_current, close_backend,
}
use embedded_ai_harness.Rf.Generator.Carrier.{IsCovered, IsSilent, IsStarted, start-IsStarted}
use embedded_ai_harness.Rf.Generator.Invariant.{at_start, after, Reach-IsSilent}

abbrev bench : Env
bench = record {
  bus = λ c. true;
  has_si5351 = true;
  default_pin = 5;
  default_channel = 2;
  tune = λ k t freq. if freq == 0 then none else some freq;
  strip = λ s. s;
}

abbrev fresh : Generator
fresh = record {
  backend = none;
  keyer = none;
  attenuator = none;
  state = record {
    active = false;
    backend = none;
    freq_hz = 0;
    channel = none;
    pin = none;
    atten_db = none;
    morse = none;
  };
  line = λ k t. false;
}

abbrev beacon : Request
beacon = record {
  freq_hz = 7_030_000;
  backend = "auto";
  channel = none;
  pin = none;
  atten_db = none;
  morse = none;
}

-- A generator that has started the beacon's carrier on the Si5351.
abbrev carrying : Generator
carrying = record fresh {
  backend = some (record { kind = si5351; target = 0; freq = 7_030_000 });
  line = λ k t. true;
}

start-IsStarted_example : IsStarted none (start bench beacon fresh)
start-IsStarted_example = start-IsStarted bench beacon fresh refl (λ k t e. e)

Reach-IsSilent_example :
    let g = step bench (retuning 7_040_000 (some 1)) (step bench (starting beacon) fresh) in
    IsCovered g × IsSilent (stop bench g).0.line
Reach-IsSilent_example = Reach-IsSilent bench refl (
    after bench (retuning 7_040_000 (some 1)) refl
      (after bench (starting beacon) refl (at_start (λ k t. refl))))

-- A stop while the bus fails: the generator reports that it is off, and the output still carries the signal.
abbrev dead_bus : Env
dead_bus = record bench { bus = λ c. false }

carrier_left_on :
    let g = (stop dead_bus carrying).0 in
    (g.state.active ≡ false) × (g.backend ≡ none) × (g.line si5351 0 ≡ true)
unfolding stop stop_locked stop_keyer close_current close_backend
carrier_left_on = (refl, refl, refl)
