-- ===== src/Sdr/Acquire.antt =====
-- pi/sdr_controller.py: `acquire`, phase by phase. What the dongle receives in each window is a parameter: the
-- levels that `power` returns at each poll, what the analyzer's text says at each gain, and the packets of each
-- decoding window. A gain is in tenths of a decibel and a level in hundredths. The prompts are left out.
pub mod Lowest
pub mod Gains
use embedded_ai_harness.Prelude.{
  ℕ, zero, suc, ◌+◌, ◌-◌, ◌/◌, max, String, Bool, true, false, not, ◌&&◌, ◌||◌, Option, none, some,
  List, [], ◌∷◌, if◌then◌else◌, ltb, leb, keep, map, str_eq,
}
use embedded_ai_harness.Prelude.Int.{ℤ, pos, ltb_ℤ, minus}
use embedded_ai_harness.Sdr.Codewords.{Packet, Counts, dominant_codewords}

-- What `power` returns, in the part that `acquire` reads: the peak less the mean, and the peak's
-- frequency, where there are bins.
pub record Poll : Type 0 where
  pub margin : ℤ
  pub peak_freq_hz : ℕ

-- What `_pulse_stats` and `_suggested_flex` read in the analyzer's text.
pub record Analysis : Type 0 where
  pub pulse_bins : ℕ
  -- never the empty text
  pub suggested : Option String
  pub fsk_dominated : Bool

pub record Air : Type 0 where
  -- the poll of this number
  pub poll : ℕ → Option Poll
  -- at a carrier and a gain
  pub analyze : ℕ → ℕ → Analysis
  -- the window of this number, at a carrier, with a flex decoder, at a gain
  pub window : ℕ → ℕ → Option String → ℕ → List Packet
  -- the models that the built-in decoders name, at a carrier and a gain
  pub builtin : ℕ → ℕ → List String

pub record Sample : Type 0 where
  pub gain : ℕ
  pub detected : Bool
  pub clean_ook : Bool
  pub fsk_dominated : Bool

pub record Level : Type 0 where
  pub chosen_gain : ℕ
  pub used_flex : Option String
  -- the warning that higher gains saturate
  pub edge : Bool

pub data Outcome : Type 0 where
  locate_failed : Outcome
  level_nosignal : Outcome
  too_strong : Outcome
  decode_failed : ℕ → Level → Outcome
  complete : ℕ → Level → Counts → List String → Outcome

or_else : ℕ → ℕ → ℕ
or_else zero d = d
or_else (suc n) d = suc n

-- The carrier of a poll, if its peak is clear of the noise.
pub carrier_of : ℕ → Option Poll → Option ℕ
unfolding or_else
carrier_of freq none = none
carrier_of freq (some p) =
    if ltb_ℤ p.margin (pos 600) then none else some (or_else p.peak_freq_hz freq)

first_of : Option ℕ → Option ℕ → Option ℕ
first_of none rest = rest
first_of (some c) rest = some c

-- The polls from the i-th on, so many of them.
pub locate : Air → ℕ → ℕ → ℕ → Option ℕ
unfolding carrier_of first_of
locate air freq i zero = none
locate air freq i (suc k) = first_of (carrier_of freq (air.poll i)) (locate air freq (i + 1) k)

-- `max(1, wait_s // 2)`
pub polls_in : ℕ → ℕ
polls_in wait_s = max 1 (wait_s / 2)

has_text : Option String → Bool
has_text none = false
has_text (some s) = true

pub sample : Air → ℕ → ℕ → Sample
unfolding has_text
sample air carrier gain =
    let a = air.analyze carrier gain in
    record {
      gain = gain;
      detected = ltb 0 a.pulse_bins;
      clean_ook = has_text a.suggested;
      fsk_dominated = a.fsk_dominated;
    }

-- A flex decoder that is there and not the empty text.
pub is_given : Option String → Bool
is_given none = false
is_given (some s) = not (str_eq s "")

pub is_clean : Option String → Sample → Bool
unfolding is_given
is_clean flex s = s.detected && (s.clean_ook || (is_given flex && not s.fsk_dominated))

pub is_detected : Sample → Bool
is_detected s = s.detected

-- `min(clean, key = gain)`, the first of the lowest, where `s` is the first of the list.
pub lowest : Sample → List Sample → Sample
lowest s [] = s
lowest s (t ∷ ts) = lowest (if ltb t.gain s.gain then t else s) ts

pub any_above : ℕ → List Sample → Bool
any_above gain [] = false
any_above gain (s ∷ ss) = (s.fsk_dominated && ltb gain s.gain) || any_above gain ss

either_flex : Option String → Option String → Option String
unfolding is_given
either_flex flex suggested = if is_given flex then flex else suggested

until : Counts → Counts → Counts
until [] rest = rest
until (w ∷ ws) rest = w ∷ ws

-- The windows from the i-th on until one has codewords, so many of them.
pub decode : Air → ℕ → ℕ → Option String → ℕ → ℕ → Counts
unfolding until
decode air carrier gain flex i zero = []
decode air carrier gain flex i (suc k) =
    until (dominant_codewords (air.window i carrier flex gain))
      (decode air carrier gain flex (i + 1) k)

classified : Air → ℕ → Level → Counts → Outcome
classified air carrier l [] = decode_failed carrier l
classified air carrier l (w ∷ ws) = complete carrier l (w ∷ ws) (air.builtin carrier l.chosen_gain)

-- The decoding and the classification, with the gain that the level phase has chosen.
pub decoded : Air → ℕ → Level → Outcome
unfolding decode classified
decoded air carrier l = classified air carrier l (decode air carrier l.chosen_gain l.used_flex 0 3)

pub choose : Air → Option String → ℕ → List Sample → List Sample → Outcome
unfolding lowest any_above either_flex decoded
choose air flex carrier sweep [] = too_strong
choose air flex carrier sweep (s ∷ ss) =
    let gain = (lowest s ss).gain in
    decoded air carrier (record {
      chosen_gain = gain;
      used_flex = either_flex flex (air.analyze carrier gain).suggested;
      edge = any_above gain sweep;
    })

pub level : Air → Option String → ℕ → List Sample → List Sample → Outcome
unfolding choose is_clean
level air flex carrier sweep [] = level_nosignal
level air flex carrier sweep (s ∷ ss) =
    choose air flex carrier sweep (keep (is_clean flex) (s ∷ ss))

pub located : Air → Option String → List ℕ → Option ℕ → Outcome
unfolding level sample is_detected
located air flex gains none = locate_failed
located air flex gains (some carrier) =
    let sweep = map (sample air carrier) gains in
    level air flex carrier sweep (keep is_detected sweep)

-- `_GAIN_STEPS`
abbrev gain_steps : List ℕ
gain_steps = 9 ∷ 87 ∷ 166 ∷ 254 ∷ 338 ∷ 402 ∷ 496 ∷ []

pub gains_of : Option (List ℕ) → List ℕ
gains_of none = gain_steps
gains_of (some gains) = gains

-- `acquire`
pub acquire : Air → ℕ → ℕ → Option (List ℕ) → Option String → Outcome
unfolding locate polls_in located gains_of
acquire air freq_hz wait_s gains flex =
    located air flex (gains_of gains) (locate air freq_hz 1 (polls_in wait_s))
