-- ===== src/Sdr/Commands.antt =====
-- pi/sdr_controller.py: the command lines of the one-shot captures, and the length of a capture. A gain is its
-- text, and `plain` is `strip` and `lower`; a number's text is never "auto".
use embedded_ai_harness.Prelude.{
  ℕ, String, Option, none, some, List, [], ◌∷◌, ◌++◌, if◌then◌else◌, ltb, ◌==◌, min, str_eq,
}
use embedded_ai_harness.Prelude.Int.{ℤ, pos, negsuc}
use embedded_ai_harness.Slots.Services.{number}

requested : ℕ → Option ℤ → ℤ
requested default none = pos default
requested default (some (pos n)) = if n == 0 then pos default else pos n
requested default (some (negsuc n)) = negsuc n

clamped : ℕ → ℤ → Option ℕ
clamped max (pos n) = if ltb n 1 then none else some (min n max)
clamped max (negsuc n) = none

-- `_clamp_duration`; none where it raises.
pub clamp_duration : ℕ → ℕ → Option ℤ → Option ℕ
unfolding requested clamped
clamp_duration default max duration = clamped max (requested default duration)

-- `_gain_args`
pub gain_args : (String → String) → Option String → List String
gain_args plain none = []
gain_args plain (some gain) =
    if str_eq (plain gain) "auto" then "-g" ∷ "auto" ∷ [] else "-g" ∷ gain ∷ []

protocol_args : List ℕ → List String
protocol_args [] = []
protocol_args (p ∷ ps) = "-R" ∷ number p ∷ protocol_args ps

flex_args : Option String → List String
flex_args none = []
flex_args (some flex) = if str_eq flex "" then [] else "-X" ∷ flex ∷ []

-- The command of `capture`.
pub capture_command :
    (String → String) → String → ℕ → ℕ → ℕ → Option String → List ℕ → Option String → List String
unfolding gain_args protocol_args flex_args
capture_command plain bin freq rate duration gain protocols flex =
    bin
    ∷ "-f"
    ∷ number freq
    ∷ "-s"
    ∷ number rate
    ∷ "-F"
    ∷ "json"
    ∷ "-M"
    ∷ "time:iso"
    ∷ "-M"
    ∷ "level"
    ∷ "-T"
    ∷ number duration
    ∷ (gain_args plain gain ++ (protocol_args protocols ++ flex_args flex))

-- The command of `analyze`.
pub analyze_command : (String → String) → String → ℕ → ℕ → Option String → List String
unfolding gain_args
analyze_command plain bin freq duration gain =
    bin ∷ "-f" ∷ number freq ∷ "-A" ∷ "-T" ∷ number duration ∷ gain_args plain gain
