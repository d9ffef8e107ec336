-- ===== src/Operator/Examples.antt =====
-- pi/portal.py: a test that asks for a button, while another test asks in vain.
use embedded_ai_harness.Prelude.{true, false, none, [], ◌∷◌, ◌≢◌, arith, String, List, eq_iff}
use embedded_ai_harness.Operator.{Prompt}
use embedded_ai_harness.Operator.Clicks.{Act, clicking, asking}

abbrev idle_prompt : Prompt
idle_prompt = record {
  event = none;
  is_set = λ e. true;
  confirmed = true;
  message = none;
  next_event = 7;
}

abbrev evening : List Act
evening = asking "Unplug the board" ∷ clicking false ∷ clicking true ∷ []

abbrev button : String
button = "Press BOOT"

some_text : button ≢ ""
some_text = ground (arith, eq_iff button "")
