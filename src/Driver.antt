-- ===== src/Driver.antt =====
-- pytest/testbench_driver.py: how the client tells a refusal from a lost answer, and how it waits for an event of
-- the Wi-Fi controller, which another client or the network may keep from it.
pub mod Waiting
mod Examples
use embedded_ai_harness.Prelude.{
  String, Bool, true, false, Option, none, some, List, [], ◌∷◌, if◌then◌else◌, str_eq,
}
use embedded_ai_harness.Wifi.{
  Wifi, Event, Act, perform_all, get_events, sta_connect, sta_disconnect,
}

-- What `urlopen` and `json.loads` give: an HTTP error with the body, if that is JSON; another error; a body that is no
-- JSON; or the value of `ok` and the body.
pub data Answer {ℓ} (V : Type ℓ) : Type ℓ where
  http_error : Option V → Answer V
  unreachable : Answer V
  garbled : Answer V
  replied : Bool → V → Answer V

pub data Result {ℓ} (V : Type ℓ) : Type ℓ where
  -- CommandTimeout, CommandError, and the exception of `json.loads`
  timed_out : Result V
  refused : V → Result V
  not_json : Result V
  returned : V → Result V

module _ {ℓ} {V : Type ℓ} where
  -- `_api_get` and `_api_post`, but for the texts of their exceptions.
  pub api_call : Answer V → Result V
  api_call (http_error body) = timed_out
  api_call unreachable = timed_out
  api_call garbled = timed_out
  api_call (replied true v) = returned v
  api_call (replied false v) = refused v

  -- `_api_post_raw`, where `no_body` is what stands for an error without a body.
  pub api_post_raw : V → Answer V → Result V
  api_post_raw no_body (http_error none) = returned no_body
  api_post_raw no_body (http_error (some v)) = returned v
  api_post_raw no_body unreachable = timed_out
  api_post_raw no_body garbled = not_json
  api_post_raw no_body (replied ok v) = returned v

pub event_type : Event → String
event_type (sta_connect mac ip hostname) = "STA_CONNECT"
event_type (sta_disconnect mac) = "STA_DISCONNECT"

-- The first event of the type.
pub find_event : String → List Event → Option Event
unfolding event_type
find_event t [] = none
find_event t (e ∷ es) =
    let rest = find_event t es in if str_eq (event_type e) t then some e else rest

-- A round of `wait_for_event`: what happens at the bench until it answers, and whether the answer arrives.
pub record Poll : Type 0 where
  pub acts : List Act
  pub arrives : Bool

answer_of : Bool → List Event → Answer (List Event)
answer_of true es = replied true es
answer_of false es = unreachable

pub or_wait : Option Event → Wifi → Wifi × Option Event → Wifi × Option Event
or_wait (some e) w later = (w, some e)
or_wait none w later = later

pub taken : String → Wifi → Result (List Event) → Wifi × Option Event → Wifi × Option Event
unfolding find_event or_wait
taken t w (returned es) later = or_wait (find_event t es) w later
taken t w timed_out later = later
taken t w (refused es) later = (w, none)
taken t w not_json later = later

-- `wait_for_event` over the rounds before its deadline: the bench afterwards, and the event, or none where it raises.
pub wait_for_event : String → List Poll → Wifi → Wifi × Option Event
unfolding taken api_call answer_of
wait_for_event t [] w = (w, none)
wait_for_event t (p ∷ ps) w =
    let (w', es) = get_events (perform_all p.acts w) in
    taken t w' (api_call (answer_of p.arrives es)) (wait_for_event t ps w')
