-- ===== src/Driver/Waiting.antt =====
-- pytest/testbench_driver.py: which event `wait_for_event` returns.
use embedded_ai_harness.Prelude.{
  String, Bool, true, false, Option, none, some, List, [], ◌∷◌, ◌++◌, All, ◌≡◌, refl, arith, sym,
  ap, ◌∙◌, str_eq, if◌then◌else◌,
}
use embedded_ai_harness.Wifi.{Wifi, Event, perform_all, get_events}
use embedded_ai_harness.Driver.{
  Poll, find_event, event_type, or_wait, taken, api_call, answer_of, wait_for_event,
}

-- The events that the bench gives in these rounds, in their order.
pub given : List Poll → Wifi → List Event
given [] w = []
given (p ∷ ps) w = let (w', es) = get_events (perform_all p.acts w) in es ++ given ps w'

or_event : Option Event → Option Event → Option Event
or_event none o = o
or_event (some e) o = some e

find_event-append :
    (t : String) (es fs : List Event)
    → find_event t (es ++ fs) ≡ or_event (find_event t es) (find_event t fs)
unfolding find_event or_event
find_event-append t [] fs = refl
find_event-append t (e ∷ es) fs =
    elim (str_eq (event_type e) t)
      as (λ c.
        (if c then some e else find_event t (es ++ fs))
        ≡ or_event (if c then some e else find_event t es) (find_event t fs)) [
          | true ↦ refl
          | false ↦ find_event-append t es fs
        ]

or_wait-event :
    (o : Option Event) (w : Wifi) (later : Wifi × Option Event)
    → (or_wait o w later).1 ≡ or_event o later.1
unfolding or_wait or_event
or_wait-event none w later = refl
or_wait-event (some e) w later = refl

arrived :
    (t : String) (w : Wifi) (es : List Event) (b : Bool) (later : Wifi × Option Event)
    → b ≡ true
    → taken t w (api_call (answer_of b es)) later ≡ or_wait (find_event t es) w later
unfolding taken api_call answer_of
arrived t w es true later h = refl
arrived t w es false later h = ground arith

-- Where every answer arrives, `wait_for_event` returns the first event of its type among all those that the bench
-- gives in its rounds, whatever happens there between them, and raises only where there is none.
pub wait_for_event-find :
    (t : String) (ps : List Poll) (w : Wifi)
    → All (λ (p : Poll). p.arrives ≡ true) ps
    → (wait_for_event t ps w).1 ≡ find_event t (given ps w)
unfolding wait_for_event given find_event
wait_for_event-find t [] w h = refl
wait_for_event-find t (p ∷ ps) w h =
    let (w', es) = get_events (perform_all p.acts w) in
    let later = wait_for_event t ps w' in
    ap (λ (r : Wifi × Option Event). r.1) (arrived t w' es p.arrives later h.0)
    ∙ or_wait-event (find_event t es) w' later
    ∙ ap (or_event (find_event t es)) (wait_for_event-find t ps w' h.1)
    ∙ sym (find_event-append t es (given ps w'))
