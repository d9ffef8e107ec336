-- ===== src/Slots/Services/Port.antt =====
-- pi/portal.py: what `start_proxy` and the flash operations leave of a slot.
use embedded_ai_harness.Prelude.{
  ℕ, ◌+◌, ◌≡◌, ◌⊎◌, ◌≢◌, refl, String, Bool, true, false, not, Option, none, some, List, [],
  if-either, inl, inr,
}
use embedded_ai_harness.Slots.{Slot, idle, flashing}
use embedded_ai_harness.Slots.Services.{
  Machine, Popen, popen_failed, process, Step, comes_up, polled, launched, start_proxy, FlashReply,
  refused, crashed,
}

-- How `start_proxy` ends: the proxy runs and the slot is idle, or the slot has an error, and is otherwise
-- as it was.
abbrev pub Ends : Slot → Slot × Bool × List Step → Type 0
Ends s (s', ok, steps) =
    ((ok ≡ true) × (s'.running ≡ true) × (s'.state ≡ idle) × (s'.last_error ≡ none))
    ⊎ ((ok ≡ false)
        × (s'.running ≡ s.running)
        × (s'.state ≡ s.state)
        × (s'.present ≡ s.present)
        × ((e : String) × (s'.last_error ≡ some e)))

polled-Ends :
    (m : Machine) (monitor : ℕ) (s : Slot) (pid : ℕ) (code : Option String) (steps : List Step)
    → Ends s (polled m monitor s pid code steps)
unfolding polled
polled-Ends m monitor s pid (some code) steps = inr (refl, refl, refl, refl, (_, refl))
polled-Ends m monitor s pid none steps =
    if-either (Ends s) (comes_up m 20 0 s.tcp_port monitor) _ _ (inl (refl, refl, refl, refl))
      (inr (refl, refl, refl, refl, (_, refl)))

launched-Ends : (m : Machine) (monitor : ℕ) (s : Slot) (p : Popen) → Ends s (launched m monitor s p)
unfolding launched
launched-Ends m monitor s (popen_failed e) = inr (refl, refl, refl, refl, (_, refl))
launched-Ends m monitor s (process pid) = polled-Ends m monitor s pid m.exit_code _

pub start_proxy-Ends : (m : Machine) (s : Slot) → Ends s (start_proxy m s)
unfolding start_proxy
start_proxy-Ends m s =
    if-either (Ends s) (not m.exe_exists) _ _ (inr (refl, refl, refl, refl, (_, refl))) (
      if-either (Ends s) (not (m.settles s.devnode)) _ _ (inr (refl, refl, refl, refl, (_, refl))) (
        let monitor = s.tcp_port + 1000 in
        launched-Ends m monitor (record s { monitor_port = some monitor })
          (m.popen s.tcp_port monitor s.devnode)))

-- What `start_proxy` leaves alone.
abbrev pub Keeps : Slot → Slot × Bool × List Step → Type 0
Keeps s (s', ok, steps) =
    (s'.present ≡ s.present)
    × (s'.devnodes ≡ s.devnodes)
    × (s'.flapping ≡ s.flapping)
    × (s'.recovering ≡ s.recovering)

polled-Keeps :
    (m : Machine) (monitor : ℕ) (s : Slot) (pid : ℕ) (code : Option String) (steps : List Step)
    → Keeps s (polled m monitor s pid code steps)
unfolding polled
polled-Keeps m monitor s pid (some code) steps = (refl, refl, refl, refl)
polled-Keeps m monitor s pid none steps =
    if-either (Keeps s) (comes_up m 20 0 s.tcp_port monitor) _ _ (refl, refl, refl, refl)
      (refl, refl, refl, refl)

launched-Keeps :
    (m : Machine) (monitor : ℕ) (s : Slot) (p : Popen) → Keeps s (launched m monitor s p)
unfolding launched
launched-Keeps m monitor s (popen_failed e) = (refl, refl, refl, refl)
launched-Keeps m monitor s (process pid) = polled-Keeps m monitor s pid m.exit_code _

pub start_proxy-Keeps : (m : Machine) (s : Slot) → Keeps s (start_proxy m s)
unfolding start_proxy
start_proxy-Keeps m s =
    if-either (Keeps s) (not m.exe_exists) _ _ (refl, refl, refl, refl)
      (if-either (Keeps s) (not (m.settles s.devnode)) _ _ (refl, refl, refl, refl)
        (let monitor = s.tcp_port + 1000 in
          launched-Keeps m monitor (record s { monitor_port = some monitor })
            (m.popen s.tcp_port monitor s.devnode)))

-- What `flash_slot` may do: refuse and leave everything as it was; end with the slot idle, and either
-- its proxy running or an error that says why it does not; or raise, and leave the slot in `flashing`.
pub data Flashes : Slot → Slot → FlashReply → List Step → Type 0 where
  refusal : (s : Slot) (e : String) → Flashes s s (refused e) []
  flashing_done :
      (s s' : Slot) (r : FlashReply) (steps : List Step)
      → s'.state ≡ idle
      → ((s'.running ≡ true) × (s'.last_error ≡ none))
        ⊎ ((s'.running ≡ false) × ((e : String) × (s'.last_error ≡ some e)))
      → r ≢ crashed
      → Flashes s s' r steps
  left_flashing :
      (s s' : Slot) (steps : List Step)
      → s'.state ≡ flashing
      → s'.running ≡ false
      → Flashes s s' crashed steps

abbrev IsFlash : Slot → Slot × FlashReply × List Step → Type 0
IsFlash s (s', r, steps) = Flashes s s' r steps
