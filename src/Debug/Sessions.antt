-- ===== src/Debug/Sessions.antt =====
-- pi/debug_controller.py: the operations on sessions and probes.
pub mod Marks
pub mod Probes
pub mod Contract
pub mod Refinement
pub mod Chips
pub mod Fallback
mod Examples
use embedded_ai_harness.Prelude.{
  ℕ, String, Bool, false, not, Option, none, some, List, [], ◌∷◌, ◌++◌, if◌then◌else◌,
}
use embedded_ai_harness.Prelude.Dict.{Dict, get, pop}
use embedded_ai_harness.Debug.{
  Probe, Session, Debugger, Host, Effect, resume, kill, rebinding, Reply, already_debugging,
  no_device, not_detected, given, is_some, release, start_chip, after_effects, with_probe,
}
use embedded_ai_harness.Debug.Detect.{detect_chip, location_of}

-- The arguments of `start`, and of the slot what `start` reads.
pub record Request : Type 0 where
  pub label : String
  pub present : Bool
  pub usb_prefix : Option String
  pub gdb_port : ℕ
  pub telnet_port : ℕ
  pub chip : Option String
  pub probe : Option String

abbrev lookup : Option String → Debugger → Option Probe
lookup none d = none
lookup (some p) d = get p d.probes

pub choose_chip : Host → Request → Debugger → Option String → Option String × List Effect
unfolding given
choose_chip host q d (some chip) = (some chip, [])
choose_chip host q d none = detect_chip host (lookup (given q.probe) d) q.usb_prefix

-- The session that a request asks for; its process is not known yet.
abbrev asked_for : Request → String → Session
asked_for q chip = record {
  pid = 0;
  chip = chip;
  gdb_port = q.gdb_port;
  telnet_port = q.telnet_port;
  probe = q.probe;
}

start_with :
    Host → Request → Debugger → Option String × List Effect → Debugger × Reply × List Effect
unfolding start_chip after_effects given
start_with host q d (none, es) = (d, not_detected, es)
start_with host q d (some chip, es) =
    after_effects es
      (start_chip host q.label (asked_for q chip) (location_of q.usb_prefix) (given q.probe) d)

pub start : Host → Request → Debugger → Debugger × Reply × List Effect
unfolding choose_chip start_with given
start host q d =
    if is_some (get q.label d.sessions)
    then (d, already_debugging, [])
    else if not q.present
    then (d, no_device, [])
    else start_with host q d (choose_chip host q d (given q.chip))

rebound : Option String → Debugger → List Effect
unfolding given
rebound none d = []
rebound (some label) d = elim (get label d.probes) [
  | none ↦ []
  | some p ↦ rebinding (given p.bus_port)
]

abbrev without : String → Debugger → Debugger
without label d = record d { sessions = pop label d.sessions }

-- The rest of `stop`, with the session that stood under the label.
ended : String → Option Session → Debugger → Debugger × List Effect
unfolding release rebound given
ended label none d = (d, [])
ended label (some s) d = (
  release (given s.probe) (without label d),
  resume s.telnet_port ∷ kill s.pid ∷ rebound (given s.probe) d,
)

pub stop : String → Debugger → Debugger × List Effect
unfolding ended
stop label d = ended label (get label d.sessions) d

dropped : String → Option Session → Debugger → Debugger × List Effect
unfolding release given
dropped label none d = (d, [])
dropped label (some s) d = (release (given s.probe) (without label d), kill s.pid ∷ [])

-- The loop of `shutdown` over the labels.
pub shutdown_each : List String → Debugger → Debugger × List Effect
unfolding dropped
shutdown_each [] d = (d, [])
shutdown_each (label ∷ rest) d =
    let (d1, es) = dropped label (get label d.sessions) d in
    let (d2, more) = shutdown_each rest d1 in (d2, es ++ more)

pub labels : Dict Session → List String
labels [] = []
labels ((label, s) ∷ rest) = label ∷ labels rest

pub shutdown_all : Debugger → Debugger × List Effect
unfolding shutdown_each labels
shutdown_all d = shutdown_each (labels d.sessions) d

pub is_debugging : String → Debugger → Bool
is_debugging label d = is_some (get label d.sessions)

pub status : Debugger → Dict Session
status d = d.sessions

-- label, in_use and slot of every probe
pub get_probes : Dict Probe → List (String × Bool × Option String)
get_probes [] = []
get_probes ((label, p) ∷ rest) = (label, p.in_use, p.slot) ∷ get_probes rest

pub data Config : Type 0 where
  -- label, interface_config with its default put in, bus_port
  probe_config : String → String → Option String → Config

load_probes : List Config → Debugger → Debugger
load_probes [] d = d
load_probes (probe_config label interface bus ∷ rest) d = load_probes rest (
    with_probe label
      (record { interface_config = interface; bus_port = bus; in_use = false; slot = none }) d)

-- jtag_reset and jtag_halt: what is sent to OpenOCD, and the telnet port that it is sent to; `none` is
-- the answer that no session is active.
abbrev commanded : String → Option Session → Option (ℕ × String)
commanded cmd none = none
commanded cmd (some s) = some (s.telnet_port, cmd)

pub jtag_reset : String → Bool → Debugger → Option (ℕ × String)
jtag_reset label halt d =
    commanded (if halt then "reset halt" else "reset run") (get label d.sessions)

jtag_halt : String → Debugger → Option (ℕ × String)
jtag_halt label d = commanded "halt" (get label d.sessions)

-- What one caller does, and a run of them.
pub data Act : Type 0 where
  starting : Request → Act
  stopping : String → Act
  shutting_down : Act

pub perform : Host → Act → Debugger → Debugger
unfolding start stop shutdown_all
perform host (starting q) d = (start host q d).0
perform host (stopping label) d = (stop label d).0
perform host shutting_down d = (shutdown_all d).0

-- Each act has its own answers from outside.
pub perform_all : List (Host × Act) → Debugger → Debugger
unfolding perform
perform_all [] d = d
perform_all ((host, a) ∷ rest) d = perform_all rest (perform host a d)
