-- ===== src/Debug.antt =====
-- pi/debug_controller.py: the OpenOCD sessions of the slots and the debug probes that they hold. A
-- call runs under the module's lock, and so is one step. What it does outside (processes, sysfs) is a
-- list of effects; OpenOCD's answers are a `Host`. A `probe` or a `chip` that is an empty text counts
-- as one that is not given.
pub mod Detect
pub mod Sessions
use embedded_ai_harness.Prelude.{
  ℕ, ◌+◌, ◌-◌, String, Bool, true, false, Option, none, some, List, [], ◌∷◌, ◌++◌, if◌then◌else◌,
  str_eq,
}
use embedded_ai_harness.Prelude.Dict.{Dict, get, put}

-- An entry of `_probes`, without its type and serial number.
pub record Probe : Type 0 where
  pub interface_config : String
  pub bus_port : Option String
  pub in_use : Bool
  pub slot : Option String

-- An entry of `_sessions`, without the process object.
pub record Session : Type 0 where
  pub pid : ℕ
  pub chip : String
  pub gdb_port : ℕ
  pub telnet_port : ℕ
  pub probe : Option String

pub record Debugger : Type 0 where
  pub sessions : Dict Session
  pub probes : Dict Probe

-- The arguments after the executable and its `-s`.
pub data Arg : Type 0 where
  config_file : String → Arg
  usb_location : String → Arg
  gdb telnet tcl : ℕ → Arg
  bind_all init shutdown : Arg

-- What a run of OpenOCD for a detection shows: no output in time, or whether a core was examined and the
-- TAP IDs that it reported, in order.
pub data Output : Type 0 where
  no_output : Output
  reported : Bool → List ℕ → Output

pub record Host : Type 0 where
  -- `subprocess.run` of a detection; `Popen`, where `none` is an exception; `_wait_for_port`
  pub run : List Arg → Output
  pub spawn : List Arg → Option ℕ
  pub opens : ℕ → Bool

pub data Effect : Type 0 where
  unbind_ftdi rebind_ftdi : String → Effect
  -- `_openocd_command(telnet_port, "reset run")`, and the end of a process
  resume kill : ℕ → Effect

pub data Reply : Type 0 where
  already_debugging no_device not_detected unknown_probe probe_in_use unsupported_chip : Reply
  spawn_failed openocd_failed : Reply
  -- slot, chip, GDB and telnet port, probe; `gdb_target` is left out
  started : String → String → ℕ → ℕ → Option String → Reply

-- BUILTIN_CONFIGS and PROBE_TARGET_CONFIGS
abbrev pub builtin_configs : Dict String
builtin_configs =
    ("esp32c3", "board/esp32c3-builtin.cfg")
    ∷ ("esp32c6", "board/esp32c6-builtin.cfg")
    ∷ ("esp32h2", "board/esp32h2-builtin.cfg")
    ∷ ("esp32s3", "board/esp32s3-builtin.cfg")
    ∷ []

abbrev pub probe_target_configs : Dict String
probe_target_configs =
    ("esp32", "target/esp32.cfg")
    ∷ ("esp32c3", "target/esp32c3.cfg")
    ∷ ("esp32c6", "target/esp32c6.cfg")
    ∷ ("esp32h2", "target/esp32h2.cfg")
    ∷ ("esp32s2", "target/esp32s2.cfg")
    ∷ ("esp32s3", "target/esp32s3.cfg")
    ∷ []

-- A text that is there and not empty.
pub given : Option String → Option String
given none = none
given (some t) = if str_eq t "" then none else some t

abbrev pub is_some {ℓ} : {A : Type ℓ} → Option A → Bool
is_some none = false
is_some (some a) = true

-- 6666 + (gdb_port - 3333), which is never negative.
pub tcl_port_for : ℕ → ℕ
tcl_port_for gdb_port = 6666 + gdb_port - 3333

abbrev pub location_args : Option String → List Arg
location_args none = []
location_args (some l) = usb_location l ∷ []

abbrev pub unbinding : Option String → List Effect
unbinding none = []
unbinding (some b) = unbind_ftdi b ∷ []

abbrev pub rebinding : Option String → List Effect
rebinding none = []
rebinding (some b) = rebind_ftdi b ∷ []

abbrev pub with_probe : String → Probe → Debugger → Debugger
with_probe label p d = record d { probes = put label p d.probes }

-- `in_use` and `slot` of a probe that is known, reset.
released : String → Option Probe → Debugger → Debugger
released label none d = d
released label (some p) d = with_probe label (record p { in_use = false; slot = none }) d

pub release : Option String → Debugger → Debugger
unfolding released
release none d = d
release (some label) d = released label (get label d.probes) d

-- From the launch on: `args` are the arguments, `d` has the probe marked.
launched : Host → String → Session → List Arg → Debugger → Option ℕ → Debugger × Reply × List Effect
unfolding release given
launched host label s args d none = (d, spawn_failed, [])
launched host label s args d (some pid) =
    if host.opens s.gdb_port
    then (
      record d { sessions = put label (record s { pid = pid }) d.sessions },
      started label s.chip s.gdb_port s.telnet_port s.probe,
      [],
    )
    else (release (given s.probe) d, openocd_failed, kill pid ∷ [])

launch : Host → String → Session → List Arg → Debugger → Debugger × Reply × List Effect
unfolding launched tcl_port_for
launch host label s args d =
    let all =
      args
      ++ gdb s.gdb_port ∷ telnet s.telnet_port ∷ tcl (tcl_port_for s.gdb_port) ∷ bind_all ∷ [] in
    launched host label s all d (host.spawn all)

start_builtin :
    Host
    → String
    → Session
    → Option String
    → Option String
    → Debugger
    → Debugger × Reply × List Effect
unfolding launch
start_builtin host label s location none d = (d, unsupported_chip, [])
start_builtin host label s location (some config) d =
    launch host label s (location_args location ++ config_file config ∷ []) d

after_effects : List Effect → Debugger × Reply × List Effect → Debugger × Reply × List Effect
after_effects es (d, r, more) = (d, r, es ++ more)

-- With the probe's label, what `_probes` has under it, and the target's configuration.
start_probe :
    Host
    → String
    → Session
    → String
    → Option Probe
    → Option String
    → Debugger
    → Debugger × Reply × List Effect
unfolding launch after_effects given
start_probe host label s p none target d = (d, unknown_probe, [])
start_probe host label s p (some info) none d =
    (d, if info.in_use then probe_in_use else unsupported_chip, [])
start_probe host label s p (some info) (some target) d =
    if info.in_use
    then (d, probe_in_use, [])
    else after_effects (unbinding (given info.bus_port)) (
        launch host label s (config_file info.interface_config ∷ config_file target ∷ [])
          (with_probe p (record info { in_use = true; slot = some label }) d))

-- `start` once the chip is known.
start_chip :
    Host
    → String
    → Session
    → Option String
    → Option String
    → Debugger
    → Debugger × Reply × List Effect
unfolding start_probe start_builtin
start_chip host label s location none d =
    start_builtin host label s location (get s.chip builtin_configs) d
start_chip host label s location (some p) d =
    start_probe host label s p (get p d.probes) (get s.chip probe_target_configs) d
