-- ===== src/Debug/Detect.antt =====
-- pi/debug_controller.py: which chip is at the end of a JTAG cable.
pub mod Supported
use embedded_ai_harness.Prelude.{
  ℕ, ◌≡◌, ◌≢◌, refl, String, Bool, true, false, Option, none, some, List, [], ◌∷◌, ◌++◌,
  if◌then◌else◌, str_eq, arith, eq_iff, ◌==◌, Option-cases, inl, inr, sym, ◌∙◌, All,
}
use embedded_ai_harness.Prelude.Dict.{Dict, get}
use embedded_ai_harness.Slots.Usb.{cut_colon, parse_int, device_name}
use embedded_ai_harness.Debug.{
  Probe, Host, Output, no_output, reported, Arg, config_file, gdb, telnet, tcl, init, shutdown,
  Effect, unbinding, given, location_args, builtin_configs, probe_target_configs, is_some,
}

-- `_usb_location`
abbrev numbered : String → Option ℕ → Option String
numbered path none = none
numbered path (some bus) = some (device_name bus path)

cut : String × Option String → Option String
cut (bus, none) = none
cut (bus, some path) = numbered path (parse_int bus)

pub location_of : Option String → Option String
unfolding cut
location_of none = none
location_of (some prefix) = cut (cut_colon prefix)

-- BUILTIN_DETECT_ORDER and PROBE_DETECT_ORDER, each chip with its configuration.
abbrev pub builtin_order : Dict String
builtin_order =
    ("esp32c3", "board/esp32c3-builtin.cfg")
    ∷ ("esp32s3", "board/esp32s3-builtin.cfg")
    ∷ ("esp32c6", "board/esp32c6-builtin.cfg")
    ∷ ("esp32h2", "board/esp32h2-builtin.cfg")
    ∷ []

abbrev pub probe_order : Dict String
probe_order =
    ("esp32", "target/esp32.cfg")
    ∷ ("esp32s3", "target/esp32s3.cfg")
    ∷ ("esp32c3", "target/esp32c3.cfg")
    ∷ ("esp32c6", "target/esp32c6.cfg")
    ∷ ("esp32h2", "target/esp32h2.cfg")
    ∷ ("esp32s2", "target/esp32s2.cfg")
    ∷ []

-- TAP_ID_MAP
pub tap_chip : ℕ → Option String
tap_chip id =
    if id == 23_589
    then some "esp32c3"
    else if id == 56_357
    then some "esp32c6"
    else if id == 68_645
    then some "esp32h2"
    else if id == 302_003_429
    then some "esp32s3"
    else none

abbrev or_else : Option String → Option String → Option String
or_else none o = o
or_else (some a) o = some a

-- `_tap_id_in`
pub tap_id_in : List ℕ → Option String
unfolding tap_chip
tap_id_in [] = none
tap_id_in (id ∷ rest) = or_else (tap_chip id) (tap_id_in rest)

-- What one attempt finds.
pub named_by : String → Output → Option String
unfolding tap_id_in
named_by chip no_output = none
named_by chip (reported true taps) = some chip
named_by chip (reported false taps) = tap_id_in taps

abbrev detect_ports : List Arg
detect_ports = gdb 3390 ∷ telnet 4490 ∷ tcl 6690 ∷ init ∷ shutdown ∷ []

abbrev noted : List Effect → Option String × List Effect → Option String × List Effect
noted es (found, more) = (found, es ++ more)

abbrev unless_found : Option String → Option String × List Effect → Option String × List Effect
unless_found none later = later
unless_found (some chip) later = (some chip, [])

-- The loop over the chips: `es` is done for every attempt, `args` come before the chip's configuration.
pub attempts : Host → List Effect → List Arg → Dict String → Option String × List Effect
unfolding named_by
attempts host es args [] = (none, [])
attempts host es args ((chip, config) ∷ rest) = noted es (
    unless_found (named_by chip (host.run (args ++ config_file config ∷ detect_ports)))
      (attempts host es args rest))

pub detect_chip : Host → Option Probe → Option String → Option String × List Effect
unfolding attempts given location_of
detect_chip host none prefix = attempts host [] (location_args (location_of prefix)) builtin_order
detect_chip host (some p) prefix =
    attempts host (unbinding (given p.bus_port)) (config_file p.interface_config ∷ []) probe_order
