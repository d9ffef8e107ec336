-- ===== src/Debug/Sessions/Examples.antt =====
-- pi/debug_controller.py: two slots and one ESP-Prog.
use embedded_ai_harness.Prelude.{
  ℕ, not, ◌==◌, ◌≡◌, refl, true, false, none, some, [], ◌∷◌, String, List,
}
use embedded_ai_harness.Prelude.Dict.{get, put}
use embedded_ai_harness.Debug.{
  Debugger, Host, reported, given, start_chip, start_probe, launch, launched, after_effects,
}
use embedded_ai_harness.Debug.Sessions.{
  Request, Act, starting, start, start_with, choose_chip, perform, perform_all,
}
use embedded_ai_harness.Debug.Sessions.Marks.{Holds}
use embedded_ai_harness.Debug.Sessions.Probes.{perform_all-one_holder, no_sessions-IsMarked}
use embedded_ai_harness.Debug.Sessions.Contract.{view, Starts}
use embedded_ai_harness.Debug.Sessions.Fallback.{debug_start, debug_start-Starts}

-- OpenOCD reports a RISC-V TAP ID in every run.
abbrev host : Host
host = record {
  run = λ args. reported false (1 ∷ 23_589 ∷ []);
  spawn = λ args. some 812;
  opens = λ port. true;
}

abbrev bench : Debugger
bench = record {
  sessions = [];
  probes =
      (
        "PROBE1",
        record {
          interface_config = "interface/ftdi/esp_ftdi.cfg";
          bus_port = some "1-1.4:1.0";
          in_use = false;
          slot = none;
        },
      )
      ∷ [];
}

abbrev request : String → Request
request label = record {
  label = label;
  present = true;
  usb_prefix = some "0:1.1";
  gdb_port = 3333;
  telnet_port = 4444;
  chip = none;
  probe = some "PROBE1";
}

abbrev slot_1 : String
slot_1 = "SLOT1"

abbrev acts : List (Host × Act)
acts =
    (host, starting (record (request "SLOT1") { chip = some "esp32" }))
    ∷ (host, starting (record (request "SLOT2") { chip = some "esp32" }))
    ∷ []

perform_all-one_holder_example : (slot_1 ≡ slot_1) × Holds (perform_all acts bench) slot_1 "PROBE1"
unfolding perform_all perform start choose_chip start_with start_chip start_probe launch launched
    after_effects given get put
perform_all-one_holder_example =
    perform_all-one_holder acts bench slot_1 slot_1 "PROBE1" refl refl refl

-- On the board's own JTAG, where the port does not open, and then on the probe, where it does.
abbrev hosts : ℕ → Host
hosts i = record host { opens = λ port. not (i == 0) }

abbrev own_jtag : Request
own_jtag = record (request "SLOT1") { probe = none; chip = some "esp32c3" }

debug_start-Starts_example :
    let (d', r) = debug_start hosts own_jtag bench in Starts "SLOT1" (view bench) (view d') r
debug_start-Starts_example =
    debug_start-Starts hosts own_jtag bench (no_sessions-IsMarked bench refl)
