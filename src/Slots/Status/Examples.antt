-- ===== src/Slots/Status/Examples.antt =====
-- pi/debug_controller.py: a slot whose board has no JTAG interface, next to a probe.
use embedded_ai_harness.Prelude.{false, none, [], ◌∷◌, ◌≡◌, ◌⊎◌, String, List}
use embedded_ai_harness.Prelude.Dict.{Dict}
use embedded_ai_harness.Slots.{UsbDevice}
use embedded_ai_harness.Debug.{Debugger, Host, reported}
use embedded_ai_harness.Debug.Detect.{detect_chip}
use embedded_ai_harness.Slots.Status.{detect_slot_jtag, slot_has_builtin_jtag}
use embedded_ai_harness.Slots.Status.Sources.{IsBuiltin, IsProbed, detect_slot_jtag-IsSource}

abbrev openocd : Host
openocd = record {
  run = λ args. reported false (1 ∷ 23_589 ∷ []);
  spawn = λ args. none;
  opens = λ port. false;
}

abbrev one_probe : Debugger
one_probe = record {
  sessions = [];
  probes =
      (
        "PROBE1",
        record { interface_config = "ftdi.cfg"; bus_port = none; in_use = false; slot = none },
      )
      ∷ [];
}

abbrev serial_chip : List UsbDevice
serial_chip = record { product = "USB Serial"; vid = "1a86"; pid = "7523" } ∷ []

abbrev slots_of : Dict String
slots_of = ("PROBE1", "SLOT1") ∷ []

detect_slot_jtag-IsSource_example :
    let s = (detect_slot_jtag openocd "SLOT3" serial_chip slots_of none one_probe).0 in
    IsBuiltin openocd "SLOT3" serial_chip none s
    ⊎ (((slot_has_builtin_jtag serial_chip ≡ false) ⊎ ((detect_chip openocd none none).0 ≡ none))
        × IsProbed openocd slots_of one_probe.probes s)
detect_slot_jtag-IsSource_example =
    detect_slot_jtag-IsSource openocd "SLOT3" serial_chip slots_of none one_probe
