-- ===== src/Slots/Hotplug/Boot/Examples.antt =====
-- The start of the portal at concrete inputs: tests, and the theorem applied.
use embedded_ai_harness.Prelude.{◌≡◌, refl, true, none, some, List, [], ◌∷◌}
use embedded_ai_harness.Prelude.Dict.{get, put}
use embedded_ai_harness.Slots.Config.{SlotDef, Globals}
use embedded_ai_harness.Slots.Services.{Machine, process, timed_out}
use embedded_ai_harness.Slots.Hotplug.Examples.{env_at, unplug}
use embedded_ai_harness.Slots.Hotplug.Boot.{
  Node, Outside, configured, start_up, slot_key_of, props_of,
}
use embedded_ai_harness.Slots.Hotplug.Boot.Served

abbrev working : Machine
working = record {
  proxy_exe = "/usr/local/bin/rfc2217-server";
  exe_exists = true;
  host_ip = "10.0.0.2";
  settles = λ _. true;
  popen = λ _ _ _. process 700;
  exit_code = none;
  listens = λ _ _. true;
  esptool = λ _. timed_out;
  meanwhile = λ s. s;
}

abbrev outside : Outside
outside = record {
  host_ip = "10.0.0.2";
  machine = λ _. working;
  wiring = ("SLOT1", some true) ∷ [];
}

abbrev fresh : Globals
fresh = record {
  slots = [];
  slot_prefixes = [];
  gpio_boot = none;
  gpio_en = none;
  auto_label_counter = 0;
}

abbrev one_slot : List SlotDef
one_slot =
    record {
      label = "SLOT1";
      usb_prefix = some "0:1.3";
      tcp_port = some 4001;
      gdb_port = none;
      openocd_telnet_port = none;
    }
    ∷ []

abbrev board : Node
board = record {
  devnode = "/dev/ttyACM0";
  properties = some (("DEVNAME", "/dev/ttyACM0") ∷ ("ID_PATH", "usb-0:1.3:1.0") ∷ []);
}

-- A device that udevadm does not know.
abbrev unknown : Node
unknown = record { devnode = "/dev/ttyUSB0"; properties = none }

path_first : slot_key_of board.properties ≡ "usb-0:1.3:1.0"
unfolding slot_key_of props_of get put
path_first = refl

start_up-Starts_example :
    Served.Starts
      (configured outside one_slot fresh)
      ((env_at 9500, some unplug) ∷ [])
      0
      []
      (start_up outside one_slot (board ∷ unknown ∷ []) fresh)
start_up-Starts_example =
    Served.start_up-Starts outside one_slot (board ∷ unknown ∷ []) fresh
      ((env_at 9500, some unplug) ∷ []) 0 []
