-- ===== src/Slots.antt =====
-- pi/portal.py: the slot records (`_make_slot`) and what the portal's other parts read of them.
pub mod Lease
pub mod Config
pub mod Usb
pub mod Hotplug
pub mod Services
pub mod Recovery
pub mod Monitor
pub mod Status
use embedded_ai_harness.Prelude.{ℕ, String, Bool, false, Option, none, List, []}
use embedded_ai_harness.Prelude.Dict.{Dict}

-- The STATE_ constants.
pub data SlotState : Type 0 where
  absent idle resetting monitoring flapping recovering download_mode debugging flashing : SlotState

-- f"rfc2217://{host}:{port}"
pub record Url : Type 0 where
  pub host : String
  pub port : ℕ

-- An entry of `_usb_devices`; `vid_pid` is split at its colon.
pub record UsbDevice : Type 0 where
  pub product : String
  pub vid : String
  pub pid : String

-- One slot. Times are in milliseconds. The keys `group`, `role`, `_serial_buf` and `_lock` are left out.
pub record Slot : Type 0 where
  pub label : String
  pub slot_key : String
  pub tcp_port : ℕ
  pub gdb_port : ℕ
  pub openocd_telnet_port : ℕ
  pub gpio_boot : Option ℕ
  pub gpio_en : Option ℕ
  pub present : Bool
  pub running : Bool
  pub pid : Option ℕ
  pub devnode : Option String
  pub devnodes : Dict (Option String)
  pub seq : ℕ
  pub last_action : Option String
  pub last_event_ts : Option ℕ
  pub url : Option Url
  pub last_error : Option String
  pub flapping : Bool
  pub state : SlotState
  pub event_times : List ℕ
  pub recovering : Bool
  pub recover_retries : ℕ
  pub auto_debug_chip : Option String
  pub jtag_slot : Option String
  pub monitor_port : Option ℕ
  pub gpio_wired : Option Bool
  pub usb_prefix : Option String
  pub usb_devices : List UsbDevice

-- A slot as `_make_slot` leaves it, for the tests.
abbrev pub sample_slot : Slot
sample_slot = record {
  label = "SLOT1";
  slot_key = "_fixed_SLOT1";
  tcp_port = 4001;
  gdb_port = 3333;
  openocd_telnet_port = 4444;
  gpio_boot = none;
  gpio_en = none;
  present = false;
  running = false;
  pid = none;
  devnode = none;
  devnodes = [];
  seq = 0;
  last_action = none;
  last_event_ts = none;
  url = none;
  last_error = none;
  flapping = false;
  state = absent;
  event_times = [];
  recovering = false;
  recover_retries = 0;
  auto_debug_chip = none;
  jtag_slot = none;
  monitor_port = none;
  gpio_wired = none;
  usb_prefix = none;
  usb_devices = [];
}
