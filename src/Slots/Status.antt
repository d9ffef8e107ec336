-- ===== src/Slots/Status.antt =====
-- pi/portal.py and pi/debug_controller.py: what the portal reports of a slot: the health of its proxy, storms that
-- have passed, the probes that stand in slots, and the chip and the JTAG source of a slot.
pub mod Sources
mod Examples
use embedded_ai_harness.Prelude.{
  ℕ, zero, suc, ◌-◌, String, Bool, true, false, not, ◌&&◌, ◌||◌, Option, none, some, List, [], ◌∷◌,
  ◌++◌, map, keep, length, if◌then◌else◌, ltb, str_eq, ◌==◌,
}
use embedded_ai_harness.Prelude.Dict.{Dict, get, put}
use embedded_ai_harness.Slots.{Slot, UsbDevice}
use embedded_ai_harness.Slots.Usb.{texts}
use embedded_ai_harness.Slots.Hotplug.{settled, flap_window, flap_threshold}
use embedded_ai_harness.Slots.Services.Device.{is_within}
use embedded_ai_harness.Debug.{Probe, Host, Debugger, Effect, Session}
use embedded_ai_harness.Debug.Detect.{detect_chip}

-- `key[-20:]`
str_length : String → ℕ
str_length String.[] = 0
str_length (String.◌∷◌ c t) = suc (str_length t)

without_first : ℕ → String → String
without_first zero t = t
without_first (suc n) String.[] = String.[]
without_first (suc n) (String.◌∷◌ c t) = without_first n t

pub last_20 : String → String
unfolding str_length without_first
last_20 t = without_first (str_length t - 20) t

by_label : String → List Slot → Option Slot
by_label label [] = none
by_label label (s ∷ ss) = if str_eq s.label label then some s else by_label label ss

by_key : String → List Slot → Option Slot
by_key label [] = none
by_key label (s ∷ ss) = if str_eq (last_20 s.slot_key) label then some s else by_key label ss

or_slot : Option Slot → Option Slot → Option Slot
or_slot none o = o
or_slot (some s) o = some s

-- `_find_slot_by_label`
pub find_slot_by_label : String → List Slot → Option Slot
unfolding by_label by_key or_slot
find_slot_by_label label slots = or_slot (by_label label slots) (by_key label slots)

slot_values : Dict Slot → List Slot
slot_values [] = []
slot_values ((k, s) ∷ m) = s ∷ slot_values m

-- `_resolve_slot`, with the two keys of the body, a missing one the empty text.
pub resolve_slot : String → String → Dict Slot → Option Slot
unfolding find_slot_by_label or_slot slot_values
resolve_slot label key slots =
    if not (str_eq label "")
    then find_slot_by_label label (slot_values slots)
    else if not (str_eq key "")
    then or_slot (get key slots) (find_slot_by_label key (slot_values slots))
    else none

abbrev is_there : (ℕ → Bool) → Option ℕ → Bool
is_there alive none = true
is_there alive (some pid) = (pid == 0) || alive pid

-- `_refresh_slot_health`
pub refresh_slot_health : (ℕ → Bool) → Slot → Slot
refresh_slot_health alive s =
    if s.running && not (is_there alive s.pid)
    then record s {
      running = false;
      pid = none;
      url = none;
      last_error = some "Process died";
      state = settled s;
    }
    else s

-- How `_slot_info` clears a storm that has passed, and whether it starts the proxy.
pub clear_flapping : ℕ → Slot → Slot × Bool
clear_flapping now s =
    let recent = keep (λ t. ltb (now - t) flap_window) s.event_times in
    let s1 : Slot = record s { event_times = recent } in
    if s.flapping && not s.recovering
    then (if ltb (length recent) flap_threshold
        then (
          record s1 { flapping = false; last_error = none; state = settled s },
          s.present && not s.running,
        )
        else (s1, false))
    else (s, false)

-- _PROBE_VIDS and _PROBE_PIDS
pub is_probe_device : UsbDevice → Bool
is_probe_device d =
    str_eq d.vid "0403"
    && (str_eq d.pid "6010" || str_eq d.pid "6011" || str_eq d.pid "6014" || str_eq d.pid "6015")

pub all_probes : List UsbDevice → Bool
unfolding is_probe_device
all_probes [] = true
all_probes (d ∷ ds) = is_probe_device d && all_probes ds

-- `_is_probe_slot`
pub is_probe_slot : List UsbDevice → Bool
unfolding all_probes
is_probe_slot [] = false
is_probe_slot (d ∷ ds) = all_probes (d ∷ ds)

pub probe_slots : List Slot → List String
unfolding is_probe_slot
probe_slots [] = []
probe_slots (s ∷ ss) =
    let rest = probe_slots ss in
    if s.present && is_probe_slot s.usb_devices then s.label ∷ rest else rest

pub paired : List String → List String → Dict String → Dict String
paired [] slots m = m
paired (p ∷ ps) [] m = m
paired (p ∷ ps) (s ∷ ss) m = paired ps ss (put p s m)

-- `_build_probe_slot_map`, with the labels of the configured probes.
pub build_probe_slot_map : List String → List Slot → Dict String
unfolding paired probe_slots
build_probe_slot_map probes slots = paired probes (probe_slots slots) []

-- `_slot_has_builtin_jtag`
pub slot_has_builtin_jtag : List UsbDevice → Bool
unfolding is_within
slot_has_builtin_jtag [] = false
slot_has_builtin_jtag (d ∷ ds) =
    (str_eq d.vid "303a" && is_within "JTAG" d.product) || slot_has_builtin_jtag ds

pub record Source : Type 0 where
  pub chip : Option String
  pub jtag_slot : Option String
  pub probe : Option String

abbrev pub no_jtag : Source
no_jtag = record { chip = none; jtag_slot = none; probe = none }

pub or_self : String → Option String → String
or_self label none = label
or_self label (some s) = s

-- An attempt on a probe, whose label is `p`, or else what comes later.
found_by :
    Dict String → String → Option String × List Effect → Source × List Effect → Source × List Effect
unfolding or_self
found_by psm p (some chip, es) later =
    (record { chip = some chip; jtag_slot = some (or_self p (get p psm)); probe = some p }, es)
found_by psm p (none, es) (source, more) = (source, es ++ more)

-- The loop over the probes, of which those in use are left out.
pub try_probes : Host → Dict String → Dict Probe → Source × List Effect
unfolding found_by
try_probes host psm [] = (no_jtag, [])
try_probes host psm ((label, p) ∷ rest) =
    let later = try_probes host psm rest in
    if p.in_use then later else found_by psm label (detect_chip host (some p) none) later

builtin_or : String → Option String × List Effect → Source × List Effect → Source × List Effect
builtin_or label (some chip, es) later =
    (record { chip = some chip; jtag_slot = some label; probe = none }, es)
builtin_or label (none, es) (source, more) = (source, es ++ more)

-- `detect_slot_jtag`
pub detect_slot_jtag :
    Host → String → List UsbDevice → Dict String → Option String → Debugger → Source × List Effect
unfolding slot_has_builtin_jtag try_probes builtin_or
detect_slot_jtag host label usb psm prefix d =
    let probes = try_probes host psm d.probes in
    if slot_has_builtin_jtag usb
    then builtin_or label (detect_chip host none prefix) probes
    else probes

is_hid : (String → String) → UsbDevice → Bool
unfolding is_within
is_hid lower d =
    is_within "hid" (lower d.product)
    || is_within "keyboard" (lower d.product)
    || is_within "mouse" (lower d.product)

commas : List String → List String
commas [] = []
commas (t ∷ []) = t ∷ []
commas (t ∷ u ∷ ts) = t ∷ ", " ∷ commas (u ∷ ts)

warning_of : List String → Option String
unfolding commas
warning_of [] = none
warning_of (n ∷ ns) = some (texts ("Not flashable — USB in HID mode: " ∷ commas (n ∷ ns)))

-- `_slot_info`, in what it does not copy from the slot.
pub record Info : Type 0 where
  pub slot : Slot
  pub has_gpio : Bool
  pub debugging : Bool
  pub debug_chip : Option String
  pub debug_gdb_port : Option ℕ
  pub usb_warning : Option String
  pub is_probe : Bool

has_pin : Option ℕ → Bool
has_pin none = false
has_pin (some p) = true

with_session : Slot → Option String → Option Session → Info
unfolding has_pin is_probe_slot
with_session s warning none = record {
  slot = s;
  has_gpio = has_pin s.gpio_boot;
  debugging = false;
  debug_chip = none;
  debug_gdb_port = none;
  usb_warning = warning;
  is_probe = is_probe_slot s.usb_devices;
}
with_session s warning (some x) = record {
  slot = s;
  has_gpio = has_pin s.gpio_boot;
  debugging = true;
  debug_chip = some x.chip;
  debug_gdb_port = some x.gdb_port;
  usb_warning = warning;
  is_probe = is_probe_slot s.usb_devices;
}

-- The sessions are those of the debug controller, and `lower` is `str.lower`; the slot has a label. With it, whether
-- the proxy is started.
pub slot_info : (String → String) → ℕ → Debugger → Slot → Info × Bool
unfolding clear_flapping is_hid warning_of with_session
slot_info lower now d s =
    let (s1, restart) = clear_flapping now s in
    let hid = keep (is_hid lower) s1.usb_devices in
    (with_session s1 (warning_of (map (λ u. u.product) hid)) (get s1.label d.sessions), restart)
