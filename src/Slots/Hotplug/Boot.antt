-- ===== src/Slots/Hotplug/Boot.antt =====
-- pi/portal.py: the start of the portal (`main`) up to the scan for devices that are plugged in already
-- (`scan_existing_devices`), and the hotplug requests after it.
pub mod Served
mod Examples
use embedded_ai_harness.Prelude.{
  String, ℕ, Bool, true, false, not, ◌&&◌, Option, none, some, List, [], ◌∷◌, ◌++◌, if◌then◌else◌,
  ◌==◌, str_eq,
}
use embedded_ai_harness.Prelude.Dict.{Dict, get, put}
use embedded_ai_harness.Slots.{Slot, idle}
use embedded_ai_harness.Slots.Config.{SlotDef, Globals, load_slots}
use embedded_ai_harness.Slots.Usb.{or_empty}
use embedded_ai_harness.Slots.Services.{Machine, Step, start_proxy}
use embedded_ai_harness.Slots.Hotplug.{Env, Event, Portal, locate, handle_hotplug}

-- A device below /dev, with what udevadm prints of it: one pair for each line with a "=", and `none`
-- where it fails.
pub record Node : Type 0 where
  pub devnode : String
  pub properties : Option (List (String × String))

pub record Boot : Type 0 where
  pub globals : Globals
  pub steps : List Step
  -- the slots whose thread `_bg_boot_debug` is started
  pub detections : List String

-- What is asked of the outside: the answers to `start_proxy` for each device, and the measured wiring
-- by label.
pub record Outside : Type 0 where
  pub host_ip : String
  pub machine : String → Machine
  pub wiring : Dict (Option Bool)

pub props_of : List (String × String) → Dict String → Dict String
props_of [] d = d
props_of ((k, v) ∷ rest) d = props_of rest (put k v d)

-- `id_path if id_path else devpath`; "" also where udevadm fails.
pub slot_key_of : Option (List (String × String)) → String
unfolding props_of
slot_key_of none = ""
slot_key_of (some lines) =
    let props = props_of lines [] in
    let id_path = or_empty (get "ID_PATH" props) in
    if str_eq id_path "" then or_empty (get "DEVPATH" props) else id_path

pub with_url : String → Slot → Slot
with_url host_ip s =
    if s.tcp_port == 0
    then s
    else record s { url = some (record { host = host_ip; port = s.tcp_port }) }

-- What the scan records of a device on its slot.
pub record_node : String → String → String → Slot → Slot
unfolding with_url
record_node host_ip slot_key devnode s = with_url host_ip (record s {
  devnodes = put slot_key (some devnode) s.devnodes;
  present = true;
  devnode = if str_eq (or_empty s.devnode) "" then some devnode else s.devnode;
  state = idle;
})

-- The proxy, where it does not run, and whether the detection is started.
pub bring_up : Machine → Slot → Slot × List Step × Bool
bring_up m s =
    if s.running
    then (s, [], false)
    else let (s', ok, steps) = start_proxy m s in
      (s', steps, s'.running && (not (s'.gdb_port == 0) && not (str_eq s'.label "")))

-- `none` is the exception of the lookup, which nothing catches.
pub place : Outside → String → String → Boot → Option (Globals × String × Slot) → Option Boot
unfolding bring_up record_node
place o devnode slot_key b none = none
place o devnode slot_key b (some (g, key, s)) =
    let (s', steps, detects) =
      bring_up (o.machine devnode) (record_node o.host_ip slot_key devnode s) in
    some (record {
      globals = record g { slots = put key s' g.slots };
      steps = b.steps ++ steps;
      detections = if detects then b.detections ++ key ∷ [] else b.detections;
    })

pub scan_node : Outside → Node → Boot → Option Boot
unfolding place slot_key_of
scan_node o n b =
    let slot_key = slot_key_of n.properties in
    if str_eq slot_key "" then some b else place o n.devnode slot_key b (locate slot_key b.globals)

-- `scan_existing_devices`, for the devices in the order of their names.
pub scan_existing_devices : Outside → List Node → Boot → Option Boot
unfolding scan_node
scan_existing_devices o [] b = some b
scan_existing_devices o (n ∷ ns) b = elim (scan_node o n b) [
  | none ↦ none
  | some b1 ↦ scan_existing_devices o ns b1
]

-- The wiring that was measured before the restart.
pub reload_wiring : Dict (Option Bool) → Slot → Slot
reload_wiring wiring s = elim (get s.label wiring) [
  | none ↦ s
  | some wired ↦ record s { gpio_wired = wired }
]

pub prepared : Outside → Dict Slot → Dict Slot
unfolding with_url reload_wiring
prepared o [] = []
prepared o ((k, s) ∷ rest) = (k, with_url o.host_ip (reload_wiring o.wiring s)) ∷ prepared o rest

pub configured : Outside → List SlotDef → Globals → Globals
unfolding prepared
configured o defs g =
    let (g', loaded) = load_slots defs [] g in record g' { slots = prepared o loaded }

-- `main` up to the scan.
pub start_up : Outside → List SlotDef → List Node → Globals → Option Boot
unfolding configured scan_existing_devices
start_up o defs nodes g =
    scan_existing_devices o nodes
      (record { globals = configured o defs g; steps = []; detections = [] })

-- Hotplug requests, one after the other.
pub handle_all : List (Env × Option Event) → Portal → Portal
handle_all [] p = p
handle_all ((env, e) ∷ rest) p = handle_all rest (handle_hotplug env e p).0

-- The portal that a start leaves.
pub serving : ℕ → List String → Boot → Portal
serving seq sessions b = record { globals = b.globals; seq_counter = seq; sessions = sessions }
