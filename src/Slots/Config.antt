-- ===== src/Slots/Config.antt =====
-- pi/portal.py: how slots come to be. `load_config` from the entries of testbench.json,
-- `_make_slot` with its free ports, and the slot that a USB path belongs to.
pub mod Ports
pub mod Match
mod Examples
use Prim.Native.String.{count, ◌++◌ as str_append}
use text.Mathlib.Text.{find?}
use embedded_ai_harness.Prelude.{
  ℕ, zero, suc, ◌+◌, ◌/◌, ◌%◌, max, String, Bool, true, false, ◌||◌, Option, none, some, List, [],
  ◌∷◌, ◌++◌, not, ◌&&◌, leb, if◌then◌else◌, ◌==◌, str_eq,
}
use embedded_ai_harness.Prelude.Dict.{Dict, get, put}
use embedded_ai_harness.Slots.{Slot, absent}

-- An entry of the "slots" of testbench.json; a number that is missing is `none`.
pub record SlotDef : Type 0 where
  pub label : String
  pub usb_prefix : Option String
  pub tcp_port : Option ℕ
  pub gdb_port : Option ℕ
  pub openocd_telnet_port : Option ℕ

-- An entry of `_global_config["slot_prefixes"]`.
pub record SlotPrefix : Type 0 where
  pub label : String
  pub prefix : Option String
  pub placeholder_key : String

-- The module's globals that this code reads or writes.
pub record Globals : Type 0 where
  pub slots : Dict Slot
  pub slot_prefixes : List SlotPrefix
  pub gpio_boot : Option ℕ
  pub gpio_en : Option ℕ
  pub auto_label_counter : ℕ

abbrev pub tcp_port_base : ℕ
tcp_port_base = 4001

abbrev pub gdb_port_base : ℕ
gdb_port_base = 3333

abbrev pub telnet_port_base : ℕ
telnet_port_base = 4444

pub member : ℕ → List ℕ → Bool
member p [] = false
member p (x ∷ xs) = p == x || member p xs

-- The values of one port attribute over all slots, without 0 (a port that is not set).
pub used_ports : (Slot → ℕ) → Dict Slot → List ℕ
used_ports attr [] = []
used_ports attr ((k, s) ∷ rest) =
    let ports = used_ports attr rest in if attr s == 0 then ports else attr s ∷ ports

pub largest : List ℕ → ℕ
largest [] = 0
largest (x ∷ xs) = max x (largest xs)

-- `while port in used: port += 1`, with fuel
pub first_free : ℕ → ℕ → List ℕ → ℕ
first_free zero port used = port
first_free (suc fuel) port used =
    let further = first_free fuel (port + 1) used in if member port used then further else port

-- Past the largest port in use every port is free, so that many rounds are enough.
pub next_available_port : ℕ → (Slot → ℕ) → Dict Slot → ℕ
next_available_port base attr slots =
    let used = used_ports attr slots in first_free (suc (largest used)) base used

abbrev pub digit : ℕ → String
digit d =
    if d == 0
    then "0"
    else if d == 1
    then "1"
    else if d == 2
    then "2"
    else if d == 3
    then "3"
    else if d == 4
    then "4"
    else if d == 5
    then "5"
    else if d == 6
    then "6"
    else if d == 7
    then "7"
    else if d == 8
    then "8"
    else "9"

-- `str(n)`, with fuel (a number has fewer digits than its value plus one)
unfoldable pub decimal : ℕ → ℕ → String
decimal zero n = ""
decimal (suc fuel) n =
    let front = decimal fuel (n / 10) in
    if leb 10 n then str_append front (digit (n % 10)) else digit n

unfoldable pub next_label : Globals → Globals × String
unfolding decimal
next_label g =
    let n = g.auto_label_counter + 1 in
    (record g { auto_label_counter = n }, str_append "AUTO-" (decimal (suc n) n))

-- `if not port: port = _next_available_port(…)`
abbrev or_next : Option ℕ → ℕ → (Slot → ℕ) → Dict Slot → ℕ
or_next none base attr slots = next_available_port base attr slots
or_next (some p) base attr slots = if p == 0 then next_available_port base attr slots else p

-- `if not label: label = _next_label()`
or_label : Option String → Globals → Globals × String
unfolding next_label
or_label none g = next_label g
or_label (some l) g = if str_eq l "" then next_label g else (g, l)

unfoldable pub make_slot :
    String → Option String → Option ℕ → Option ℕ → Option ℕ → Globals → Globals × Slot
unfolding or_label
make_slot slot_key label tcp gdb telnet g =
    let (g', name) = or_label label g in
    (
      g',
      record {
        label = name;
        slot_key = slot_key;
        tcp_port = or_next tcp tcp_port_base (λ s. s.tcp_port) g.slots;
        gdb_port = or_next gdb gdb_port_base (λ s. s.gdb_port) g.slots;
        openocd_telnet_port = or_next telnet telnet_port_base (λ s. s.openocd_telnet_port) g.slots;
        gpio_boot = g.gpio_boot;
        gpio_en = g.gpio_en;
        present = false;
        running = false;
        pid = none;
        devnode = none;
        devnodes = [];
        seq = 0;
        last_action = none;
        last_event_ts = none;
        url = none;
        last_error = none;
        flapping = false;
        state = absent;
        event_times = [];
        recovering = false;
        recover_retries = 0;
        auto_debug_chip = none;
        jtag_slot = none;
        monitor_port = none;
        gpio_wired = none;
        usb_prefix = none;
        usb_devices = [];
      },
    )

unfoldable pub make_dynamic_slot : String → Globals → Globals × Slot
unfolding make_slot
make_dynamic_slot slot_key g = make_slot slot_key none none none none g

-- The loop of `load_config` over the slot entries. The result grows beside the global `slots`, which
-- `main` replaces only when the function has returned.
unfoldable pub load_slots : List SlotDef → Dict Slot → Globals → Globals × Dict Slot
load_slots [] result g = (g, result)
load_slots (d ∷ rest) result g =
    let key = str_append "_fixed_" d.label in
    let (g', slot) = make_slot key (some d.label) d.tcp_port d.gdb_port d.openocd_telnet_port g in
    let entry : SlotPrefix = record {
      label = d.label;
      prefix = d.usb_prefix;
      placeholder_key = key;
    } in
    load_slots rest (put key (record slot { usb_prefix = d.usb_prefix }) result)
      (record g' { slot_prefixes = g'.slot_prefixes ++ entry ∷ [] })

-- The prefixes with their texts; `none` where one has no text, for there `len(None)` raises.
pub with_text : List SlotPrefix → Option (List (String × SlotPrefix))
with_text [] = some []
with_text (sp ∷ rest) = elim sp.prefix [
  | none ↦ none
  | some p ↦ elim (with_text rest) [ none ↦ none | some ps ↦ some ((p, sp) ∷ ps) ]
]

pub insert_by_length : String × SlotPrefix → List (String × SlotPrefix) → List (String × SlotPrefix)
insert_by_length x [] = x ∷ []
insert_by_length x (y ∷ ys) =
    if leb (count y.0) (count x.0) then x ∷ y ∷ ys else y ∷ insert_by_length x ys

-- `sorted(…, key=len, reverse=True)`, which keeps the order of prefixes of one length
pub longest_first : List (String × SlotPrefix) → List (String × SlotPrefix)
longest_first [] = []
longest_first (x ∷ xs) = insert_by_length x (longest_first xs)

-- `part in text`
abbrev pub occurs : String → String → Bool
occurs part text = elim (find? text part) [ none ↦ false | some _ ↦ true ]

abbrev has_key : String → Dict Slot → Bool
has_key k d = elim (get k d) [ none ↦ false | some _ ↦ true ]

-- What the loop of `_find_fixed_slot_for_key` asks of one prefix.
pub applies : Dict Slot → String → String × SlotPrefix → Bool
applies slots slot_key (p, sp) =
    not (str_eq p "") && (occurs p slot_key && has_key sp.placeholder_key slots)

pub first_match : Dict Slot → String → List (String × SlotPrefix) → Option String
first_match slots slot_key [] = none
first_match slots slot_key (x ∷ xs) =
    if applies slots slot_key x then some (x.1).placeholder_key else first_match slots slot_key xs

-- The outcome of `_find_fixed_slot_for_key`: the TypeError, or the key of the slot, if any.
pub data Lookup : Type 0 where
  type_error : Lookup
  result : Option String → Lookup

unfoldable pub find_fixed_slot_for_key : String → Globals → Lookup
find_fixed_slot_for_key slot_key g = elim (with_text g.slot_prefixes) [
  | none ↦ type_error
  | some ps ↦ result (first_match g.slots slot_key (longest_first ps))
]
