-- ===== src/Slots/Config/Examples.antt =====
-- The configuration code at concrete inputs: tests, and the theorems applied.
use embedded_ai_harness.Prelude.{
  ℕ, ◌≤◌, ◌<◌, ◌≡◌, refl, String, true, false, none, some, List, [], ◌∷◌, inl,
}
use embedded_ai_harness.Prelude.Dict.{get, put}
use embedded_ai_harness.Slots.{Slot, sample_slot}
use embedded_ai_harness.Slots.Config.{
  SlotDef, SlotPrefix, Globals, make_slot, make_dynamic_slot, load_slots, next_available_port,
  find_fixed_slot_for_key, result, type_error, with_text, applies, longest_first, insert_by_length,
  first_match, used_ports, member, first_free, largest,
}
use embedded_ai_harness.Slots.Config.Ports
use embedded_ai_harness.Slots.Config.Match

abbrev at_load : Globals
at_load = record {
  slots = [];
  slot_prefixes = [];
  gpio_boot = none;
  gpio_en = none;
  auto_label_counter = 0;
}

abbrev prefixes : List SlotPrefix
prefixes =
    record { label = "A"; prefix = some "0:1.1"; placeholder_key = "_fixed_A" }
    ∷ record { label = "B"; prefix = some "0:1.1.4"; placeholder_key = "_fixed_B" }
    ∷ []

abbrev two_slots : Globals
two_slots = record at_load {
  slots = ("_fixed_A", sample_slot) ∷ ("_fixed_B", sample_slot) ∷ [];
  slot_prefixes = prefixes;
}

sub_hub : find_fixed_slot_for_key "usb-0:1.1.4:1.0" two_slots ≡ result (some "_fixed_B")
unfolding find_fixed_slot_for_key with_text longest_first insert_by_length first_match applies get
sub_hub = refl

abbrev with_texts : List (String × SlotPrefix)
with_texts =
    ("0:1.1", record { label = "A"; prefix = some "0:1.1"; placeholder_key = "_fixed_A" })
    ∷ ("0:1.1.4", record { label = "B"; prefix = some "0:1.1.4"; placeholder_key = "_fixed_B" })
    ∷ []

abbrev catch_all : SlotPrefix
catch_all = record { label = "C"; prefix = none; placeholder_key = "_fixed_C" }

find_fixed_slot-crash_example :
    find_fixed_slot_for_key "usb-0:1.1.4:1.0"
      (record two_slots { slot_prefixes = catch_all ∷ prefixes })
    ≡ type_error
find_fixed_slot-crash_example =
    Match.find_fixed_slot-crash "usb-0:1.1.4:1.0"
      (record two_slots { slot_prefixes = catch_all ∷ prefixes }) catch_all (inl refl) refl

abbrev no_ports : String → SlotDef
no_ports label = record {
  label = label;
  usb_prefix = none;
  tcp_port = none;
  gdb_port = none;
  openocd_telnet_port = none;
}

abbrev colliding : List SlotDef
colliding = no_ports "A" ∷ no_ports "B" ∷ []

abbrev slot_b : Slot
slot_b = record (make_slot "_fixed_B" (some "B") none none none at_load).1 { usb_prefix = none }

slot_b_loaded : get "_fixed_B" (load_slots colliding [] at_load).1 ≡ some slot_b
unfolding load_slots get put make_slot
slot_b_loaded = refl

next_available_port_example :
    (member
        (next_available_port 4001 (λ s. s.tcp_port) two_slots.slots)
        (used_ports (λ s. s.tcp_port) two_slots.slots)
      ≡ false)
    × (4001 ≤ next_available_port 4001 (λ s. s.tcp_port) two_slots.slots)
    × ((q : ℕ)
        → 4001 ≤ q
        → q < next_available_port 4001 (λ s. s.tcp_port) two_slots.slots
        → member q (used_ports (λ s. s.tcp_port) two_slots.slots) ≡ true)
next_available_port_example = Ports.next_available_port_lem 4001 (λ s. s.tcp_port) two_slots.slots

after_4001 : next_available_port 4001 (λ s. s.tcp_port) two_slots.slots ≡ 4002
unfolding next_available_port first_free member used_ports largest
after_4001 = refl

dynamic_label : (make_dynamic_slot "usb-0:1.7" at_load).1.label ≡ "AUTO-1"
unfolding make_dynamic_slot
dynamic_label = refl
