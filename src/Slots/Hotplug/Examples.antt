-- ===== src/Slots/Hotplug/Examples.antt =====
-- The hotplug handler at concrete events: tests, and the theorems applied.
use embedded_ai_harness.Prelude.{ℕ, ◌≡◌, refl, true, false, none, some, [], ◌∷◌, keep}
use embedded_ai_harness.Prelude.Dict.{pop}
use embedded_ai_harness.Slots.{Slot, sample_slot, idle}
use embedded_ai_harness.Slots.Usb.{usb_device_for_slot, slot_key_to_usb_device}
use embedded_ai_harness.Slots.Hotplug.{
  Env, Event, Portal, unbind, recover_without_gpio, accept_event, record_event, clear_flapping,
  detect_flapping, start_flap_recovery, on_action, on_add, on_remove, is_quiet,
}
use embedded_ai_harness.Slots.Hotplug.Storms

abbrev pub env_at : ℕ → Env
env_at t = record {
  now = t;
  stamp = t;
  host_ip = "10.0.0.2";
  exists = λ _. true;
  is_alive = λ _. false;
  udev = λ _. some "1-1.3";
  scan = λ _. [];
}

abbrev plugged : Slot
plugged = record sample_slot {
  present = true;
  devnode = some "/dev/ttyACM0";
  devnodes = ("usb-0:1.3:1.0", some "/dev/ttyACM0") ∷ [];
  state = idle;
}

-- Nine events in the last nine seconds.
abbrev stormy : Slot
stormy = record plugged {
  event_times = 1000 ∷ 2000 ∷ 3000 ∷ 4000 ∷ 5000 ∷ 6000 ∷ 7000 ∷ 8000 ∷ 9000 ∷ [];
}

tenth_event :
    (accept_event (env_at 9500) "SLOT1" "remove" "usb-0:1.3:1.0" none false stormy).1
    ≡ unbind "1-1.3" ∷ recover_without_gpio "SLOT1" "1-1.3" ∷ []
unfolding accept_event record_event keep clear_flapping detect_flapping start_flap_recovery
    on_action on_remove usb_device_for_slot slot_key_to_usb_device is_quiet pop
tenth_event = refl

flaps :
    (accept_event (env_at 9500) "SLOT1" "add" "usb-0:1.3:1.0" none false stormy).0.flapping ≡ true
unfolding accept_event record_event keep clear_flapping detect_flapping start_flap_recovery
    on_action on_add usb_device_for_slot slot_key_to_usb_device is_quiet pop
flaps = refl

abbrev portal : Portal
portal = record {
  globals = record {
    slots = ("_fixed_SLOT1", stormy) ∷ [];
    slot_prefixes =
        record { label = "SLOT1"; prefix = some "0:1.3"; placeholder_key = "_fixed_SLOT1" } ∷ [];
    gpio_boot = none;
    gpio_en = none;
    auto_label_counter = 0;
  };
  seq_counter = 9;
  sessions = [];
}

abbrev pub unplug : Event
unplug = record {
  action = "remove";
  devnode = some "/dev/ttyACM0";
  id_path = "usb-0:1.3:1.0";
  devpath = "";
}
