-- ===== src/Slots/Recovery/Wiring.antt =====
-- pi/portal.py: the measurement whether a slot's BOOT and EN pins are wired (`test_gpio_wiring`), and its
-- record across a restart. The texts of `detail` are left out.
pub mod Released
use embedded_ai_harness.Prelude.{
  ℕ, String, Bool, true, false, ◌&&◌, Option, none, some, List, [], ◌∷◌, if◌then◌else◌, str_eq,
}
use embedded_ai_harness.Prelude.Dict.{Dict, get, put}
use embedded_ai_harness.Slots.{Slot}
use embedded_ai_harness.Slots.Usb.{or_empty}
use embedded_ai_harness.Slots.Hotplug.{Env, stop_proxy}
use embedded_ai_harness.Slots.Services.{Machine, start_proxy}
use embedded_ai_harness.Slots.Recovery.{
  Host, Pins, drive, gpio_set, release_slot_gpio, download_mode_reached,
}

pub data Reply : Type 0 where
  no_pins en_failed : Reply
  -- en_wired, boot_wired
  measured : Bool → Bool → Reply

abbrev then_set : Host → ℕ → Bool → Pins × Bool → Pins × Bool
then_set host pin v (b, false) = (b, false)
then_set host pin v (b, true) = gpio_set host pin (drive v) b

-- EN low and high; an exception ends it.
pub pulse : Host → ℕ → Pins × Bool → Pins × Bool
unfolding gpio_set
pulse host en r = then_set host en true (then_set host en false r)

abbrev halted : Env → Bool → Slot → Slot
halted env true s = (stop_proxy env s).0
halted env false s = s

abbrev resumed : Machine → Bool → Slot → Slot
resumed m true s = (start_proxy m s).0
resumed m false s = s

-- Whether BOOT, held across the reset, brings the device to download mode; `r` is what the pins' calls left.
abbrev seen : Host → Slot → Pins × Bool → Bool
seen host s (b, false) = false
seen host s (b, true) = (download_mode_reached host (or_empty s.devnode)).0

-- The test of BOOT, from the proxy's stop to its start.
pub test_boot : Host → Machine → Env → ℕ → ℕ → Slot → Pins → Slot × Pins × Bool
unfolding pulse release_slot_gpio
test_boot host m env boot en s b =
    let s1 = halted env s.running s in
    let r = pulse host en (gpio_set host boot (drive false) b) in
    let wired = seen host s1 r in
    let (s2, b2, ok) = release_slot_gpio host s1 r.0 in (resumed m s.running s2, b2, wired)

abbrev noted : Bool → Bool → Slot → Pins → Slot × Pins × Reply
noted en_wired boot_wired s b =
    (record s { gpio_wired = some (en_wired && boot_wired) }, b, measured en_wired boot_wired)

-- With the pins, after the pulse of EN; `banner` says whether the ROM was heard.
after_en : Host → Machine → Env → Bool → Option ℕ → ℕ → Slot → Pins × Bool → Slot × Pins × Reply
unfolding test_boot
after_en host m env banner boot en s (b, false) = (s, b, en_failed)
after_en host m env false boot en s (b, true) = noted false false s b
after_en host m env true none en s (b, true) = noted true false s b
after_en host m env true (some boot) en s (b, true) =
    let (s1, b1, wired) = test_boot host m env boot en s b in noted true wired s1 b1

measure : Host → Machine → Env → Bool → Option ℕ → Option ℕ → Slot → Pins → Slot × Pins × Reply
unfolding after_en pulse
measure host m env banner none none s b = (s, b, no_pins)
measure host m env banner (some boot) none s b = noted false false s b
measure host m env banner boot (some en) s b =
    after_en host m env banner boot en s (pulse host en (b, true))

-- `test_gpio_wiring`
pub test_gpio_wiring : Host → Machine → Env → Bool → Slot → Pins → Slot × Pins × Reply
unfolding measure
test_gpio_wiring host m env banner s b = measure host m env banner s.gpio_boot s.gpio_en s b

-- GPIO_WIRING_FILE: of a record, its `gpio_wired`.
save_gpio_wiring : String → Bool → Dict Bool → Dict Bool
unfolding put
save_gpio_wiring label wired file = put label wired file

abbrev with_record : Slot → Option Bool → Slot
with_record s none = s
with_record s (some wired) = record s { gpio_wired = some wired }

-- The start of the portal, for one slot.
load_gpio_wiring : Dict Bool → Slot → Slot
unfolding get
load_gpio_wiring file s = with_record s (get s.label file)
