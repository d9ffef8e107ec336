-- ===== src/Slots/Recovery.antt =====
-- pi/portal.py: the recovery of a slot whose device keeps connecting and disconnecting, with the BOOT and EN
-- pins that it drives. A recovery runs without interruption from its wait on; the calls of `_gpio_set` are
-- counted, and each may raise.
pub mod Wiring
pub mod Boot
pub mod Retries
pub mod Requests
mod Examples
use embedded_ai_harness.Prelude.{
  ℕ, suc, ◌+◌, String, Bool, true, false, not, ◌||◌, Option, none, some, List, [], ◌∷◌, leb,
  if◌then◌else◌, ◌==◌, str_eq,
}
use embedded_ai_harness.Slots.{Slot, idle, flapping, download_mode}
use embedded_ai_harness.Slots.Usb.{or_empty, usb_device_for_slot, texts}
use embedded_ai_harness.Slots.Services.{Esptool, timed_out, raised, exited, number}
use embedded_ai_harness.Slots.Hotplug.{Env, Effect, start_flap_recovery}

-- A pin in `_gpio_requests`, by its direction; `free` is one that is not requested.
pub data Line : Type 0 where
  free pulled_up : Line
  driven : Bool → Line

pub record Pins : Type 0 where
  pub line : ℕ → Line
  pub calls : ℕ

-- The value that `_gpio_set` is given: 0 and 1, or "z".
pub data Level : Type 0 where
  drive : Bool → Level
  high_z : Level

-- Whether a call of `_gpio_set` raises, before or after it has released the pin's old request.
pub data Fault : Type 0 where
  no_fault early late : Fault

pub record Host : Type 0 where
  -- os.path.exists, `_gpio_set` by the number of the call and the pin, `_devnode_from_usb_device`, esptool
  pub exists : String → Bool
  pub fault : ℕ → ℕ → Fault
  pub devnode_of : String → Option String
  pub esptool : String → Esptool

abbrev pub write : ℕ → Line → Pins → Pins
write pin new b = record { line = λ p. if p == pin then new else b.line p; calls = suc b.calls }

abbrev pub counted : Pins → Pins
counted b = record b { calls = suc b.calls }

-- A call that requests the pin anew.
abbrev requested : ℕ → Line → Fault → Pins → Pins × Bool
requested pin new no_fault b = (write pin new b, true)
requested pin new early b = (counted b, false)
requested pin new late b = (write pin free b, false)

-- `set_value` on a pin that is an output.
abbrev set_value : ℕ → Bool → Fault → Pins → Pins × Bool
set_value pin v no_fault b = (write pin (driven v) b, true)
set_value pin v _ b = (counted b, false)

abbrev on_line : ℕ → Level → Fault → Line → Pins → Pins × Bool
on_line pin high_z f l b = requested pin pulled_up f b
on_line pin (drive v) f (driven w) b = set_value pin v f b
on_line pin (drive v) f _ b = requested pin (driven v) f b

-- `_gpio_set`: the pins, and whether it returned.
pub gpio_set : Host → ℕ → Level → Pins → Pins × Bool
gpio_set host pin level b = on_line pin level (host.fault b.calls pin) (b.line pin) b

abbrev then_high : Host → ℕ → Pins × Bool → Pins
then_high host en (b, false) = b
then_high host en (b, true) = (gpio_set host en (drive true) b).0

-- EN low and high, with an exception caught.
pub pulse_en : Host → Option ℕ → Pins → Pins
unfolding gpio_set
pulse_en host none b = b
pulse_en host (some en) b = then_high host en (gpio_set host en (drive false) b)

abbrev freed : Host → Slot → Pins × Bool → Slot × Pins × Bool
freed host s (b, false) = (s, b, false)
freed host s (b, true) =
    (record s { state = idle; recover_retries = 0 }, pulse_en host s.gpio_en b, true)

-- `_release_slot_gpio`: the slot, the pins, and `ok`.
pub release_slot_gpio : Host → Slot → Pins → Slot × Pins × Bool
unfolding gpio_set pulse_en
release_slot_gpio host s b = elim s.gpio_boot [
  | none ↦ (s, b, false)
  | some boot ↦ freed host s (gpio_set host boot high_z b)
]

abbrev outcome : Esptool → Bool × String
outcome timed_out = (false, "esptool timed out talking to the device")
outcome (raised e) = (false, texts ("could not run esptool: " ∷ e ∷ []))
outcome (exited true code out) = (true, out)
outcome (exited false code out) =
    (false, if str_eq out "" then texts ("esptool exited " ∷ code ∷ []) else out)

-- `_download_mode_reached`
pub download_mode_reached : Host → String → Bool × String
download_mode_reached host devnode =
    if str_eq devnode "" || not (host.exists devnode)
    then (
      false,
      texts (
          "no devnode ("
          ∷ (if str_eq devnode "" then "unknown" else devnode)
          ∷ ") after rebind"
          ∷ []),
    )
    else outcome (host.esptool devnode)

abbrev en_text : Option ℕ → String
en_text none = ""
en_text (some en) = texts (" (GPIO" ∷ number en ∷ ")" ∷ [])

abbrev failure : ℕ → Option ℕ → String → String
failure boot en detail = texts (
    "GPIO recovery did not reach download mode: "
    ∷ detail
    ∷ ". Either BOOT (GPIO"
    ∷ number boot
    ∷ ") and EN"
    ∷ en_text en
    ∷ " are not wired to this board, or it is unresponsive. Re-flash over USB or check the wiring."
    ∷ [])

-- `_devnode_from_usb_device(usb_device) or slot.get("devnode")`, where it names one.
abbrev moved : Host → String → Slot → Option String
moved host usb s =
    let new = or_empty (host.devnode_of usb) in if str_eq new "" then s.devnode else some new

-- The end of `_recover_with_gpio`: what esptool found out.
recovered : Host → ℕ → Bool × String → Slot → Pins → Slot × Pins
unfolding release_slot_gpio
recovered host boot (true, detail) s b =
    (record s { recover_retries = 0; state = download_mode; last_error = none }, b)
recovered host boot (false, detail) s b =
    let (s1, b1, ok) = release_slot_gpio host s b in
    (record s1 { state = flapping; last_error = some (failure boot s.gpio_en detail) }, b1)

-- After the rebind.
rebound : Host → String → ℕ → Slot → Pins → Slot × Pins
unfolding recovered download_mode_reached
rebound host usb boot s b =
    let s1 : Slot = record s { recovering = false; flapping = false; devnode = moved host usb s } in
    recovered host boot (download_mode_reached host (or_empty s1.devnode)) s1 b

abbrev held : Host → String → ℕ → Slot → Pins × Bool → Slot × Pins × List String
held host usb boot s (b, false) = (record s { recovering = false; state = flapping }, b, [])
held host usb boot s (b, true) =
    let (s', b') = rebound host usb boot s (pulse_en host s.gpio_en b) in (s', b', usb ∷ [])

hold_boot : Host → String → Slot → Pins → Option ℕ → Slot × Pins × List String
unfolding gpio_set rebound pulse_en
hold_boot host usb s b none = (record s { recovering = false; state = flapping }, counted b, [])
hold_boot host usb s b (some boot) = held host usb boot s (gpio_set host boot (drive false) b)

-- `_recover_with_gpio`: the slot, the pins, and the USB devices that were bound again. A BOOT pin that
-- is not there makes `_gpio_set` raise.
pub recover_with_gpio : Host → String → Slot → Pins → Slot × Pins × List String
unfolding hold_boot
recover_with_gpio host usb s b = hold_boot host usb s b s.gpio_boot

abbrev flap_max_retries : ℕ
flap_max_retries = 2

abbrev give_up_text : String
give_up_text =
    "Recovery failed after 2 attempts — needs manual intervention (re-flash with USB cable or add GPIO wiring)"

-- `_recover_without_gpio`: the slot, and the USB devices that were bound again.
pub recover_without_gpio : String → Slot → Slot × List String
recover_without_gpio usb s =
    if leb flap_max_retries s.recover_retries
    then (record s { recovering = false; state = flapping; last_error = some give_up_text }, [])
    else (
      record s {
        recover_retries = s.recover_retries + 1;
        recovering = false;
        flapping = false;
        event_times = [];
        last_error = none;
        state = idle;
      },
      usb ∷ [],
    )

abbrev known : Env → String → Slot → Option String → Slot × List Effect × Bool
known env key s none = (s, [], false)
known env key s (some usb) =
    let (s', es) =
      start_flap_recovery env key (record s { recover_retries = 0; flapping = true }) in
    (s', es, true)

-- `_handle_serial_recover` for a slot that was found; the last is `ok`.
handle_serial_recover : Env → String → Slot → Slot × List Effect × Bool
handle_serial_recover env key s = known env key s (usb_device_for_slot env.udev s)
