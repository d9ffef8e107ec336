-- ===== src/Slots/Recovery/Boot.antt =====
-- pi/portal.py: what the recovery does to the BOOT pin, and what its failures leave.
use embedded_ai_harness.Prelude.{
  ℕ, ◌≡◌, ◌≢◌, refl, sym, subst, ◌∙◌, String, Bool, true, false, Option, none, some, if◌then◌else◌,
  ==_iff, arith,
}
use embedded_ai_harness.Slots.{Slot, flapping, download_mode, idle}
use embedded_ai_harness.Slots.Usb.{or_empty}
use embedded_ai_harness.Slots.Recovery.{
  Line, free, pulled_up, driven, Pins, Level, drive, high_z, Fault, no_fault, early, late, Host,
  write, on_line, gpio_set, then_high, pulse_en, release_slot_gpio, download_mode_reached, moved,
  recovered, rebound, hold_boot, recover_with_gpio,
}

-- EN is another pin than BOOT.
abbrev pub IsApart : Option ℕ → ℕ → Type 0
IsApart none boot = Unit
IsApart (some en) boot = en ≢ boot

on_line-other :
    (pin other : ℕ) (level : Level) (f : Fault) (l : Line) (b : Pins)
    → pin ≢ other
    → (on_line pin level f l b).0.line other ≡ b.line other
on_line-other pin other high_z no_fault l b h = ground (arith, ==_iff other pin)
on_line-other pin other high_z early l b h = refl
on_line-other pin other high_z late l b h = ground (arith, ==_iff other pin)
on_line-other pin other (drive v) no_fault (driven w) b h = ground (arith, ==_iff other pin)
on_line-other pin other (drive v) early (driven w) b h = refl
on_line-other pin other (drive v) late (driven w) b h = refl
on_line-other pin other (drive v) no_fault free b h = ground (arith, ==_iff other pin)
on_line-other pin other (drive v) early free b h = refl
on_line-other pin other (drive v) late free b h = ground (arith, ==_iff other pin)
on_line-other pin other (drive v) no_fault pulled_up b h = ground (arith, ==_iff other pin)
on_line-other pin other (drive v) early pulled_up b h = refl
on_line-other pin other (drive v) late pulled_up b h = ground (arith, ==_iff other pin)

pub gpio_set-other :
    (host : Host) (pin other : ℕ) (level : Level) (b : Pins)
    → pin ≢ other
    → (gpio_set host pin level b).0.line other ≡ b.line other
unfolding gpio_set
gpio_set-other host pin other level b h = on_line-other pin other level _ (b.line pin) b h

then_high-other :
    (host : Host) (en other : ℕ) (b : Pins) (ok : Bool)
    → en ≢ other
    → (then_high host en (b, ok)).line other ≡ b.line other
then_high-other host en other b false h = refl
then_high-other host en other b true h = gpio_set-other host en other (drive true) b h

pub pulse_en-other :
    (host : Host) (en : Option ℕ) (other : ℕ) (b : Pins)
    → IsApart en other
    → (pulse_en host en b).line other ≡ b.line other
unfolding pulse_en
pulse_en-other host none other b h = refl
pulse_en-other host (some en) other b h =
    then_high-other host en other (gpio_set host en (drive false) b).0
      (gpio_set host en (drive false) b).1 h
    ∙ gpio_set-other host en other (drive false) b h

-- A call for a pin that does not fail.
abbrev line_for : Level → Line
line_for high_z = pulled_up
line_for (drive v) = driven v

on_line-ok :
    (pin : ℕ) (level : Level) (l : Line) (b : Pins)
    → on_line pin level no_fault l b ≡ (write pin (line_for level) b, true)
on_line-ok pin high_z l b = refl
on_line-ok pin (drive v) free b = refl
on_line-ok pin (drive v) pulled_up b = refl
on_line-ok pin (drive v) (driven w) b = refl

gpio_set-ok :
    (host : Host) (pin : ℕ) (level : Level) (b : Pins)
    → host.fault b.calls pin ≡ no_fault
    → gpio_set host pin level b ≡ (write pin (line_for level) b, true)
unfolding gpio_set
gpio_set-ok host pin level b h = rw h (on_line-ok pin level (b.line pin) b)

pub write-line : (pin : ℕ) (l : Line) (b : Pins) → (write pin l b).line pin ≡ l
write-line pin l b = ground (arith, ==_iff pin pin)

-- Where no call for the BOOT pin fails: releasing a slot leaves BOOT an input with its pull-up, and the slot
-- idle, whatever happens to EN.
pub release-boot :
    (host : Host) (s : Slot) (b : Pins) (boot : ℕ)
    → s.gpio_boot ≡ some boot
    → IsApart s.gpio_en boot
    → ((n : ℕ) → host.fault n boot ≡ no_fault)
    → release_slot_gpio host s b ≡ (
      record s { state = idle; recover_retries = 0 },
      pulse_en host s.gpio_en (write boot pulled_up b),
      true,
    )
unfolding release_slot_gpio
release-boot host s b boot e a h = rw (e, gpio_set-ok host boot high_z b (h b.calls)) refl

-- The slot's state, the BOOT pin, and whether a recovery still runs.
abbrev Ends : Bool → ℕ → Slot × Pins → Type 0
Ends reached boot (s, b) =
    (s.state ≡ (if reached then download_mode else flapping))
    × (b.line boot ≡ (if reached then driven false else pulled_up))
    × (s.recovering ≡ false)

recovered-boot :
    (host : Host) (boot : ℕ) (reached : Bool) (detail : String) (s : Slot) (b : Pins)
    → s.gpio_boot ≡ some boot
    → s.recovering ≡ false
    → IsApart s.gpio_en boot
    → ((n : ℕ) → host.fault n boot ≡ no_fault)
    → b.line boot ≡ driven false
    → Ends reached boot (recovered host boot (reached, detail) s b)
unfolding recovered
recovered-boot host boot true detail s b e k a h low = (refl, low, k)
recovered-boot host boot false detail s b e k a h low = rw (release-boot host s b boot e a h) (
  refl,
  pulse_en-other host s.gpio_en boot (write boot pulled_up b) a ∙ write-line boot pulled_up b,
  k,
)

rebound-boot :
    (host : Host) (usb : String) (boot : ℕ) (s : Slot) (b : Pins)
    → s.gpio_boot ≡ some boot
    → IsApart s.gpio_en boot
    → ((n : ℕ) → host.fault n boot ≡ no_fault)
    → b.line boot ≡ driven false
    → Ends
        (download_mode_reached host (or_empty (moved host usb s))).0
        boot
        (rebound host usb boot s b)
unfolding rebound
rebound-boot host usb boot s b e a h low =
    let found = download_mode_reached host (or_empty (moved host usb s)) in
    let s1 : Slot = record s { recovering = false; flapping = false; devnode = moved host usb s } in
    recovered-boot host boot found.0 found.1 s1 b e refl a h low

hold_boot-boot :
    (host : Host) (usb : String) (s : Slot) (b : Pins) (boot : ℕ)
    → s.gpio_boot ≡ some boot
    → IsApart s.gpio_en boot
    → ((n : ℕ) → host.fault n boot ≡ no_fault)
    → let (s', b', rebinds) = hold_boot host usb s b (some boot) in
      Ends (download_mode_reached host (or_empty (moved host usb s))).0 boot (s', b')
unfolding hold_boot
hold_boot-boot host usb s b boot e a h =
    let b1 = pulse_en host s.gpio_en (write boot (driven false) b) in
    let low : b1.line boot ≡ driven false =
      pulse_en-other host s.gpio_en boot (write boot (driven false) b) a
      ∙ write-line boot (driven false) b in
    rw (gpio_set-ok host boot (drive false) b (h b.calls))
      (rebound-boot host usb boot s b1 e a h low)

-- Where EN is another pin than BOOT, and no call for BOOT fails, whatever happens to EN: once `_recover_with_gpio` is through, no
-- recovery is marked as running, and BOOT is held low exactly where esptool has reached the device and the
-- slot's state is `download_mode`; else BOOT is back to an input with its pull-up, and the slot is flapping.
pub recover_with_gpio-boot :
    (host : Host) (usb : String) (s : Slot) (b : Pins) (boot : ℕ)
    → s.gpio_boot ≡ some boot
    → IsApart s.gpio_en boot
    → ((n : ℕ) → host.fault n boot ≡ no_fault)
    → let reached = (download_mode_reached host (or_empty (moved host usb s))).0 in
      let (s', b', rebinds) = recover_with_gpio host usb s b in
      (s'.state ≡ (if reached then download_mode else flapping))
      × (b'.line boot ≡ (if reached then driven false else pulled_up))
      × (s'.recovering ≡ false)
unfolding recover_with_gpio
recover_with_gpio-boot host usb s b boot e a h =
    subst
      (λ o.
        let (s', b', rebinds) = hold_boot host usb s b o in
        Ends (download_mode_reached host (or_empty (moved host usb s))).0 boot (s', b'))
      (sym e) (hold_boot-boot host usb s b boot e a h)
