-- ===== src/Slots/Recovery/Wiring/Released.antt =====
-- pi/portal.py: what the measurement of the wiring leaves.
use embedded_ai_harness.Prelude.{
  ℕ, ◌≡◌, ◌⊎◌, refl, sym, ap, subst, ◌∙◌, Bool, true, false, ◌&&◌, Option, none, some, inl, inr,
}
use embedded_ai_harness.Slots.{Slot}
use embedded_ai_harness.Slots.Hotplug.{Env}
use embedded_ai_harness.Slots.Hotplug.Stopped.{stop_proxy-pins}
use embedded_ai_harness.Slots.Services.{Machine}
use embedded_ai_harness.Slots.Recovery.{Host, Pins, pulled_up, drive, no_fault, write, gpio_set}
use embedded_ai_harness.Slots.Recovery.Boot.{
  IsApart, gpio_set-other, pulse_en-other, release-boot, write-line,
}
use embedded_ai_harness.Slots.Recovery.Wiring.{
  Reply, measured, then_set, pulse, halted, test_boot, after_en, measure, test_gpio_wiring,
}

-- The record of the slot agrees with the reply.
abbrev IsNoted : Slot → Slot → Reply → Type 0
IsNoted s s' (measured en_wired boot_wired) = s'.gpio_wired ≡ some (en_wired && boot_wired)
IsNoted s s' _ = s' ≡ s

then_set-other :
    (host : Host) (pin other : ℕ) (v : Bool) (b : Pins) (ok : Bool)
    → IsApart (some pin) other
    → (then_set host pin v (b, ok)).0.line other ≡ b.line other
then_set-other host pin other v b false h = refl
then_set-other host pin other v b true h = gpio_set-other host pin other (drive v) b h

pulse-other :
    (host : Host) (en other : ℕ) (b : Pins) (ok : Bool)
    → IsApart (some en) other
    → (pulse host en (b, ok)).0.line other ≡ b.line other
unfolding pulse
pulse-other host en other b ok h =
    let r = then_set host en false (b, ok) in
    then_set-other host en other true r.0 r.1 h ∙ then_set-other host en other false b ok h

-- Where BOOT's calls do not fail, the test of BOOT leaves it an input with its pull-up.
test_boot-released :
    (host : Host) (m : Machine) (env : Env) (boot en : ℕ) (s : Slot) (b : Pins)
    → (halted env s.running s).gpio_boot ≡ some boot
    → IsApart (halted env s.running s).gpio_en boot
    → ((n : ℕ) → host.fault n boot ≡ no_fault)
    → (test_boot host m env boot en s b).1.line boot ≡ pulled_up
unfolding test_boot
test_boot-released host m env boot en s b e a h =
    let s1 = halted env s.running s in
    let b1 = (pulse host en (gpio_set host boot (drive false) b)).0 in
    ap (λ r. r.1.line boot) (release-boot host s1 b1 boot e a h)
    ∙ pulse_en-other host s1.gpio_en boot (write boot pulled_up b1) a
    ∙ write-line boot pulled_up b1

halted-pins :
    (env : Env) (b : Bool) (s : Slot)
    → ((halted env b s).gpio_boot ≡ s.gpio_boot) × ((halted env b s).gpio_en ≡ s.gpio_en)
halted-pins env true s = stop_proxy-pins env s
halted-pins env false s = (refl, refl)

-- What is left: the BOOT pin, and the slot's record.
abbrev pub Leaves : ℕ → Slot → Pins → Slot × Pins × Reply → Type 0
Leaves boot s b (s', b', r) =
    ((b'.line boot ≡ pulled_up) ⊎ (b'.line boot ≡ b.line boot)) × IsNoted s s' r

after_en-Leaves :
    (host : Host) (m : Machine) (env : Env) (banner : Bool) (boot en : ℕ) (s : Slot) (b0 b : Pins)
    (ok : Bool)
    → s.gpio_boot ≡ some boot
    → IsApart s.gpio_en boot
    → ((n : ℕ) → host.fault n boot ≡ no_fault)
    → b.line boot ≡ b0.line boot
    → Leaves boot s b0 (after_en host m env banner (some boot) en s (b, ok))
unfolding after_en
after_en-Leaves host m env banner boot en s b0 b false e a h k = (inr k, refl)
after_en-Leaves host m env false boot en s b0 b true e a h k = (inr k, refl)
after_en-Leaves host m env true boot en s b0 b true e a h k =
    let pins = halted-pins env s.running s in
    (
      inl (
          test_boot-released host m env boot en s b (pins.0 ∙ e)
            (subst (λ o. IsApart o boot) (sym pins.1) a) h),
      refl,
    )

measure-Leaves :
    (host : Host) (m : Machine) (env : Env) (banner : Bool) (boot : ℕ) (en : Option ℕ) (s : Slot)
    (b : Pins)
    → s.gpio_boot ≡ some boot
    → s.gpio_en ≡ en
    → IsApart en boot
    → ((n : ℕ) → host.fault n boot ≡ no_fault)
    → Leaves boot s b (measure host m env banner (some boot) en s b)
unfolding measure
measure-Leaves host m env banner boot none s b e f a h = (inr refl, refl)
measure-Leaves host m env banner boot (some en) s b e f a h =
    let r = pulse host en (b, true) in
    after_en-Leaves host m env banner boot en s b r.0 r.1 e (subst (λ o. IsApart o boot) (sym f) a)
      h (pulse-other host en boot b true a)

-- Where EN is another pin than BOOT, and no call for BOOT fails, whatever the board and EN do: the measurement leaves BOOT as it was, or
-- an input with its pull-up, never newly held low; and the slot's `gpio_wired` says what was measured, both
-- pins or not, or the slot is as it was.
pub test_gpio_wiring-Leaves :
    (host : Host) (m : Machine) (env : Env) (banner : Bool) (s : Slot) (b : Pins) (boot : ℕ)
    → s.gpio_boot ≡ some boot
    → IsApart s.gpio_en boot
    → ((n : ℕ) → host.fault n boot ≡ no_fault)
    → Leaves boot s b (test_gpio_wiring host m env banner s b)
unfolding test_gpio_wiring
test_gpio_wiring-Leaves host m env banner s b boot e a h =
    subst (λ o. Leaves boot s b (measure host m env banner o s.gpio_en s b)) (sym e)
      (measure-Leaves host m env banner boot s.gpio_en s b e refl a h)
