-- ===== src/Slots/Recovery/Retries.antt =====
-- pi/portal.py: how often a slot without wired pins is tried again.
use embedded_ai_harness.Prelude.{
  ℕ, suc, ◌+◌, ◌-◌, min, ◌≡◌, String, Bool, Option, List, [], ◌∷◌, ◌++◌, length, leb, arith,
  Bool-cases, inl, inr,
}
use embedded_ai_harness.Slots.{Slot}
use embedded_ai_harness.Slots.Hotplug.{Env, accept_event}
use embedded_ai_harness.Slots.Hotplug.Attempts.{accept_event-count}
use embedded_ai_harness.Slots.Recovery.{recover_without_gpio}

-- What happens to a slot: an event of its device that the handler accepts, with the arguments of
-- `accept_event`, or a recovery without pins.
pub data Act : Type 0 where
  event : Env → String → String → String → Option String → Bool → Act
  recovery : String → Act

-- The slot, and the devices that were bound again.
pub perform_all : List Act → Slot → Slot × List String
unfolding recover_without_gpio
perform_all [] s = (s, [])
perform_all (event env key action slot_key devnode b ∷ rest) s =
    perform_all rest (accept_event env key action slot_key devnode b s).0
perform_all (recovery usb ∷ rest) s =
    let (s1, bound) = recover_without_gpio usb s in
    let (s2, more) = perform_all rest s1 in (s2, bound ++ more)

pub recoveries : List Act → ℕ
recoveries [] = 0
recoveries (event env key action slot_key devnode b ∷ rest) = recoveries rest
recoveries (recovery usb ∷ rest) = suc (recoveries rest)

-- However many events and recoveries a slot without wired pins goes through, in any order: its device is
-- bound again once for each recovery, until two attempts are counted, and then never again; the count of
-- attempts goes up by as many.
pub perform_all-rebinds :
    (acts : List Act) (s : Slot)
    → let (s', bound) = perform_all acts s in
      (length bound ≡ min (recoveries acts) (2 - s.recover_retries))
      × (s'.recover_retries ≡ s.recover_retries + length bound)
unfolding perform_all recoveries recover_without_gpio
perform_all-rebinds [] s = (ground arith, omega arith)
perform_all-rebinds (event env key action slot_key devnode b ∷ rest) s =
    let s1 = (accept_event env key action slot_key devnode b s).0 in
    let h = perform_all-rebinds rest s1 in
    rw (accept_event-count env key action slot_key devnode b s) at h
perform_all-rebinds (recovery usb ∷ rest) s = elim (Bool-cases (leb 2 s.recover_retries)) [
  | inl e ↦ let h = perform_all-rebinds rest (recover_without_gpio usb s).0 in ground (arith, e, h)
  | inr e ↦ let h = perform_all-rebinds rest (recover_without_gpio usb s).0 in ground (arith, e, h)
]
