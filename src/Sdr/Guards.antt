-- ===== src/Sdr/Guards.antt =====
-- pi/sdr_controller.py: what holds on after `_require_ready`, whichever way it goes.
use embedded_ai_harness.Prelude.{not, if◌then◌else◌, if-either}
use embedded_ai_harness.Sdr.{
  Receiver, Hardware, Ready, ready, no_rtl_433, no_dongle, when_ready, require_ready,
}

module _ (P : Receiver → Type 0) where
  when_ready-keeps :
      (f : Receiver → Receiver) (x : Ready) (r : Receiver)
      → ((q : Receiver) → P q → P (f q))
      → P r
      → P (when_ready x f r)
  unfolding when_ready
  when_ready-keeps f ready r k h = k r h
  when_ready-keeps f no_rtl_433 r k h = h
  when_ready-keeps f no_dongle r k h = h

  pub require_ready-keeps :
      (f : Receiver → Receiver) (probe : Hardware) (r : Receiver)
      → ((q : Receiver) → P q → P (f q))
      → P r
      → P (record r { hardware = probe })
      → let (r1, x) = require_ready probe r in P (when_ready x f r1)
  unfolding require_ready
  require_ready-keeps f probe r k h h2 =
      let Q : Receiver × Ready → Type 0 = λ p. P (when_ready p.1 f p.0) in
      if-either Q (not r.hardware.rtl_433) _ _ (when_ready-keeps f no_rtl_433 r k h) (
        if-either Q r.hardware.device _ _ (when_ready-keeps f ready r k h) (
          when_ready-keeps f (if probe.device then ready else no_dongle)
            (record r { hardware = probe }) k h2))
