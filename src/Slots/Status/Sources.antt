-- ===== src/Slots/Status/Sources.antt =====
-- pi/debug_controller.py: what the JTAG source that `detect_slot_jtag` reports stands for.
use embedded_ai_harness.Prelude.{
  String, true, false, Option, none, some, List, [], ◌∷◌, ◌++◌, All, ◌≡◌, ◌⊎◌, inl, inr, refl, ap,
  if-cases,
}
use embedded_ai_harness.Prelude.Dict.{Dict, get}
use embedded_ai_harness.Slots.{UsbDevice}
use embedded_ai_harness.Debug.{Probe, Host, Debugger, Effect}
use embedded_ai_harness.Debug.Detect.{detect_chip}
use embedded_ai_harness.Slots.Status.{
  Source, no_jtag, or_self, found_by, try_probes, slot_has_builtin_jtag, builtin_or,
  detect_slot_jtag,
}

-- A probe that is in use, or at whose cable no chip is found.
abbrev pub GivesNone : Host → String × Probe → Type 0
GivesNone host (label, p) = (p.in_use ≡ true) ⊎ ((detect_chip host (some p) none).0 ≡ none)

-- The first free probe that finds a chip, with the slot that it stands in; or none finds one.
abbrev pub IsProbed : Host → Dict String → Dict Probe → Source → Type 0
IsProbed host psm probes s =
    ((s ≡ no_jtag) × All (GivesNone host) probes)
    ⊎ ((before : Dict Probe) × (label : String) × (p : Probe) × (after : Dict Probe)
        × (chip : String) × (probes ≡ before ++ (label, p) ∷ after)
        × All (GivesNone host) before
        × (p.in_use ≡ false)
        × ((detect_chip host (some p) none).0 ≡ some chip)
        × (s ≡ record {
          chip = some chip;
          jtag_slot = some (or_self label (get label psm));
          probe = some label;
        }))

skip-IsProbed :
    (host : Host) (psm : Dict String) (x : String × Probe) (probes : Dict Probe) (s : Source)
    → GivesNone host x
    → IsProbed host psm probes s
    → IsProbed host psm (x ∷ probes) s
skip-IsProbed host psm x probes s h (inl (e, all)) = inl (e, (h, all))
skip-IsProbed host psm x probes s h (inr (before, label, p, after, chip, at, all, free, found, e)) =
    inr (x ∷ before, label, p, after, chip, ap (λ l. x ∷ l) at, (h, all), free, found, e)

found_by-IsProbed :
    (host : Host) (psm : Dict String) (label : String) (p : Probe) (probes : Dict Probe)
    (r : Option String × List Effect) (later : Source × List Effect)
    → p.in_use ≡ false
    → (detect_chip host (some p) none).0 ≡ r.0
    → IsProbed host psm probes later.0
    → IsProbed host psm ((label, p) ∷ probes) (found_by psm label r later).0
unfolding found_by
found_by-IsProbed host psm label p probes (some chip, es) later free found h =
    inr ([], label, p, probes, chip, refl, tt, free, found, refl)
found_by-IsProbed host psm label p probes (none, es) (s, more) free found h =
    skip-IsProbed host psm (label, p) probes s (inr found) h

try_probes-IsProbed :
    (host : Host) (psm : Dict String) (probes : Dict Probe)
    → IsProbed host psm probes (try_probes host psm probes).0
unfolding try_probes
try_probes-IsProbed host psm [] = inl (refl, tt)
try_probes-IsProbed host psm ((label, p) ∷ rest) =
    let later = try_probes host psm rest in
    let h = try_probes-IsProbed host psm rest in
    if-cases (λ (r : Source × List Effect). IsProbed host psm ((label, p) ∷ rest) r.0) p.in_use _ _
      (λ used. skip-IsProbed host psm (label, p) rest later.0 (inl used) h)
      (λ free.
        found_by-IsProbed host psm label p rest (detect_chip host (some p) none) later free refl h)

-- The slot's own interface finds the chip.
abbrev pub IsBuiltin : Host → String → List UsbDevice → Option String → Source → Type 0
IsBuiltin host label usb prefix s =
    (chip : String) × (slot_has_builtin_jtag usb ≡ true)
    × ((detect_chip host none prefix).0 ≡ some chip)
    × (s ≡ record { chip = some chip; jtag_slot = some label; probe = none })

builtin_or-IsSource :
    (host : Host) (label : String) (usb : List UsbDevice) (prefix : Option String)
    (psm : Dict String) (probes : Dict Probe) (r : Option String × List Effect)
    (later : Source × List Effect)
    → slot_has_builtin_jtag usb ≡ true
    → (detect_chip host none prefix).0 ≡ r.0
    → IsProbed host psm probes later.0
    → let s = (builtin_or label r later).0 in
      IsBuiltin host label usb prefix s
      ⊎ (((slot_has_builtin_jtag usb ≡ false) ⊎ ((detect_chip host none prefix).0 ≡ none))
          × IsProbed host psm probes s)
unfolding builtin_or
builtin_or-IsSource host label usb prefix psm probes (some chip, es) later has found h =
    inl (chip, has, found, refl)
builtin_or-IsSource host label usb prefix psm probes (none, es) (s, more) has found h =
    inr (inr found, h)

-- The JTAG source of a slot is its own interface where it has one that finds a chip, reported under the slot's
-- label; where there is none or it finds none, the first of the probes that are not in use and find a chip,
-- reported under the slot that it stands in, or its own label; and nothing only where none of them finds one.
pub detect_slot_jtag-IsSource :
    (host : Host) (label : String) (usb : List UsbDevice) (psm : Dict String)
    (prefix : Option String) (d : Debugger)
    → let s = (detect_slot_jtag host label usb psm prefix d).0 in
      IsBuiltin host label usb prefix s
      ⊎ (((slot_has_builtin_jtag usb ≡ false) ⊎ ((detect_chip host none prefix).0 ≡ none))
          × IsProbed host psm d.probes s)
unfolding detect_slot_jtag
detect_slot_jtag-IsSource host label usb psm prefix d =
    let probes = try_probes host psm d.probes in
    let h = try_probes-IsProbed host psm d.probes in
    let P : Source × List Effect → Type 0 = λ r.
      IsBuiltin host label usb prefix r.0
      ⊎ (((slot_has_builtin_jtag usb ≡ false) ⊎ ((detect_chip host none prefix).0 ≡ none))
          × IsProbed host psm d.probes r.0) in
    if-cases P (slot_has_builtin_jtag usb) _ _
      (λ has.
        builtin_or-IsSource host label usb prefix psm d.probes (detect_chip host none prefix) probes
          has refl h)
      (λ absent. inr (inl absent, h))
