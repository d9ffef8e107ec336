-- ===== src/Debug/Detect/Supported.antt =====
-- pi/debug_controller.py: a chip that a detection names has a configuration.
use embedded_ai_harness.Prelude.{
  ℕ, ◌≡◌, refl, String, true, false, Option, none, some, List, [], ◌∷◌, ◌++◌, All, if-either, ◌==◌,
}
use embedded_ai_harness.Prelude.Dict.{Dict, get}
use embedded_ai_harness.Debug.{
  Probe, Host, Output, no_output, reported, Arg, config_file, Effect, unbinding, given,
  location_args, builtin_configs, probe_target_configs, is_some,
}
use embedded_ai_harness.Debug.Detect.{
  tap_chip, tap_id_in, or_else, named_by, attempts, detect_chip, builtin_order, probe_order,
  detect_ports, unless_found, location_of,
}

-- A chip with a configuration in this table.
abbrev pub IsSupported : Dict String → String → Type 0
IsSupported table chip = is_some (get chip table) ≡ true

-- Of what a detection found: nothing, or a chip with a configuration.
abbrev pub IsUsable : Dict String → Option String → Type 0
IsUsable table none = Unit
IsUsable table (some chip) = IsSupported table chip

abbrev IsNamed : Dict String → Type 0
IsNamed table = (id : ℕ) → IsUsable table (tap_chip id)

tap_chip-builtin : IsNamed builtin_configs
unfolding tap_chip get
tap_chip-builtin id =
    let P = IsUsable builtin_configs in
    if-either P (id == 23_589) _ _ refl (
      if-either P (id == 56_357) _ _ refl
        (if-either P (id == 68_645) _ _ refl (if-either P (id == 302_003_429) _ _ refl tt)))

tap_chip-probe : IsNamed probe_target_configs
unfolding tap_chip get
tap_chip-probe id =
    let P = IsUsable probe_target_configs in
    if-either P (id == 23_589) _ _ refl (
      if-either P (id == 56_357) _ _ refl
        (if-either P (id == 68_645) _ _ refl (if-either P (id == 302_003_429) _ _ refl tt)))

or_else-IsUsable :
    (table : Dict String) (a b : Option String)
    → IsUsable table a
    → IsUsable table b
    → IsUsable table (or_else a b)
or_else-IsUsable table none b h k = k
or_else-IsUsable table (some c) b h k = h

tap_id_in-IsUsable :
    (table : Dict String) (ids : List ℕ) → IsNamed table → IsUsable table (tap_id_in ids)
unfolding tap_id_in
tap_id_in-IsUsable table [] h = tt
tap_id_in-IsUsable table (id ∷ rest) h =
    or_else-IsUsable table (tap_chip id) _ (h id) (tap_id_in-IsUsable table rest h)

named_by-IsUsable :
    (table : Dict String) (chip : String) (o : Output)
    → IsNamed table
    → IsSupported table chip
    → IsUsable table (named_by chip o)
unfolding named_by
named_by-IsUsable table chip no_output h k = tt
named_by-IsUsable table chip (reported true taps) h k = k
named_by-IsUsable table chip (reported false taps) h k = tap_id_in-IsUsable table taps h

unless_found-IsUsable :
    (table : Dict String) (o : Option String) (later : Option String × List Effect)
    → IsUsable table o
    → IsUsable table later.0
    → IsUsable table (unless_found o later).0
unless_found-IsUsable table none later h k = k
unless_found-IsUsable table (some c) later h k = h

attempts-IsUsable :
    (table : Dict String) (host : Host) (es : List Effect) (args : List Arg) (order : Dict String)
    → IsNamed table
    → All (λ e. IsSupported table e.0) order
    → IsUsable table (attempts host es args order).0
unfolding attempts
attempts-IsUsable table host es args [] h k = tt
attempts-IsUsable table host es args ((chip, config) ∷ rest) h k =
    unless_found-IsUsable table
      (named_by chip (host.run (args ++ config_file config ∷ detect_ports)))
      (attempts host es args rest)
      (named_by-IsUsable table chip (host.run (args ++ config_file config ∷ detect_ports)) h k.0)
      (attempts-IsUsable table host es args rest h k.1)

abbrev pub table_for : Option Probe → Dict String
table_for none = builtin_configs
table_for (some p) = probe_target_configs

pub detect_chip-IsUsable :
    (host : Host) (o : Option Probe) (prefix : Option String)
    → IsUsable (table_for o) (detect_chip host o prefix).0
unfolding detect_chip get
detect_chip-IsUsable host none prefix =
    attempts-IsUsable builtin_configs host [] (location_args (location_of prefix)) builtin_order
      tap_chip-builtin (refl, (refl, (refl, (refl, tt))))
detect_chip-IsUsable host (some p) prefix =
    attempts-IsUsable probe_target_configs host (unbinding (given p.bus_port))
      (config_file p.interface_config ∷ []) probe_order tap_chip-probe
      (refl, (refl, (refl, (refl, (refl, (refl, tt))))))
