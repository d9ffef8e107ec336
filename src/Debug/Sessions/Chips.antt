-- ===== src/Debug/Sessions/Chips.antt =====
-- pi/debug_controller.py: a chip that `start` detects is one that it can start.
use embedded_ai_harness.Prelude.{
  ◌≡◌, ◌≢◌, sym, subst, String, true, not, Option, none, some, List, [], ◌∷◌, ◌++◌, arith,
  Option-cases, inl, inr, if-either,
}
use embedded_ai_harness.Prelude.Dict.{get}
use embedded_ai_harness.Debug.{
  Probe, Session, Debugger, Host, Effect, Reply, unsupported_chip, given, launch, launched,
  start_builtin, start_probe, start_chip, after_effects, Arg, gdb, telnet, tcl, bind_all,
  tcl_port_for, config_file, location_args, is_some, with_probe, builtin_configs,
  probe_target_configs,
}
use embedded_ai_harness.Debug.Detect.{location_of}
use embedded_ai_harness.Debug.Detect.Supported.{
  IsUsable, IsSupported, table_for, detect_chip-IsUsable,
}
use embedded_ai_harness.Debug.Sessions.{Request, start, start_with, choose_chip, asked_for, lookup}

abbrev IsOther : Reply → Type 0
IsOther unsupported_chip = ⊥
IsOther _ = Unit

abbrev Result : Type 0
Result = Debugger × Reply × List Effect

launch-IsOther :
    (host : Host) (label : String) (s : Session) (args : List Arg) (d : Debugger)
    → IsOther (launch host label s args d).1
unfolding launch launched
launch-IsOther host label s args d =
    let all =
      args
      ++ gdb s.gdb_port ∷ telnet s.telnet_port ∷ tcl (tcl_port_for s.gdb_port) ∷ bind_all ∷ [] in
    elim (Option-cases (host.spawn all)) [
      | inl e ↦ rw e tt
      | inr (pid, e) ↦
          rw e (if-either (λ (r : Result). IsOther r.1) (host.opens s.gdb_port) _ _ tt tt)
    ]

start_probe-IsOther :
    (host : Host) (label : String) (s : Session) (p : String) (o : Option Probe)
    (target : Option String) (d : Debugger)
    → is_some target ≡ true
    → IsOther (start_probe host label s p o target d).1
unfolding start_probe after_effects
start_probe-IsOther host label s p none target d h = tt
start_probe-IsOther host label s p (some info) none d h = ground (arith, h)
start_probe-IsOther host label s p (some info) (some target) d h =
    if-either (λ (r : Result). IsOther r.1) info.in_use _ _ tt
      (launch-IsOther host label s (config_file info.interface_config ∷ config_file target ∷ [])
        (with_probe p (record info { in_use = true; slot = some label }) d))

start_builtin-IsOther :
    (host : Host) (label : String) (s : Session) (l config : Option String) (d : Debugger)
    → is_some config ≡ true
    → IsOther (start_builtin host label s l config d).1
unfolding start_builtin
start_builtin-IsOther host label s l none d h = ground (arith, h)
start_builtin-IsOther host label s l (some c) d h =
    launch-IsOther host label s (location_args l ++ config_file c ∷ []) d

start_chip-IsOther :
    (host : Host) (label : String) (s : Session) (l c : Option String) (d : Debugger)
    → IsSupported (table_for (lookup c d)) s.chip
    → IsOther (start_chip host label s l c d).1
unfolding start_chip start_probe
start_chip-IsOther host label s l none d h =
    start_builtin-IsOther host label s l (get s.chip builtin_configs) d h
start_chip-IsOther host label s l (some p) d h = elim (Option-cases (get p d.probes)) [
  | inl e ↦
      subst (λ o. IsOther (start_probe host label s p o (get s.chip probe_target_configs) d).1)
        (sym e) tt
  | inr (info, e) ↦
      start_probe-IsOther host label s p (get p d.probes) (get s.chip probe_target_configs) d
        (subst (λ o. IsSupported (table_for o) s.chip) e h)
]

start_with-IsOther :
    (host : Host) (q : Request) (d : Debugger) (r : Option String × List Effect)
    → IsUsable (table_for (lookup (given q.probe) d)) r.0
    → IsOther (start_with host q d r).1
unfolding start_with after_effects
start_with-IsOther host q d (none, es) h = tt
start_with-IsOther host q d (some chip, es) h =
    start_chip-IsOther host q.label (asked_for q chip) (location_of q.usb_prefix) (given q.probe) d
      h

choose_chip-IsUsable :
    (host : Host) (q : Request) (d : Debugger)
    → IsUsable (table_for (lookup (given q.probe) d)) (choose_chip host q d none).0
unfolding choose_chip
choose_chip-IsUsable host q d = detect_chip-IsUsable host (lookup (given q.probe) d) q.usb_prefix

start-IsOther :
    (host : Host) (q : Request) (d : Debugger) → given q.chip ≡ none → IsOther (start host q d).1
unfolding start
start-IsOther host q d h =
    let P : Result → Type 0 = λ r. IsOther r.1 in
    if-either P (is_some (get q.label d.sessions)) _ _ tt (
      if-either P (not q.present) _ _ tt (
        start_with-IsOther host q d (choose_chip host q d (given q.chip)) (
          subst (λ c. IsUsable (table_for (lookup (given q.probe) d)) (choose_chip host q d c).0)
            (sym h) (choose_chip-IsUsable host q d))))

-- A `start` that is not told the chip never answers that the chip is unsupported: whatever OpenOCD
-- reports, a chip that the detection names has a configuration, for the probe or for the built-in JTAG.
pub start-detected :
    (host : Host) (q : Request) (d : Debugger)
    → given q.chip ≡ none
    → (start host q d).1 ≢ unsupported_chip
start-detected host q d h e = subst IsOther e (start-IsOther host q d h)
