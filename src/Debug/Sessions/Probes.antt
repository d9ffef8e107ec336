-- ===== src/Debug/Sessions/Probes.antt =====
-- pi/debug_controller.py: a probe belongs to one session at a time.
use embedded_ai_harness.Prelude.{
  ℕ, ◌≡◌, refl, sym, ap, subst, ◌∙◌, String, true, not, Option, none, some, List, [], ◌∷◌, ◌++◌,
  if◌then◌else◌, eq_refl, Bool-cases, inl, inr, if-either,
}
use embedded_ai_harness.Prelude.Dict.{get, get-put}
use embedded_ai_harness.Debug.{
  Probe, Session, Debugger, Host, Effect, Reply, given, release, with_probe, launch, launched,
  start_builtin, start_probe, start_chip, after_effects, Arg, gdb, telnet, tcl, bind_all,
  tcl_port_for, config_file, location_args, is_some,
}
use embedded_ai_harness.Debug.Detect.{location_of}
use embedded_ai_harness.Debug.Sessions.{
  Request, start, start_with, choose_chip, stop, ended, dropped, shutdown_each, shutdown_all,
  without, labels, asked_for, Act, starting, stopping, shutting_down, perform, perform_all,
}
use embedded_ai_harness.Debug.Sessions.Marks.{
  claim, claim_of, Holds, Kept, IsMarked, kept, unused, one_holder, with_probe-IsMarked,
  release-IsMarked, add-IsMarked, without-IsMarked, without-IsUnclaimed,
}

-- `release` of the probe of a session that has been taken out.
free-IsMarked :
    (d : Debugger) (label : String) (c : Option String)
    → IsMarked d
    → claim_of label d ≡ c
    → IsMarked (release c (without label d))
unfolding release
free-IsMarked d label none h e = without-IsMarked d label h
free-IsMarked d label (some p) h e =
    release-IsMarked (without label d) p (without-IsMarked d label h)
      (without-IsUnclaimed d label p h e)

launched-IsMarked :
    (host : Host) (label : String) (s : Session) (args : List Arg) (d : Debugger)
    (spawned : Option ℕ)
    → IsMarked d
    → Kept d label (given s.probe)
    → IsMarked (release (given s.probe) d)
    → IsMarked (launched host label s args d spawned).0
unfolding launched
launched-IsMarked host label s args d none h k r = h
launched-IsMarked host label s args d (some pid) h k r =
    if-either (λ (q : Debugger × Reply × List Effect). IsMarked q.0) (host.opens s.gdb_port) _ _
      (add-IsMarked d label (record s { pid = pid }) h k) r

launch-IsMarked :
    (host : Host) (label : String) (s : Session) (args : List Arg) (d : Debugger)
    → IsMarked d
    → Kept d label (given s.probe)
    → IsMarked (release (given s.probe) d)
    → IsMarked (launch host label s args d).0
unfolding launch
launch-IsMarked host label s args d h k r =
    let all =
      args
      ++ gdb s.gdb_port ∷ telnet s.telnet_port ∷ tcl (tcl_port_for s.gdb_port) ∷ bind_all ∷ [] in
    launched-IsMarked host label s all d (host.spawn all) h k r

start_builtin-IsMarked :
    (host : Host) (label : String) (s : Session) (l config : Option String) (d : Debugger)
    → IsMarked d
    → given s.probe ≡ none
    → IsMarked (start_builtin host label s l config d).0
unfolding start_builtin release
start_builtin-IsMarked host label s l none d h e = h
start_builtin-IsMarked host label s l (some c) d h e =
    launch-IsMarked host label s (location_args l ++ config_file c ∷ []) d h
      (subst (Kept d label) (sym e) tt) (subst (λ o. IsMarked (release o d)) (sym e) h)

start_probe-IsMarked :
    (host : Host) (label : String) (s : Session) (p : String) (o : Option Probe)
    (target : Option String) (d : Debugger)
    → IsMarked d
    → given s.probe ≡ some p
    → get p d.probes ≡ o
    → IsMarked (start_probe host label s p o target d).0
unfolding start_probe after_effects
start_probe-IsMarked host label s p none target d h g e = h
start_probe-IsMarked host label s p (some info) none d h g e = h
start_probe-IsMarked host label s p (some info) (some target) d h g e =
    elim (Bool-cases info.in_use) [
      | inl busy ↦ rw busy h
      | inr free ↦
          let marked : Probe = record info { in_use = true; slot = some label } in
          let n = unused d p info h e free in
          let h' = with_probe-IsMarked d p marked h n in
          let found : get p (with_probe p marked d).probes ≡ some marked =
            get-put p p marked d.probes
            ∙ ap (λ c. if c then some marked else get p d.probes) (eq_refl p) in
          rw free (
            launch-IsMarked host label s
              (config_file info.interface_config ∷ config_file target ∷ []) (with_probe p marked d)
              h' (subst (Kept (with_probe p marked d) label) (sym g) (marked, found, refl, refl))
              (subst (λ c. IsMarked (release c (with_probe p marked d))) (sym g)
                (release-IsMarked (with_probe p marked d) p h' n)))
    ]

start_chip-IsMarked :
    (host : Host) (label : String) (s : Session) (l c : Option String) (d : Debugger)
    → IsMarked d
    → given s.probe ≡ c
    → IsMarked (start_chip host label s l c d).0
unfolding start_chip
start_chip-IsMarked host label s l none d h e = start_builtin-IsMarked host label s l _ d h e
start_chip-IsMarked host label s l (some p) d h e =
    start_probe-IsMarked host label s p (get p d.probes) _ d h e refl

start_with-IsMarked :
    (host : Host) (q : Request) (d : Debugger) (o : Option String) (es : List Effect)
    → IsMarked d
    → IsMarked (start_with host q d (o, es)).0
unfolding start_with after_effects
start_with-IsMarked host q d none es h = h
start_with-IsMarked host q d (some chip) es h =
    start_chip-IsMarked host q.label (asked_for q chip) (location_of q.usb_prefix) (given q.probe) d
      h refl

pub start-IsMarked :
    (host : Host) (q : Request) (d : Debugger) → IsMarked d → IsMarked (start host q d).0
unfolding start
start-IsMarked host q d h =
    let P : Debugger × Reply × List Effect → Type 0 = λ r. IsMarked r.0 in
    if-either P (is_some (get q.label d.sessions)) _ _ h (
      if-either P (not q.present) _ _ h (
        start_with-IsMarked host q d (choose_chip host q d (given q.chip)).0
          (choose_chip host q d (given q.chip)).1 h))

ended-IsMarked :
    (label : String) (o : Option Session) (d : Debugger)
    → IsMarked d
    → get label d.sessions ≡ o
    → IsMarked (ended label o d).0 × IsMarked (dropped label o d).0
unfolding ended dropped
ended-IsMarked label none d h e = (h, h)
ended-IsMarked label (some s) d h e =
    let k = free-IsMarked d label (given s.probe) h (ap claim e) in (k, k)

pub stop-IsMarked : (label : String) (d : Debugger) → IsMarked d → IsMarked (stop label d).0
unfolding stop
stop-IsMarked label d h = (ended-IsMarked label (get label d.sessions) d h refl).0

shutdown_each-IsMarked :
    (ls : List String) (d : Debugger) → IsMarked d → IsMarked (shutdown_each ls d).0
unfolding shutdown_each
shutdown_each-IsMarked [] d h = h
shutdown_each-IsMarked (l ∷ rest) d h =
    shutdown_each-IsMarked rest _ (ended-IsMarked l (get l d.sessions) d h refl).1

perform-IsMarked : (host : Host) (a : Act) (d : Debugger) → IsMarked d → IsMarked (perform host a d)
unfolding perform shutdown_all
perform-IsMarked host (starting q) d h = start-IsMarked host q d h
perform-IsMarked host (stopping l) d h = stop-IsMarked l d h
perform-IsMarked host shutting_down d h = shutdown_each-IsMarked (labels d.sessions) d h

pub perform_all-IsMarked :
    (acts : List (Host × Act)) (d : Debugger) → IsMarked d → IsMarked (perform_all acts d)
unfolding perform_all
perform_all-IsMarked [] d h = h
perform_all-IsMarked ((host, a) ∷ rest) d h =
    perform_all-IsMarked rest (perform host a d) (perform-IsMarked host a d h)

pub no_sessions-IsMarked : (d : Debugger) → d.sessions ≡ [] → IsMarked d
unfolding get
no_sessions-IsMarked d h label = subst (λ ss. Kept d label (claim (get label ss))) (sym h) tt

-- Whatever sessions are started and stopped, and whatever OpenOCD answers each time: a probe that two slots' sessions
-- have is the probe of one slot, and `get_probes` shows it as in use by that slot. From a state without
-- sessions.
pub perform_all-one_holder :
    (acts : List (Host × Act)) (d : Debugger) (l m p : String)
    → d.sessions ≡ []
    → claim_of l (perform_all acts d) ≡ some p
    → claim_of m (perform_all acts d) ≡ some p
    → (l ≡ m) × Holds (perform_all acts d) l p
perform_all-one_holder acts d l m p h e f =
    let k = perform_all-IsMarked acts d (no_sessions-IsMarked d h) in
    (one_holder (perform_all acts d) l m p k e f, kept (perform_all acts d) l p k e)
