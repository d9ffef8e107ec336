-- ===== src/Debug/Sessions/Contract.antt =====
-- pi/debug_controller.py: what the callers of `start`, `stop` and `shutdown` rely on, with the sessions as
-- a function of the slot's label.
use embedded_ai_harness.Prelude.{
  ℕ, ◌≡◌, ◌≢◌, refl, sym, ap, subst, String, true, not, Option, none, some, List, [], ◌∷◌, ◌++◌,
  if◌then◌else◌, str_eq, Option-cases, Bool-cases, inl, inr, if-either,
}
use embedded_ai_harness.Prelude.Dict.{get, get-put}
use embedded_ai_harness.Debug.{
  Probe, Session, Debugger, Host, Effect, Reply, started, given, release, released, with_probe,
  launch, launched, start_builtin, start_probe, start_chip, after_effects, Arg, gdb, telnet, tcl,
  bind_all, tcl_port_for, config_file, location_args,
}
use embedded_ai_harness.Debug.Detect.{location_of}
use embedded_ai_harness.Debug.Sessions.{
  Request, start, start_with, choose_chip, asked_for, Act, starting, stopping, shutting_down,
}
use embedded_ai_harness.Debug.Sessions.Marks.{claim, IsMarked, unused}

abbrev pub View : Type 0
View = String → Option Session

abbrev pub view : Debugger → View
view d label = get label d.sessions

abbrev IsRefusal : Reply → Type 0
IsRefusal (started label chip gdb_port telnet_port probe) = ⊥
IsRefusal _ = Unit

-- No session has the probe, if there is one.
abbrev pub IsFree : View → Option String → Type 0
IsFree v none = Unit
IsFree v (some p) = (label : String) → claim (v label) ≢ some p

-- What `start` may do for a slot's label, with its reply: nothing but a refusal, or one session more, where the slot had none
-- and no session had the probe.
pub data Starts : String → View → View → Reply → Type 0 where
  refusal :
      (label : String) (v w : View) (r : Reply)
      → IsRefusal r
      → ((m : String) → w m ≡ v m)
      → Starts label v w r
  opening :
      (label : String) (v w : View) (s : Session)
      → v label ≡ none
      → IsFree v (given s.probe)
      → ((m : String) → w m ≡ (if str_eq label m then some s else v m))
      → Starts label v w (started label s.chip s.gdb_port s.telnet_port s.probe)

-- What each act may do to the sessions.
pub data Refines : Act → View → View → Type 0 where
  starts : (q : Request) (v w : View) (r : Reply) → Starts q.label v w r → Refines (starting q) v w
  closing :
      (label : String) (v w : View)
      → ((m : String) → w m ≡ (if str_eq label m then none else v m))
      → Refines (stopping label) v w
  emptying : (v w : View) → ((m : String) → w m ≡ none) → Refines shutting_down v w

pub release-sessions : (c : Option String) (d : Debugger) → (release c d).sessions ≡ d.sessions
unfolding release released
release-sessions none d = refl
release-sessions (some p) d = elim (Option-cases (get p d.probes)) [
  | inl e ↦ rw e refl
  | inr (info, e) ↦ rw e refl
]

launched-Starts :
    (host : Host) (label : String) (s : Session) (args : List Arg) (d : Debugger)
    (spawned : Option ℕ)
    → get label d.sessions ≡ none
    → IsFree (view d) (given s.probe)
    → Starts label
        (view d)
        (view (launched host label s args d spawned).0)
        (launched host label s args d spawned).1
unfolding launched
launched-Starts host label s args d none h k = refusal label (view d) _ _ tt (λ m. refl)
launched-Starts host label s args d (some pid) h k =
    if-either (λ (r : Debugger × Reply × List Effect). Starts label (view d) (view r.0) r.1)
      (host.opens s.gdb_port) _ _
      (opening label (view d) _ (record s { pid = pid }) h k
        (λ m. get-put label m (record s { pid = pid }) d.sessions))
      (refusal label (view d) _ _ tt (λ m. ap (get m) (release-sessions (given s.probe) d)))

launch-Starts :
    (host : Host) (label : String) (s : Session) (args : List Arg) (d : Debugger)
    → get label d.sessions ≡ none
    → IsFree (view d) (given s.probe)
    → Starts label (view d) (view (launch host label s args d).0) (launch host label s args d).1
unfolding launch
launch-Starts host label s args d h k =
    let all =
      args
      ++ gdb s.gdb_port ∷ telnet s.telnet_port ∷ tcl (tcl_port_for s.gdb_port) ∷ bind_all ∷ [] in
    launched-Starts host label s all d (host.spawn all) h k

start_builtin-Starts :
    (host : Host) (label : String) (s : Session) (l config : Option String) (d : Debugger)
    → get label d.sessions ≡ none
    → given s.probe ≡ none
    → Starts label
        (view d)
        (view (start_builtin host label s l config d).0)
        (start_builtin host label s l config d).1
unfolding start_builtin
start_builtin-Starts host label s l none d h e = refusal label (view d) _ _ tt (λ m. refl)
start_builtin-Starts host label s l (some c) d h e =
    launch-Starts host label s (location_args l ++ config_file c ∷ []) d h
      (subst (IsFree (view d)) (sym e) tt)

start_probe-Starts :
    (host : Host) (label : String) (s : Session) (p : String) (o : Option Probe)
    (target : Option String) (d : Debugger)
    → IsMarked d
    → get label d.sessions ≡ none
    → given s.probe ≡ some p
    → get p d.probes ≡ o
    → Starts label
        (view d)
        (view (start_probe host label s p o target d).0)
        (start_probe host label s p o target d).1
unfolding start_probe after_effects
start_probe-Starts host label s p none target d mk h g e = refusal label (view d) _ _ tt (λ m. refl)
start_probe-Starts host label s p (some info) none d mk h g e =
    if-either (λ r. Starts label (view d) (view d) r) info.in_use _ _
      (refusal label (view d) _ _ tt (λ m. refl)) (refusal label (view d) _ _ tt (λ m. refl))
start_probe-Starts host label s p (some info) (some target) d mk h g e =
    elim (Bool-cases info.in_use) [
      | inl busy ↦ rw busy (refusal label (view d) _ _ tt (λ m. refl))
      | inr free ↦ rw free (
          launch-Starts host label s (config_file info.interface_config ∷ config_file target ∷ [])
            (with_probe p (record info { in_use = true; slot = some label }) d) h
            (subst (IsFree (view d)) (sym g) (unused d p info mk e free)))
    ]

start_chip-Starts :
    (host : Host) (label : String) (s : Session) (l c : Option String) (d : Debugger)
    → IsMarked d
    → get label d.sessions ≡ none
    → given s.probe ≡ c
    → Starts label
        (view d)
        (view (start_chip host label s l c d).0)
        (start_chip host label s l c d).1
unfolding start_chip
start_chip-Starts host label s l none d mk h e = start_builtin-Starts host label s l _ d h e
start_chip-Starts host label s l (some p) d mk h e =
    start_probe-Starts host label s p (get p d.probes) _ d mk h e refl

start_with-Starts :
    (host : Host) (q : Request) (d : Debugger) (o : Option String) (es : List Effect)
    → IsMarked d
    → get q.label d.sessions ≡ none
    → Starts q.label (view d) (view (start_with host q d (o, es)).0) (start_with host q d (o, es)).1
unfolding start_with after_effects
start_with-Starts host q d none es mk h = refusal q.label (view d) _ _ tt (λ m. refl)
start_with-Starts host q d (some chip) es mk h =
    start_chip-Starts host q.label (asked_for q chip) (location_of q.usb_prefix) (given q.probe) d
      mk h refl

pub start-Starts :
    (host : Host) (q : Request) (d : Debugger)
    → IsMarked d
    → Starts q.label (view d) (view (start host q d).0) (start host q d).1
unfolding start
start-Starts host q d mk = elim (Option-cases (get q.label d.sessions)) [
  | inr (s, e) ↦ rw e (refusal q.label (view d) _ _ tt (λ m. refl))
  | inl e ↦ rw e (
      if-either (λ (r : Debugger × Reply × List Effect). Starts q.label (view d) (view r.0) r.1)
        (not q.present) _ _ (refusal q.label (view d) _ _ tt (λ m. refl))
        (start_with-Starts host q d (choose_chip host q d (given q.chip)).0
          (choose_chip host q d (given q.chip)).1 mk e))
]
