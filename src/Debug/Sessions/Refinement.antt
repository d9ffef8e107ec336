-- ===== src/Debug/Sessions/Refinement.antt =====
-- pi/debug_controller.py: every operation on the sessions does what the contract says.
use embedded_ai_harness.Prelude.{
  ◌≡◌, refl, ap, ◌∙◌, String, Bool, false, ◌||◌, Option, none, some, List, [], ◌∷◌, if◌then◌else◌,
  str_eq, eq_iff, arith,
}
use embedded_ai_harness.Prelude.Dict.{Dict, get, get-pop}
use embedded_ai_harness.Debug.{Session, Debugger, given}
use embedded_ai_harness.Debug.Sessions.{stop, ended, dropped, without}
use embedded_ai_harness.Debug.Sessions.Contract.{release-sessions}

stop-view :
    (label m : String) (d : Debugger) (o : Option Session)
    → get label d.sessions ≡ o
    → let left = if str_eq label m then none else get m d.sessions in
      (get m (ended label o d).0.sessions ≡ left) × (get m (dropped label o d).0.sessions ≡ left)
unfolding ended dropped
stop-view label m d none e =
    let same : get m d.sessions ≡ (if str_eq label m then none else get m d.sessions) =
      ground (arith, eq_iff label m, e) in
    (same, same)
stop-view label m d (some s) e =
    let left =
      ap (get m) (release-sessions (given s.probe) (without label d))
      ∙ get-pop label m d.sessions in
    (left, left)

pub stop-get :
    (label m : String) (d : Debugger)
    → get m (stop label d).0.sessions ≡ (if str_eq label m then none else get m d.sessions)
unfolding stop
stop-get label m d = (stop-view label m d (get label d.sessions) refl).0

listed : String → List String → Bool
listed m [] = false
listed m (l ∷ rest) = str_eq l m || listed m rest
