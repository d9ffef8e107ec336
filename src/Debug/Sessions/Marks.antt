-- ===== src/Debug/Sessions/Marks.antt =====
-- pi/debug_controller.py: which session a probe is marked for.
use embedded_ai_harness.Prelude.{
  ◌≡◌, ◌≢◌, sym, ap, subst, ◌∙◌, String, true, false, Option, none, some, some-injective, str_eq,
  eq_iff, arith, Option-cases, Bool-cases, inl, inr,
}
use embedded_ai_harness.Prelude.Dict.{get, put, get-put, get-pop}
use embedded_ai_harness.Debug.{Probe, Session, Debugger, given, release, released, with_probe}
use embedded_ai_harness.Debug.Sessions.{without}

-- The probe that a session has.
abbrev pub claim : Option Session → Option String
claim none = none
claim (some s) = given s.probe

abbrev pub claim_of : String → Debugger → Option String
claim_of label d = claim (get label d.sessions)

-- The probe is marked as in use by this slot.
abbrev pub Holds : Debugger → String → String → Type 0
Holds d label p =
    (info : Probe) × (get p d.probes ≡ some info) × (info.in_use ≡ true) × (info.slot ≡ some label)

abbrev pub Kept : Debugger → String → Option String → Type 0
Kept d label none = Unit
Kept d label (some p) = Holds d label p

-- Every session's probe is marked with that session's slot.
abbrev pub IsMarked : Debugger → Type 0
IsMarked d = (label : String) → Kept d label (claim_of label d)

abbrev IsUnclaimed : Debugger → String → Type 0
IsUnclaimed d p = (label : String) → claim_of label d ≢ some p

pub kept :
    (d : Debugger) (label p : String) → IsMarked d → claim_of label d ≡ some p → Holds d label p
kept d label p h e = subst (Kept d label) e (h label)

pub unused :
    (d : Debugger) (p : String) (info : Probe)
    → IsMarked d
    → get p d.probes ≡ some info
    → info.in_use ≡ false
    → IsUnclaimed d p
unused d p info h e f label c =
    let (info', e', f', g') = kept d label p h c in
    let same = some-injective info' info (sym e' ∙ e) in
    let clash : true ≡ false = sym f' ∙ ap (λ i. i.in_use) same ∙ f in ground (arith, clash)

pub one_holder :
    (d : Debugger) (l m p : String)
    → IsMarked d
    → claim_of l d ≡ some p
    → claim_of m d ≡ some p
    → l ≡ m
one_holder d l m p h e f =
    let (i, ei, fi, gi) = kept d l p h e in
    let (j, ej, fj, gj) = kept d m p h f in
    let same = some-injective i j (sym ei ∙ ej) in
    some-injective l m (sym gi ∙ ap (λ q. q.slot) same ∙ gj)

-- A write to a probe that no session has.
keep_other :
    (d : Debugger) (p : String) (new : Probe) (label : String) (c : Option String)
    → c ≢ some p
    → Kept d label c
    → Kept (with_probe p new d) label c
keep_other d p new label none n k = tt
keep_other d p new label (some r) n (info, e, f, g) =
    (info, ground (arith, eq_iff p r, get-put p r new d.probes), f, g)

pub with_probe-IsMarked :
    (d : Debugger) (p : String) (new : Probe)
    → IsMarked d
    → IsUnclaimed d p
    → IsMarked (with_probe p new d)
with_probe-IsMarked d p new h n label = keep_other d p new label _ (n label) (h label)

pub release-IsMarked :
    (d : Debugger) (p : String) → IsMarked d → IsUnclaimed d p → IsMarked (release (some p) d)
unfolding release released
release-IsMarked d p h n = elim (Option-cases (get p d.probes)) [
  | inl e ↦ subst (λ o. IsMarked (released p o d)) (sym e) h
  | inr (info, e) ↦ subst (λ o. IsMarked (released p o d)) (sym e) (with_probe-IsMarked d p _ h n)
]

-- A session whose probe is marked for it.
pub add-IsMarked :
    (d : Debugger) (label : String) (s : Session)
    → IsMarked d
    → Kept d label (given s.probe)
    → IsMarked (record d { sessions = put label s d.sessions })
add-IsMarked d label s h k other = elim (Bool-cases (str_eq label other)) [
  | inl e ↦
      rw (get-put label other s d.sessions, e)
        (subst (λ l. Kept d l (given s.probe)) ((eq_iff label other).0 e) k)
  | inr e ↦ rw (get-put label other s d.sessions, e) (h other)
]

pub without-IsMarked : (d : Debugger) (label : String) → IsMarked d → IsMarked (without label d)
without-IsMarked d label h other = elim (Bool-cases (str_eq label other)) [
  | inl e ↦ rw (get-pop label other d.sessions, e) tt
  | inr e ↦ rw (get-pop label other d.sessions, e) (h other)
]

pub without-IsUnclaimed :
    (d : Debugger) (label p : String)
    → IsMarked d
    → claim_of label d ≡ some p
    → IsUnclaimed (without label d) p
without-IsUnclaimed d label p h e other = elim (Bool-cases (str_eq label other)) [
  | inl s ↦ rw (get-pop label other d.sessions, s) (ground arith)
  | inr s ↦
      rw (get-pop label other d.sessions, s)
        (λ f. ground (arith, s, eq_iff label other, one_holder d label other p h e f))
]
