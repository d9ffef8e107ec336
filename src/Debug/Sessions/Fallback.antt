-- ===== src/Debug/Sessions/Fallback.antt =====
-- pi/portal.py `_handle_debug_start`: the start of a session on the board's own JTAG, and where that fails on
-- the probes that are not in use, one after the other.
use embedded_ai_harness.Prelude.{
  ℕ, ◌+◌, ◌≡◌, sym, ap, ◌∙◌, String, Bool, true, false, ◌||◌, Option, none, some, List, [], ◌∷◌,
  if◌then◌else◌, if-cases, if-either, arith, str_eq,
}
use embedded_ai_harness.Debug.{Debugger, Host, Reply, started, given, is_some}
use embedded_ai_harness.Debug.Sessions.{Request, start, get_probes}
use embedded_ai_harness.Debug.Sessions.Marks.{claim, IsMarked}
use embedded_ai_harness.Debug.Sessions.Probes.{start-IsMarked}
use embedded_ai_harness.Debug.Sessions.Contract.{
  View, view, IsFree, Starts, refusal, opening, start-Starts,
}

abbrev is_started : Reply → Bool
is_started (started label chip gdb_port telnet_port probe) = true
is_started _ = false

abbrev on_probe : Request → String → Request
on_probe q label = record q { probe = some label }

-- The loop over the probes, as they were listed before it; `r` is the result so far. What the outside answers
-- to the i-th start of the request is `hosts i`.
try_probes :
    (ℕ → Host)
    → ℕ
    → Request
    → List (String × Bool × Option String)
    → Debugger
    → Reply
    → Debugger × Reply
unfolding start
try_probes hosts i q [] d r = (d, r)
try_probes hosts i q ((label, in_use, slot) ∷ rest) d r =
    let (d1, r1, es) = start (hosts i) (on_probe q label) d in
    let later = try_probes hosts (i + 1) q rest d1 r1 in
    let skipped = try_probes hosts i q rest d r in
    if in_use then skipped else (if is_started r1 then (d1, r1) else later)

pub debug_start : (ℕ → Host) → Request → Debugger → Debugger × Reply
unfolding start try_probes get_probes
debug_start hosts q d =
    let (d1, r1, es) = start (hosts 0) q d in
    if is_started r1 || is_some (given q.probe)
    then (d1, r1)
    else try_probes hosts 1 q (get_probes d1.probes) d1 r1

-- A refusal leaves the sessions alone.
kept-view :
    (label : String) (v w : View) (r : Reply)
    → Starts label v w r
    → is_started r ≡ false
    → (m : String) → w m ≡ v m
kept-view label v w r (refusal _ _ _ _ n e) h = e
kept-view label v w _ (opening _ _ _ s k f e) h = absurd (ground (arith, h))

IsFree-kept :
    (v w : View) (c : Option String) → ((m : String) → w m ≡ v m) → IsFree w c → IsFree v c
IsFree-kept v w none e f = tt
IsFree-kept v w (some p) e f = λ label c. f label (ap claim (e label) ∙ c)

after-refusal :
    (label : String) (v w x : View) (r : Reply)
    → ((m : String) → w m ≡ v m)
    → Starts label w x r
    → Starts label v x r
after-refusal label v w x r e (refusal _ _ _ _ n k) = refusal label v x r n (λ m. k m ∙ e m)
after-refusal label v w x _ e (opening _ _ _ s none_yet free k) =
    opening label v x s (sym (e label) ∙ none_yet) (IsFree-kept v w (given s.probe) e free)
      (λ m. k m ∙ ap (λ o. if str_eq label m then some s else o) (e m))

try_probes-Starts :
    (hosts : ℕ → Host) (i : ℕ) (q : Request) (ps : List (String × Bool × Option String))
    (d : Debugger) (r : Reply) (v : View)
    → IsMarked d
    → ((m : String) → view d m ≡ v m)
    → Starts q.label v (view d) r
    → let (d', r') = try_probes hosts i q ps d r in Starts q.label v (view d') r'
unfolding try_probes
try_probes-Starts hosts i q [] d r v mk e s = s
try_probes-Starts hosts i q ((label, in_use, slot) ∷ rest) d r v mk e s =
    let q1 = on_probe q label in
    let (d1, r1, es) = start (hosts i) q1 d in
    let one = after-refusal q.label v (view d) (view d1) r1 e (start-Starts (hosts i) q1 d mk) in
    let P : Debugger × Reply → Type 0 = λ (d', r'). Starts q.label v (view d') r' in
    if-either P in_use _ _ (try_probes-Starts hosts i q rest d r v mk e s) (
      if-cases P (is_started r1) _ _ (λ h. one)
        (λ h.
          try_probes-Starts hosts (i + 1) q rest d1 r1 v (start-IsMarked (hosts i) q1 d mk)
            (kept-view q.label v (view d1) r1 one h) one))

-- However many probes are tried after the board's own JTAG, and whatever OpenOCD answers each time: the whole request opens one session, for the
-- slot that asked and with a probe that no session has, and answers with it, or answers with a refusal and
-- leaves the sessions as they were. Where every session's probe is marked with its slot.
pub debug_start-Starts :
    (hosts : ℕ → Host) (q : Request) (d : Debugger)
    → IsMarked d
    → let (d', r) = debug_start hosts q d in Starts q.label (view d) (view d') r
unfolding debug_start
debug_start-Starts hosts q d mk =
    let (d1, r1, es) = start (hosts 0) q d in
    let one = start-Starts (hosts 0) q d mk in
    let P : Debugger × Reply → Type 0 = λ (d', r'). Starts q.label (view d) (view d') r' in
    if-cases P (is_started r1 || is_some (given q.probe)) _ _ (λ h. one)
      (λ h.
        try_probes-Starts hosts 1 q (get_probes d1.probes) d1 r1 (view d)
          (start-IsMarked (hosts 0) q d mk)
          (kept-view q.label (view d) (view d1) r1 one (ground (arith, h))) one)
