-- ===== src/Sdr/Lock.antt =====
-- pi/sdr_controller.py: who holds the dongle, over every interleaving of the threads.
use embedded_ai_harness.Prelude.{
  ℕ, ◌+◌, Bool, true, false, not, ◌&&◌, ◌||◌, Option, none, some, List, [], ◌∷◌, if◌then◌else◌,
  ◌==◌, ◌≡◌, ◌⊎◌, inl, inr, refl, arith, ==_iff, keep, if-either, if-cases, ltb, String,
}
use embedded_ai_harness.Sdr.Guards.{require_ready-keeps}
use embedded_ai_harness.Sdr.{
  Receiver, Phase, idle, settling, resetting, settling_again, Hardware, has_proc, end_process,
  run_begin, run_end, enter_run, live_cleanup, spawn_live, start_live, settle, retry, settle_again,
  stop_live, check_reap, reap, hardware_status, take_lock, is_idle, is_resetting,
}
use embedded_ai_harness.Sdr.Steps.{
  Event, read_line, read_end, exit_process, stop, start_log, stop_log, step, run_all,
  capture_begins, capture_ends, live_starts, settles, retries, settles_again, live_stops, polled,
  reaps, line_read, reader_ends, exits, stopped, stop_waits, stop_goes_on, enter_barrier,
  leave_barrier, log_starts, log_stops, probed,
}

-- There is at most one process of rtl_433 or rtl_power, and it is the capture's or the live console's.
abbrev pub Held : Option ℕ → Option ℕ → List ℕ → Type 0
Held shot live [] = Unit
Held shot live (p ∷ []) = (shot ≡ some p) ⊎ (live ≡ some p)
Held shot live (p ∷ q ∷ ps) = ⊥

pub record Locking (locked owns capturing barrier : Bool) (shot live : Option ℕ) (ps : List ℕ)
    : Type 0 where
  pub lock : locked ≡ (owns || (capturing || barrier))
  pub apart : (owns && capturing) ≡ false
  pub barred : (barrier && (owns || capturing)) ≡ false
  pub live_has : owns ≡ has_proc live
  pub shot_has : capturing ≡ has_proc shot
  pub held : Held shot live ps

abbrev pub IsValid : Receiver → Type 0
IsValid r = Locking r.locked r.live_owns_lock r.capturing r.barrier r.proc r.live_proc r.processes

exit-Held :
    (q : ℕ) (a b : Option ℕ) (ps : List ℕ) → Held a b ps → Held a b (end_process (some q) ps)
unfolding end_process keep
exit-Held q a b [] h = tt
exit-Held q a b (p ∷ []) h = elim (q == p) as (λ t. Held a b (if not t then p ∷ [] else [])) [
  | true ↦ tt
  | false ↦ h
]
exit-Held q a b (p ∷ (_ ∷ _)) h = elim h [ ]

end_process-Held :
    (q : Option ℕ) (a b : Option ℕ) (ps : List ℕ) → Held a b ps → Held a b (end_process q ps)
unfolding end_process
end_process-Held none a b ps h = h
end_process-Held (some q) a b ps h = exit-Held q a b ps h

end_live-Held : (a b : Option ℕ) (ps : List ℕ) → Held a b ps → Held a none (end_process b ps)
unfolding end_process keep
end_live-Held a none ps h = h
end_live-Held a (some q) [] h = tt
end_live-Held a (some q) (p ∷ []) h =
    if-cases (Held a none) (not (q == p)) (p ∷ []) [] (λ e. ground (arith, ==_iff q p)) (λ e. tt)
end_live-Held a (some q) (p ∷ (_ ∷ _)) h = elim h [ ]

end_shot-Held : (a b : Option ℕ) (ps : List ℕ) → Held a b ps → Held none b (end_process a ps)
unfolding end_process keep
end_shot-Held none b ps h = h
end_shot-Held (some q) b [] h = tt
end_shot-Held (some q) b (p ∷ []) h =
    if-cases (Held none b) (not (q == p)) (p ∷ []) [] (λ e. ground (arith, ==_iff q p)) (λ e. tt)
end_shot-Held (some q) b (p ∷ (_ ∷ _)) h = elim h [ ]

absent-Held : (a b : Option ℕ) (ps : List ℕ) → has_proc a ≡ false → Held a b ps → Held none b ps
unfolding has_proc
absent-Held none b ps e h = h
absent-Held (some p) b ps e h = ground arith

free-Held :
    (p : ℕ) (a b : Option ℕ) (ps : List ℕ)
    → has_proc a ≡ false
    → has_proc b ≡ false
    → Held a b ps
    → Held (some p) b (p ∷ ps) × Held a (some p) (p ∷ ps)
unfolding has_proc
free-Held p none none [] e f h = (inl refl, inr refl)
free-Held p none none (q ∷ []) e f h = ground arith
free-Held p none none (q ∷ (_ ∷ _)) e f h = elim h [ ]
free-Held p (some _) b ps e f h = ground arith
free-Held p none (some _) ps e f h = ground arith

-- Nothing is held: the lock is free and no process is there.
abbrev IsFree : Receiver → Type 0
IsFree r =
    (r.capturing ≡ false)
    × (r.barrier ≡ false)
    × (has_proc r.proc ≡ false)
    × (has_proc r.live_proc ≡ false)
    × Held r.proc r.live_proc r.processes

unlocked-IsFree : (r : Receiver) → IsValid r → r.locked ≡ false → IsFree r
unlocked-IsFree r h e = ground (arith, h.lock, h.apart, h.barred, h.live_has, h.shot_has, h.held)

live_cleanup-IsValid : (r : Receiver) → IsValid r → IsValid (live_cleanup r)
unfolding live_cleanup has_proc
live_cleanup-IsValid r h = record {
  lock = ground (arith, h.lock, h.apart, h.barred);
  apart = refl;
  barred = ground (arith, h.barred);
  live_has = refl;
  shot_has = h.shot_has;
  held = end_live-Held r.proc r.live_proc r.processes h.held;
}

enter_run-IsValid :
    (ok : Bool) (mode : String) (f : ℕ) (r : Receiver)
    → IsValid r
    → r.locked ≡ false
    → IsValid (enter_run ok mode f r)
unfolding enter_run has_proc
enter_run-IsValid false mode f r h e =
    let (quiet, no_barrier, none_shot, none_live, held) = unlocked-IsFree r h e in
    record {
      lock = h.lock;
      apart = h.apart;
      barred = h.barred;
      live_has = h.live_has;
      shot_has = quiet;
      held = absent-Held r.proc r.live_proc r.processes none_shot held;
    }
enter_run-IsValid true mode f r h e =
    let (quiet, no_barrier, none_shot, none_live, held) = unlocked-IsFree r h e in
    record {
      lock = ground (arith, h.lock, h.live_has);
      apart = ground (arith, h.live_has);
      barred = ground (arith, no_barrier);
      live_has = h.live_has;
      shot_has = refl;
      held = (free-Held (r.last_pid + 1) r.proc r.live_proc r.processes none_shot none_live held).0;
    }

spawn_live-IsValid :
    (ok : Bool) (f : ℕ) (next : Phase) (r : Receiver)
    → IsValid r
    → r.locked ≡ false
    → IsValid (spawn_live ok f next (take_lock r))
unfolding spawn_live live_cleanup has_proc
spawn_live-IsValid false f next r h e =
    let (quiet, no_barrier, none_shot, none_live, held) = unlocked-IsFree r h e in
    record {
      lock = ground (arith, quiet, no_barrier);
      apart = refl;
      barred = ground (arith, no_barrier);
      live_has = refl;
      shot_has = h.shot_has;
      held = end_live-Held r.proc r.live_proc r.processes held;
    }
spawn_live-IsValid true f next r h e =
    let (quiet, no_barrier, none_shot, none_live, held) = unlocked-IsFree r h e in
    record {
      lock = refl;
      apart = quiet;
      barred = ground (arith, no_barrier);
      live_has = refl;
      shot_has = h.shot_has;
      held = (free-Held (r.last_pid + 1) r.proc r.live_proc r.processes none_shot none_live held).1;
    }

run_begin-IsValid :
    (probe : Hardware) (ok : Bool) (mode : String) (f : ℕ) (r : Receiver)
    → IsValid r
    → IsValid (run_begin probe ok mode f r)
unfolding run_begin
run_begin-IsValid probe ok mode f r h =
    require_ready-keeps IsValid _ probe r
      (λ q k. if-cases IsValid q.locked q _ (λ e. k) (enter_run-IsValid ok mode f q k)) h h

run_end-IsValid : (r : Receiver) → IsValid r → IsValid (run_end r)
unfolding run_end has_proc
run_end-IsValid r h =
    if-cases IsValid r.capturing _ r
      (λ e. record {
        lock = ground (arith, h.apart, h.barred);
        apart = ground arith;
        barred = ground (arith, h.barred);
        live_has = h.live_has;
        shot_has = refl;
        held = end_shot-Held r.proc r.live_proc r.processes h.held;
      })
      (λ e. h)

start_live-IsValid :
    (probe : Hardware) (ok : Bool) (f : ℕ) (r : Receiver)
    → IsValid r
    → IsValid (start_live probe ok f r)
unfolding start_live
start_live-IsValid probe ok f r h =
    require_ready-keeps IsValid _ probe r
      (λ q k.
        if-cases IsValid (is_idle q.admin && not q.locked) _ q
          (λ e. spawn_live-IsValid ok f settling q k (ground arith)) (λ e. k))
      h h

over-IsValid :
    (c running : Bool) (n m : Phase) (r : Receiver)
    → IsValid r
    → IsValid (
        if c
        then (if running then record r { admin = n } else record (live_cleanup r) { admin = m })
        else r)
over-IsValid c running n m r h =
    if-either IsValid c _ r (if-either IsValid running _ _ h (live_cleanup-IsValid r h)) h

retry-IsValid :
    (resets ok : Bool) (f : ℕ) (r : Receiver) → IsValid r → IsValid (retry resets ok f r)
unfolding retry
retry-IsValid resets ok f r h =
    if-either IsValid (is_resetting r.admin) _ r
      (if-cases IsValid (not resets || r.locked) _ _ (λ e. live_cleanup-IsValid r h)
        (λ e. spawn_live-IsValid ok f settling_again r h (ground arith)))
      h

reap-IsValid : (r : Receiver) → IsValid r → IsValid (reap r)
unfolding reap
reap-IsValid r h =
    if-either IsValid (is_idle r.admin && ltb 0 r.reapers) _ r (live_cleanup-IsValid _ h) h

enter_barrier-IsValid : (r : Receiver) → IsValid r → IsValid (enter_barrier r)
unfolding enter_barrier
enter_barrier-IsValid r h =
    if-cases IsValid r.locked r _ (λ e. h)
      (λ e. record {
        lock = ground (arith, h.lock);
        apart = h.apart;
        barred = ground (arith, h.lock);
        live_has = h.live_has;
        shot_has = h.shot_has;
        held = h.held;
      })

leave_barrier-IsValid : (r : Receiver) → IsValid r → IsValid (leave_barrier r)
unfolding leave_barrier
leave_barrier-IsValid r h =
    if-cases IsValid r.barrier _ r
      (λ e. record {
        lock = ground (arith, h.barred);
        apart = h.apart;
        barred = refl;
        live_has = h.live_has;
        shot_has = h.shot_has;
        held = h.held;
      })
      (λ e. h)

step-IsValid : (e : Event) (r : Receiver) → IsValid r → IsValid (step e r)
unfolding step settle settle_again stop_live check_reap read_line read_end exit_process stop
    start_log stop_log hardware_status
step-IsValid (capture_begins p ok mode f) r h = run_begin-IsValid p ok mode f r h
step-IsValid capture_ends r h = run_end-IsValid r h
step-IsValid (live_starts p ok f) r h = start_live-IsValid p ok f r h
step-IsValid settles r h = over-IsValid _ _ idle resetting r h
step-IsValid (retries resets ok f) r h = retry-IsValid resets ok f r h
step-IsValid settles_again r h = over-IsValid _ _ idle idle r h
step-IsValid live_stops r h = if-either IsValid (is_idle r.admin) _ r (live_cleanup-IsValid r h) h
step-IsValid polled r h = if-either IsValid _ _ r h h
step-IsValid reaps r h = reap-IsValid r h
step-IsValid (line_read l) r h = h
step-IsValid reader_ends r h = h
step-IsValid (exits p) r h = record {
  lock = h.lock;
  apart = h.apart;
  barred = h.barred;
  live_has = h.live_has;
  shot_has = h.shot_has;
  held = end_process-Held (some p) r.proc r.live_proc r.processes h.held;
}
step-IsValid stopped r h = record {
  lock = h.lock;
  apart = h.apart;
  barred = h.barred;
  live_has = h.live_has;
  shot_has = h.shot_has;
  held = end_process-Held r.proc r.proc r.live_proc r.processes h.held;
}
step-IsValid stop_waits r h = enter_barrier-IsValid r h
step-IsValid stop_goes_on r h = leave_barrier-IsValid r h
step-IsValid log_starts r h = h
step-IsValid log_stops r h = h
step-IsValid (probed now p) r h = if-either IsValid _ _ r h h

-- However the threads interleave, whatever the tools do, and from any state that satisfies it: the lock is
-- held exactly while a capture, a live console or the barrier of a `stop` has it, and only one of them; the live
-- console has it exactly while it has a process; and there is at most one process of rtl_433 or rtl_power, the
-- capture's or the console's. The short rtl_test of a status, which takes no lock, is not among these.
pub run_all-IsValid : (es : List Event) (r : Receiver) → IsValid r → IsValid (run_all es r)
unfolding run_all
run_all-IsValid [] r h = h
run_all-IsValid (e ∷ es) r h = run_all-IsValid es (step e r) (step-IsValid e r h)
