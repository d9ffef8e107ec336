-- ===== src/Sdr/Reaping.antt =====
-- pi/sdr_controller.py: how the console's lock comes back when rtl_433 exits by itself, and what the
-- clean-up does to a session or a capture that it is not meant for.
use embedded_ai_harness.Prelude.{
  ℕ, ◌+◌, ◌-◌, ◌≤◌, true, false, ◌&&◌, Option, none, some, List, [], ◌∷◌, ltb, leb, ◌≡◌, refl,
  arith, ap, ◌∙◌, sym, subst, if_true, keep,
}
use embedded_ai_harness.Sdr.{
  Receiver, Hardware, idle, is_idle, has_proc, has, is_running, end_process, live_cleanup,
  check_reap, reap, stop_live, hardware_status, is_live, start_live, require_ready, when_ready,
  spawn_live, settle, retry, settle_again, is_settling, is_resetting, is_settling_again,
}
use embedded_ai_harness.Sdr.Steps.{
  step, run_all, live_starts, settles, retries, settles_again, polled, exits, exit_process,
}
use embedded_ai_harness.Sdr.Lock.{IsValid}

-- A receiver with its dongle, which no thread uses.
abbrev pub resting : Receiver → Receiver
resting r = record r {
  locked = false;
  capturing = false;
  proc = none;
  admin = idle;
  live_proc = none;
  live_owns_lock = false;
  barrier = false;
  reapers = 0;
  processes = [];
  hardware = record { rtl_433 = true; rtl_test = true; device = true };
}

single : (p : ℕ) → end_process (some p) (p ∷ []) ≡ []
unfolding end_process keep
single p = ground arith

alone : (p : ℕ) → is_running (some p) (p ∷ []) ≡ true
unfolding is_running has
alone p = ground arith

-- Up to where the second process has settled, with a poll between the first one's exit and the clean-up.
abbrev pub restarted : Hardware → ℕ → Receiver → Receiver
restarted h f r =
    let p = r.last_pid + 1 in
    run_all
      (live_starts h true f ∷ exits p ∷ polled ∷ settles ∷ retries true true f ∷ settles_again ∷ [])
      (resting r)

-- A first process that exits at once, a poll of the status while `start_live` waits, the reset and a second
-- process that streams: `start_live` succeeds with a live session; then the poll's thread, which waited for the
-- start to be over, ends this session's process and clears the session.
pub reap-restarted :
    (h : Hardware) (f : ℕ) (r : Receiver)
    → let q = restarted h f r in
      (is_live q ≡ true)
      × (q.processes ≡ (r.last_pid + 1 + 1) ∷ [])
      × (q.reapers ≡ 1)
      × (is_live (reap q) ≡ false)
      × ((reap q).processes ≡ [])
unfolding run_all step start_live require_ready when_ready spawn_live exit_process check_reap
    is_running has has_proc settle retry settle_again live_cleanup end_process keep is_live reap
    is_settling is_resetting is_settling_again
reap-restarted h f r =
    let p = r.last_pid + 1 in
    let waiting : Receiver = start_live h true f (resting r) in
    let rest : List ℕ → Receiver = λ ps.
      settle_again (retry true true f (settle (check_reap (record waiting { processes = ps })))) in
    let second : Receiver =
      retry true true f (settle (check_reap (record waiting { processes = [] }))) in
    let done : Receiver = record second { admin = idle } in
    let e : restarted h f r ≡ done =
      ap rest (single p)
      ∙ if_true (is_running (some (p + 1)) ((p + 1) ∷ [])) done _ (alone (p + 1)) in
    subst
      (λ q.
        (is_live q ≡ true)
        × (q.processes ≡ (p + 1) ∷ [])
        × (q.reapers ≡ 1)
        × (is_live (reap q) ≡ false)
        × ((reap q).processes ≡ []))
      (sym e) (refl, refl, refl, refl, single (p + 1))

-- The console's process has exited and no start is under way: the next poll, and the reaping that it
-- asks for, give the lock back and leave no session, so that a capture or another start can have the dongle.
pub reap-check_reap :
    (r : Receiver)
    → IsValid r
    → is_idle r.admin ≡ true
    → r.live_owns_lock ≡ true
    → is_running r.live_proc r.processes ≡ false
    → let q = reap (check_reap r) in
      (q.locked ≡ false)
      × (q.live_owns_lock ≡ false)
      × (q.live_proc ≡ none)
      × (q.reapers ≡ r.reapers)
unfolding reap check_reap live_cleanup
reap-check_reap r h i o d =
    let asked : Receiver = record r { reapers = r.reapers + 1 } in
    let done : Receiver = live_cleanup (record r { reapers = r.reapers + 1 - 1 }) in
    let e : reap (check_reap r) ≡ done =
      ap reap (if_true _ asked r (ground (arith, h.live_has)))
      ∙ if_true (is_idle r.admin && ltb 0 (r.reapers + 1)) done asked (ground arith) in
    subst
      (λ q.
        (q.locked ≡ false)
        × (q.live_owns_lock ≡ false)
        × (q.live_proc ≡ none)
        × (q.reapers ≡ r.reapers))
      (sym e) (ground arith, refl, refl, omega arith)

no_live : (live : Option ℕ) (ps : List ℕ) → has_proc live ≡ false → end_process live ps ≡ ps
unfolding has_proc end_process
no_live none ps h = refl
no_live (some p) ps h = ground arith

-- A `stop_live` during a capture: the capture goes on and holds the dongle, but the receiver is no longer
-- `active`, so that the next status, once the last probe is 5 s old, runs rtl_test on the dongle in use.
pub hardware_status-stop_live :
    (now : ℕ) (probe : Hardware) (r : Receiver)
    → IsValid r
    → is_idle r.admin ≡ true
    → r.capturing ≡ true
    → 5000 ≤ now - r.hw_probed_at
    → let q = hardware_status now probe (stop_live r) in
      (q.hardware ≡ probe) × (q.capturing ≡ true) × (q.locked ≡ true) × (q.processes ≡ r.processes)
unfolding hardware_status stop_live live_cleanup end_process
hardware_status-stop_live now probe r h i c t =
    let q = live_cleanup r in
    let done : Receiver = record q { hardware = probe; hw_probed_at = now } in
    let e : hardware_status now probe (stop_live r) ≡ done =
      ap (hardware_status now probe) (if_true (is_idle r.admin) q r i)
      ∙ if_true (leb 5000 (now - r.hw_probed_at)) done q (ground arith) in
    let unowned : r.live_owns_lock ≡ false = ground (arith, h.apart) in
    subst
      (λ x.
        (x.hardware ≡ probe)
        × (x.capturing ≡ true)
        × (x.locked ≡ true)
        × (x.processes ≡ r.processes))
      (sym e)
      (
        refl,
        c,
        ground (arith, h.lock),
        no_live r.live_proc r.processes (ground (arith, h.live_has)),
      )
