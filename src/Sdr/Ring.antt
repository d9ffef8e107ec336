-- ===== src/Sdr/Ring.antt =====
-- pi/sdr_controller.py: the ring buffer that the reader fills, over every interleaving of the threads.
use native.Mathlib.Nat.{add-zero}
use embedded_ai_harness.Prelude.{
  ℕ, zero, suc, ◌+◌, ◌-◌, ◌≤◌, String, Bool, true, false, not, ◌&&◌, ◌||◌, List, [], ◌∷◌, ◌++◌,
  if◌then◌else◌, ◌≡◌, arith, ltb, leb, length, drop, if-either, length-append, length-drop, subst,
}
use embedded_ai_harness.Sdr.{
  Receiver, Entry, Phase, idle, resetting, run_begin, run_end, enter_run, live_cleanup, spawn_live,
  start_live, settle, retry, settle_again, stop_live, check_reap, reap, hardware_status, is_idle,
  has_proc, is_running,
}
use embedded_ai_harness.Sdr.Steps.{
  Event, read_line, step, run_all, capture_begins, capture_ends, live_starts, settles, retries,
  settles_again, live_stops, polled, reaps, line_read, reader_ends, exits, stopped, stop_waits,
  stop_goes_on, enter_barrier, leave_barrier, log_starts, log_stops, probed, read_end, exit_process,
  stop, start_log, stop_log,
}
use embedded_ai_harness.Sdr.Guards.{require_ready-keeps}

-- The entries' numbers are the ones that follow `n`, without a gap.
abbrev pub Follows : ℕ → List Entry → Type 0
Follows n [] = Unit
Follows n (e ∷ es) = (e.seq ≡ suc n) × Follows (suc n) es

-- What the buffer holds: the last entries, with their numbers up to the last one given, 600 at most.
pub record Ring (buf : List Entry) (last : ℕ) : Type 0 where
  pub count : length buf ≤ 600
  pub within : length buf ≤ last
  pub numbered : Follows (last - length buf) buf

abbrev pub IsRing : Receiver → Type 0
IsRing r = Ring r.live_buf r.live_seq

pub Follows-append :
    (n m : ℕ) (es fs : List Entry)
    → m ≡ n + length es
    → Follows n es
    → Follows m fs
    → Follows n (es ++ fs)
Follows-append n m [] fs e h k = subst (λ i. Follows i fs) (omega (arith, e)) k
Follows-append n m (x ∷ es) fs e h k =
    (h.0, Follows-append (suc n) m es fs (omega (arith, e)) h.1 k)

pub Follows-drop :
    (m n : ℕ) (es : List Entry) → m ≤ length es → Follows n es → Follows (n + m) (drop m es)
Follows-drop zero n es le h = rw add-zero h
Follows-drop (suc m) n [] le h = tt
Follows-drop (suc m) n (x ∷ es) le h =
    subst (λ i. Follows i (drop m es)) (omega arith)
      (Follows-drop m (suc n) es (omega (arith, le)) h.1)

push-IsRing : (line : String) (r : Receiver) → IsRing r → IsRing (read_line line r)
unfolding read_line
push-IsRing line r h =
    let e : Entry = record { seq = r.live_seq + 1; line = line } in
    let all = r.live_buf ++ e ∷ [] in
    let j = length r.live_buf + 1 - 600 in
    let total = length-append r.live_buf (e ∷ []) in
    let rest = length-drop j all in
    let at =
      Follows-append (r.live_seq - length r.live_buf) r.live_seq r.live_buf (e ∷ [])
        (omega (arith, h.within)) h.numbered (omega arith, tt) in
    record {
      count = omega (arith, total, rest, h.count);
      within = omega (arith, total, rest, h.within);
      numbered =
          subst (λ i. Follows i (drop j all)) (omega (arith, total, rest, h.count, h.within))
            (Follows-drop j (r.live_seq - length r.live_buf) all (omega (arith, total)) at);
    }

spawn_live-IsRing : (ok : Bool) (f : ℕ) (n : Phase) (r : Receiver) → IsRing (spawn_live ok f n r)
unfolding spawn_live live_cleanup
spawn_live-IsRing false f n r = record { count = omega arith; within = omega arith; numbered = tt }
spawn_live-IsRing true f n r = record { count = omega arith; within = omega arith; numbered = tt }

enter_run-IsRing :
    (ok : Bool) (mode : String) (f : ℕ) (r : Receiver) → IsRing r → IsRing (enter_run ok mode f r)
unfolding enter_run
enter_run-IsRing false mode f r h = h
enter_run-IsRing true mode f r h = h

over-IsRing :
    (c running : Bool) (n m : Phase) (r : Receiver)
    → IsRing r
    → IsRing (
        if c
        then (if running then record r { admin = n } else record (live_cleanup r) { admin = m })
        else r)
unfolding live_cleanup
over-IsRing c running n m r h = if-either IsRing c _ r (if-either IsRing running _ _ h h) h

-- Every step keeps the buffer a ring.
pub step-IsRing : (e : Event) (r : Receiver) → IsRing r → IsRing (step e r)
unfolding step run_begin run_end start_live settle retry settle_again stop_live check_reap reap
    read_end exit_process stop start_log stop_log hardware_status live_cleanup enter_barrier
    leave_barrier
step-IsRing (capture_begins p ok mode f) r h =
    require_ready-keeps IsRing _ p r
      (λ q k. if-either IsRing q.locked q _ k (enter_run-IsRing ok mode f q k)) h h
step-IsRing capture_ends r h = if-either IsRing r.capturing _ r h h
step-IsRing (live_starts p ok f) r h =
    require_ready-keeps IsRing _ p r (λ q k. if-either IsRing _ _ q (spawn_live-IsRing ok f _ _) k)
      h h
step-IsRing settles r h = over-IsRing _ _ idle resetting r h
step-IsRing (retries resets ok f) r h =
    if-either IsRing _ _ r
      (if-either IsRing (not resets || r.locked) _ _ h (spawn_live-IsRing ok f _ _)) h
step-IsRing settles_again r h = over-IsRing _ _ idle idle r h
step-IsRing live_stops r h = if-either IsRing (is_idle r.admin) (live_cleanup r) r h h
step-IsRing polled r h =
    if-either IsRing
      (r.live_owns_lock && has_proc r.live_proc && not (is_running r.live_proc r.processes))
      (record r { reapers = r.reapers + 1 }) r h h
step-IsRing reaps r h =
    if-either IsRing (is_idle r.admin && ltb 0 r.reapers)
      (live_cleanup (record r { reapers = r.reapers - 1 })) r h h
step-IsRing (line_read l) r h = push-IsRing l r h
step-IsRing reader_ends r h = h
step-IsRing (exits p) r h = h
step-IsRing stopped r h = h
step-IsRing stop_waits r h = if-either IsRing r.locked _ _ h h
step-IsRing stop_goes_on r h = if-either IsRing r.barrier _ _ h h
step-IsRing log_starts r h = h
step-IsRing log_stops r h = h
step-IsRing (probed now p) r h =
    if-either IsRing (not r.state.active && not r.live_running && leb 5000 (now - r.hw_probed_at))
      (record r { hardware = p; hw_probed_at = now }) r h h

pub run_all-IsRing : (es : List Event) (r : Receiver) → IsRing r → IsRing (run_all es r)
unfolding run_all
run_all-IsRing [] r h = h
run_all-IsRing (e ∷ es) r h = run_all-IsRing es (step e r) (step-IsRing e r h)
