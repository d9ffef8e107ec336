-- ===== src/Sdr/Steps.antt =====
-- pi/sdr_controller.py: what the threads do, one step after the other.
use embedded_ai_harness.Prelude.{
  ℕ, ◌+◌, String, Bool, true, false, ◌&&◌, some, List, [], ◌∷◌, ◌++◌, ltb, if◌then◌else◌, length,
  push,
}
use embedded_ai_harness.Sdr.{
  Receiver, Hardware, Entry, end_process, run_begin, run_end, start_live, settle, retry,
  settle_again, stop_live, check_reap, reap, hardware_status,
}

-- One line, stripped and not empty, in `_live_reader`.
unfoldable pub read_line : String → Receiver → Receiver
read_line line r =
    let e : Entry = record { seq = r.live_seq + 1; line = line } in
    record r {
      live_seq = r.live_seq + 1;
      live_buf = push 600 r.live_buf e;
      log = if r.log_active && ltb (length r.log) 8000 then r.log ++ e ∷ [] else r.log;
    }

-- The end of `_live_reader`.
unfoldable pub read_end : Receiver → Receiver
read_end r = record r { live_running = false }

-- A process that exits by itself.
unfoldable pub exit_process : ℕ → Receiver → Receiver
exit_process p r = record r { processes = end_process (some p) r.processes }

-- `stop` up to its barrier, and the two steps of the barrier: the lock, once it is free, and its release. Where
-- the lock is not free in time the thread does without it.
unfoldable pub stop : Receiver → Receiver
stop r = record r { processes = end_process r.proc r.processes }

unfoldable pub enter_barrier : Receiver → Receiver
enter_barrier r = if r.locked then r else record r { locked = true; barrier = true }

unfoldable pub leave_barrier : Receiver → Receiver
leave_barrier r = if r.barrier then record r { locked = false; barrier = false } else r

unfoldable pub start_log : Receiver → Receiver
start_log r = record r { log = []; log_active = true }

-- `stop_log`, with its count.
unfoldable pub stop_log : Receiver → Receiver × ℕ
stop_log r = (record r { log_active = false }, length r.log)

-- What the threads do.
pub data Event : Type 0 where
  capture_begins : Hardware → Bool → String → ℕ → Event
  capture_ends : Event
  live_starts : Hardware → Bool → ℕ → Event
  settles : Event
  retries : Bool → Bool → ℕ → Event
  settles_again : Event
  live_stops : Event
  polled : Event
  reaps : Event
  line_read : String → Event
  reader_ends : Event
  exits : ℕ → Event
  stopped stop_waits stop_goes_on : Event
  log_starts : Event
  log_stops : Event
  probed : ℕ → Hardware → Event

unfoldable pub step : Event → Receiver → Receiver
unfolding stop_log
step (capture_begins h ok mode freq) r = run_begin h ok mode freq r
step capture_ends r = run_end r
step (live_starts h ok freq) r = start_live h ok freq r
step settles r = settle r
step (retries resets ok freq) r = retry resets ok freq r
step settles_again r = settle_again r
step live_stops r = stop_live r
step polled r = check_reap r
step reaps r = reap r
step (line_read l) r = read_line l r
step reader_ends r = read_end r
step (exits p) r = exit_process p r
step stopped r = stop r
step stop_waits r = enter_barrier r
step stop_goes_on r = leave_barrier r
step log_starts r = start_log r
step log_stops r = (stop_log r).0
step (probed now h) r = hardware_status now h r

unfoldable pub run_all : List Event → Receiver → Receiver
run_all [] r = r
run_all (e ∷ es) r = run_all es (step e r)
