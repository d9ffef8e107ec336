-- ===== src/Sdr.antt =====
-- pi/sdr_controller.py: the dongle's lock, its one-shot captures and the live console. Threads
-- interleave: each step below runs while no other thread is between taking and releasing the lock
-- that guards what the step changes. A process is known by its number; `processes` are those of
-- rtl_433 and rtl_power that hold the dongle open. The short runs of rtl_test are an answer, not among them. `terminate` and `kill` end a process.
pub mod Steps
pub mod Commands
pub mod Lock
pub mod Guards
pub mod Ring
pub mod Console
pub mod Reaping
pub mod Codewords
pub mod Power
pub mod Acquire
mod Examples
use embedded_ai_harness.Prelude.{
  ℕ, ◌+◌, ◌-◌, String, Bool, true, false, not, ◌&&◌, ◌||◌, Option, none, some, List, [], ◌∷◌, ◌++◌,
  ltb, leb, if◌then◌else◌, ◌==◌, length, push, keep, map,
}

pub record Hardware : Type 0 where
  pub rtl_433 : Bool
  pub rtl_test : Bool
  pub device : Bool

-- `_state`
pub record State : Type 0 where
  pub active : Bool
  pub mode : Option String
  pub freq_hz : ℕ

-- An entry of the ring buffer and of the log; the decoded event is left out.
pub record Entry : Type 0 where
  pub seq : ℕ
  pub line : String

-- How far a `start_live`, which holds `_live_admin`, has come: none is under way, or it waits for
-- the first process to settle, for the USB reset, or for the second process to settle.
pub data Phase : Type 0 where
  idle : Phase
  settling : Phase
  resetting : Phase
  settling_again : Phase

pub record Receiver : Type 0 where
  -- `_lock`
  pub locked : Bool
  -- a thread is in `_run`, past its `acquire`
  pub capturing : Bool
  pub proc : Option ℕ
  pub admin : Phase
  pub live_proc : Option ℕ
  pub live_running : Bool
  pub live_owns_lock : Bool
  -- a thread of `stop` has the lock, between its `acquire` and its `release`
  pub barrier : Bool
  -- the threads that `_reap_if_dead` has let into its body and that wait for `_live_admin`
  pub reapers : ℕ
  pub processes : List ℕ
  pub last_pid : ℕ
  pub state : State
  pub live_buf : List Entry
  pub live_seq : ℕ
  pub log_active : Bool
  pub log : List Entry
  pub hardware : Hardware
  pub hw_probed_at : ℕ

pub has : ℕ → List ℕ → Bool
has p [] = false
has p (q ∷ qs) = (p == q) || has p qs

-- `proc is not None and proc.poll() is None`
pub is_running : Option ℕ → List ℕ → Bool
unfolding has
is_running none ps = false
is_running (some p) ps = has p ps

pub end_process : Option ℕ → List ℕ → List ℕ
end_process none ps = ps
end_process (some p) ps = keep (λ q. not (p == q)) ps

abbrev pub at_rest : State
at_rest = record { active = false; mode = none; freq_hz = 0 }

abbrev pub busy_with : String → ℕ → State
busy_with mode freq = record { active = true; mode = some mode; freq_hz = freq }

abbrev pub is_idle : Phase → Bool
is_idle idle = true
is_idle _ = false

-- `HW_REPROBE_INTERVAL_S`, in milliseconds as the clock.
abbrev reprobe_interval : ℕ
reprobe_interval = 5000

-- `hardware_status`, where a probe at this time would answer `probe`.
pub hardware_status : ℕ → Hardware → Receiver → Receiver
hardware_status now probe r =
    if not r.state.active && not r.live_running && leb reprobe_interval (now - r.hw_probed_at)
    then record r { hardware = probe; hw_probed_at = now }
    else r

pub data Ready : Type 0 where
  ready : Ready
  no_rtl_433 : Ready
  no_dongle : Ready

-- `_require_ready`
pub require_ready : Hardware → Receiver → Receiver × Ready
require_ready probe r =
    if not r.hardware.rtl_433
    then (r, no_rtl_433)
    else if r.hardware.device
    then (r, ready)
    else (record r { hardware = probe }, if probe.device then ready else no_dongle)

-- The lock taken and the process started by `_run`; `spawns` says whether `Popen` finds the tool, without
-- which the lock is released at once.
enter_run : Bool → String → ℕ → Receiver → Receiver
enter_run false mode freq r = record r { proc = none; state = at_rest }
enter_run true mode freq r =
    let p = r.last_pid + 1 in
    record r {
      locked = true;
      capturing = true;
      proc = some p;
      last_pid = p;
      processes = p ∷ r.processes;
      state = busy_with mode freq;
    }

pub when_ready : Ready → (Receiver → Receiver) → Receiver → Receiver
when_ready ready f r = f r
when_ready _ f r = r

-- `_run` up to its `communicate`; a lock that is taken is the error "SDR busy".
pub run_begin : Hardware → Bool → String → ℕ → Receiver → Receiver
unfolding require_ready when_ready enter_run
run_begin probe spawns mode freq r =
    let (r1, x) = require_ready probe r in
    when_ready x (λ q. if q.locked then q else enter_run spawns mode freq q) r1

-- `_run` from where its process has ended, or has been killed after the time allowed.
pub run_end : Receiver → Receiver
unfolding end_process
run_end r =
    if r.capturing
    then record r {
      processes = end_process r.proc r.processes;
      proc = none;
      capturing = false;
      locked = false;
      state = at_rest;
    }
    else r

-- `_live_cleanup`
pub live_cleanup : Receiver → Receiver
unfolding end_process
live_cleanup r = record r {
  processes = end_process r.live_proc r.processes;
  live_proc = none;
  live_running = false;
  state = at_rest;
  locked = if r.live_owns_lock then false else r.locked;
  live_owns_lock = false;
}

-- `_spawn_live` and the phase that follows; where `Popen` fails, the session is cleaned up and the
-- start is over. The clearing of the buffer comes first in either case.
pub spawn_live : Bool → ℕ → Phase → Receiver → Receiver
unfolding live_cleanup
spawn_live false freq next r = record (live_cleanup (record r { live_buf = []; live_seq = 0 })) {
  admin = idle;
}
spawn_live true freq next r =
    let p = r.last_pid + 1 in
    record r {
      live_buf = [];
      live_seq = 0;
      live_proc = some p;
      last_pid = p;
      processes = p ∷ r.processes;
      live_running = true;
      state = busy_with "live" freq;
      admin = next;
    }

abbrev take_lock : Receiver → Receiver
take_lock r = record r { locked = true; live_owns_lock = true }

-- `start_live` up to its first wait; the thread waits while another holds `_live_admin`.
pub start_live : Hardware → Bool → ℕ → Receiver → Receiver
unfolding require_ready when_ready
start_live probe spawns freq r =
    let (r1, x) = require_ready probe r in
    when_ready x
      (λ q.
        if is_idle q.admin && not q.locked
        then spawn_live spawns freq settling (take_lock q)
        else q)
      r1

is_settling : Phase → Bool
is_settling settling = true
is_settling _ = false

is_resetting : Phase → Bool
is_resetting resetting = true
is_resetting _ = false

is_settling_again : Phase → Bool
is_settling_again settling_again = true
is_settling_again _ = false

-- After the first wait: the start has succeeded, or the session is cleaned up and the dongle is being reset.
pub settle : Receiver → Receiver
unfolding is_settling is_running
settle r =
    if is_settling r.admin
    then (if is_running r.live_proc r.processes
        then record r { admin = idle }
        else record (live_cleanup r) { admin = resetting })
    else r

-- After the reset, which `resets` says has been issued: the lock again, if no capture has taken it,
-- and the second process; otherwise the start fails with a clean-up.
pub retry : Bool → Bool → ℕ → Receiver → Receiver
unfolding is_resetting
retry resets spawns freq r =
    if is_resetting r.admin
    then (if not resets || r.locked
        then record (live_cleanup r) { admin = idle }
        else spawn_live spawns freq settling_again (take_lock r))
    else r

-- After the second wait.
pub settle_again : Receiver → Receiver
unfolding is_settling_again is_running
settle_again r =
    if is_settling_again r.admin
    then (if is_running r.live_proc r.processes
        then record r { admin = idle }
        else record (live_cleanup r) { admin = idle })
    else r

-- `stop_live`; the thread waits while another holds `_live_admin`.
pub stop_live : Receiver → Receiver
stop_live r = if is_idle r.admin then live_cleanup r else r

pub has_proc : Option ℕ → Bool
has_proc none = false
has_proc (some p) = true

-- The test of `_reap_if_dead`, which every request for the status or the events makes.
pub check_reap : Receiver → Receiver
unfolding is_running has_proc
check_reap r =
    if r.live_owns_lock && has_proc r.live_proc && not (is_running r.live_proc r.processes)
    then record r { reapers = r.reapers + 1 }
    else r

-- The body of `_reap_if_dead`, once `_live_admin` is free.
pub reap : Receiver → Receiver
reap r =
    if is_idle r.admin && ltb 0 r.reapers
    then live_cleanup (record r { reapers = r.reapers - 1 })
    else r

pub is_live : Receiver → Bool
is_live r = r.live_owns_lock && r.live_running

-- The entries of `live_events`.
pub live_events : ℕ → Receiver → List Entry
live_events since r = keep (λ e. ltb since e.seq) r.live_buf

pub get_log : Receiver → List String
get_log r = map (λ e. e.line) r.log
