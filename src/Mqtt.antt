-- ===== src/Mqtt.antt =====
-- pi/mqtt_controller.py: the life cycle of the mosquitto broker. A process is known by a number, and
-- `alive` holds the running ones; what the operating system answers is in `Env`.
-- The mosquitto program is there, so that Popen does not raise.
pub mod Lifecycle
mod Examples
use embedded_ai_harness.Prelude.{
  ℕ, suc, String, Bool, true, false, not, ◌&&◌, ◌||◌, Option, none, some, if◌then◌else◌, ◌==◌,
  str_eq,
}

abbrev pub mqtt_port : ℕ
mqtt_port = 1883

-- The module's `_active` and `_proc`, and the running processes.
pub record Broker : Type 0 where
  pub active : Bool
  pub proc : Option ℕ
  pub alive : ℕ → Bool

pub record Env : Type 0 where
  -- the processes that `pkill` matches, and the listener on the port once it has run
  pub is_ours : ℕ → Bool
  pub port_owner : String
  -- the new process, and whether it still runs after a second
  pub new_proc : ℕ
  pub survives : Bool
  -- which processes let themselves be ended
  pub is_killable : ℕ → Bool

pub data Answer : Type 0 where
  port : ℕ → Answer
  port_in_use : String → Answer
  failed_to_start : Answer

pub record Status : Type 0 where
  pub running : Bool
  pub port : Option ℕ

-- `_proc is not None and _proc.poll() is None`
pub is_alive : Option ℕ → (ℕ → Bool) → Bool
is_alive none alive = false
is_alive (some p) alive = alive p

-- `_active and _proc is not None and _proc.poll() is None`
pub is_running : Broker → Bool
unfolding is_alive
is_running b = b.active && is_alive b.proc b.alive

-- `_kill_proc`: it does nothing to a process that does not run, and gives up on an OSError.
pub kill_proc : Env → Option ℕ → (ℕ → Bool) → ℕ → Bool
kill_proc env none alive q = alive q
kill_proc env (some p) alive q = if (q == p) && env.is_killable p then false else alive q

-- `_kill_existing`
pub kill_existing : Env → (ℕ → Bool) → ℕ → Bool
kill_existing env alive q = alive q && not (env.is_ours q)

pub start : Env → Broker → Broker × Answer
start env b =
    if is_running b
    then (b, port mqtt_port)
    else (let left = kill_existing env b.alive in
        if not (str_eq env.port_owner "")
        then (record b { alive = left }, port_in_use env.port_owner)
        else (
          record {
            active = env.survives;
            proc = some env.new_proc;
            alive = λ q. if q == env.new_proc then env.survives else left q;
          },
          if env.survives then port mqtt_port else failed_to_start,
        ))

pub stop : Env → Broker → Broker
stop env b = record { active = false; proc = none; alive = kill_proc env b.proc b.alive }

pub status : Broker → Broker × Status
status b =
    let running = is_running b in
    (
      if b.active && not running then record b { active = false } else b,
      record { running = running; port = if running then some mqtt_port else none },
    )
