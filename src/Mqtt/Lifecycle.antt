-- ===== src/Mqtt/Lifecycle.antt =====
-- pi/mqtt_controller.py: what start, stop and status promise.
use embedded_ai_harness.Prelude.{
  ℕ, Bool, true, false, not, ◌&&◌, Option, none, some, ◌==◌, ◌≡◌, ◌≢◌, ◌⊎◌, refl, ap, arith,
}
use embedded_ai_harness.Mqtt.{
  Broker, Env, port, mqtt_port, is_running, is_alive, kill_proc, kill_existing, start, stop, status,
}

-- A start ends no process but those that `pkill` matches, whatever it answers, and none at all where
-- the broker already runs.
pub start-spares :
    (env : Env) (b : Broker) (q : ℕ)
    → b.alive q ≡ true
    → (is_running b ≡ true) ⊎ (env.is_ours q ≡ false)
    → q ≢ env.new_proc
    → (start env b).0.alive q ≡ true
unfolding start kill_existing
start-spares env b q runs spared other = ground arith

-- What a start answers is what a status then says: that the broker runs, on its port, where the start
-- answered the port, and that none runs where the start failed.
pub status-start :
    (env : Env) (b : Broker)
    → ((start env b).1 ≡ port mqtt_port
        → (status (start env b).0).1 ≡ record { running = true; port = some mqtt_port })
      × ((start env b).1 ≢ port mqtt_port
          → (status (start env b).0).1 ≡ record { running = false; port = none })
unfolding status start is_running is_alive kill_existing
status-start env b = (λ e. ground arith, λ e. ground arith)

abbrev pub is_proc : ℕ → Option ℕ → Bool
is_proc q none = false
is_proc q (some p) = q == p

kill_proc_lem :
    (env : Env) (o : Option ℕ) (alive : ℕ → Bool) (q : ℕ)
    → kill_proc env o alive q ≡ (alive q && not (is_proc q o && env.is_killable q))
unfolding kill_proc
kill_proc_lem env none alive q = ground arith
kill_proc_lem env (some p) alive q = ground (arith, ap env.is_killable)

-- A stop ends the broker's process where it can be ended, and no other process; a status then says that
-- no broker runs, and says it again.
pub status-stop :
    (env : Env) (b : Broker) (q : ℕ)
    → ((stop env b).alive q ≡ (b.alive q && not (is_proc q b.proc && env.is_killable q)))
      × ((status (stop env b)).1 ≡ record { running = false; port = none })
      × ((status (stop env b)).0 ≡ stop env b)
unfolding stop status is_running
status-stop env b q = (kill_proc_lem env b.proc b.alive q, refl, refl)
