-- ===== src/Mqtt/Examples.antt =====
-- pi/mqtt_controller.py: a broker that is started beside a system broker, and stopped.
use embedded_ai_harness.Prelude.{true, false, ◌||◌, none, ◌==◌}
use embedded_ai_harness.Mqtt.{Broker, Env}

abbrev host : Env
host = record {
  is_ours = λ q. q == 30;
  port_owner = "";
  new_proc = 40;
  survives = true;
  is_killable = λ q. true;
}

-- 20 is a system broker, 30 one that an earlier portal left behind.
abbrev at_boot : Broker
at_boot = record { active = false; proc = none; alive = λ q. (q == 20) || (q == 30) }
