-- ===== src/Driver/Examples.antt =====
-- pytest/testbench_driver.py: a wait for a station that joins in the second round.
use embedded_ai_harness.Prelude.{true, false, none, List, [], ◌∷◌, ◌≡◌, refl}
use embedded_ai_harness.Wifi.{Wifi, wifi_testing, lease}
use embedded_ai_harness.Driver.{Poll, wait_for_event, find_event}
use embedded_ai_harness.Driver.Waiting.{given, wait_for_event-find}

abbrev quiet_bench : Wifi
quiet_bench = record {
  ap_active = true;
  ap_ssid = "bench";
  ap_password = "secret12";
  ap_channel = 6;
  sta_active = false;
  sta_ssid = "";
  saved = none;
  stations = [];
  events = [];
  mode = wifi_testing;
  mode_ssid = "";
  sniffer_active = false;
  sniffer_ssid = "";
}

abbrev rounds : List Poll
rounds =
    record { acts = lease "del" "aa:01" "" none ∷ []; arrives = true }
    ∷ record { acts = lease "add" "aa:02" "192.168.4.2" none ∷ []; arrives = true }
    ∷ []

wait_for_event-find_example :
    (wait_for_event "STA_CONNECT" rounds quiet_bench).1
    ≡ find_event "STA_CONNECT" (given rounds quiet_bench)
wait_for_event-find_example =
    wait_for_event-find "STA_CONNECT" rounds quiet_bench (refl, (refl, tt))
