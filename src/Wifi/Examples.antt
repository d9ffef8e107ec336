-- ===== src/Wifi/Examples.antt =====
-- pi/wifi_controller.py: an access point, a station and a change of the mode.
use embedded_ai_harness.Prelude.{◌≡◌, refl, true, false, none, some, [], ◌∷◌, List}
use embedded_ai_harness.Wifi.{
  Wifi, Radio, wifi_testing, serial_interface, ap_status, sta_join, sta_leave, Act, starting_ap,
  joining, leaving, switching, perform_all,
}
use embedded_ai_harness.Wifi.{raise_ap, join, saved_of}
use embedded_ai_harness.Wifi.Modes.{IsExclusive}
use embedded_ai_harness.Wifi.Steps.{
  at_rest, Step, ap_looks, switches, joins_inside, ap_runs, run_steps, step, look_ap, run_ap,
  switch, join_inside,
}
use embedded_ai_harness.Wifi.Threads.{IsAlone, run_steps-IsAlone}
use embedded_ai_harness.Wifi.Restore.{sta_leave-sta_join}

abbrev radio : Radio
radio = record {
  hostapd = true;
  dnsmasq = true;
  connects = true;
  address = some ("192.168.1.7", "192.168.1.1");
}

abbrev silent : Wifi
silent = record {
  ap_active = false;
  ap_ssid = "";
  ap_password = "";
  ap_channel = 0;
  sta_active = false;
  sta_ssid = "";
  saved = none;
  stations = [];
  events = [];
  mode = wifi_testing;
  mode_ssid = "";
  sniffer_active = false;
  sniffer_ssid = "";
}

abbrev acts : List Act
acts =
    starting_ap radio "bench" "secret12" 6
    ∷ joining radio "lab"
    ∷ leaving radio
    ∷ switching radio (some serial_interface) "office"
    ∷ []

-- An `ap_start` that has looked at the mode before it is switched.
abbrev late : List Step
late =
    ap_looks
    ∷ switches serial_interface "office"
    ∷ joins_inside radio "office"
    ∷ ap_runs radio "bench" "secret12" 6
    ∷ []

-- Its access point is up in the serial-interface mode.
late_access_point : (run_steps late (at_rest silent)).wifi ≡ record silent {
  ap_active = true;
  ap_ssid = "bench";
  ap_password = "secret12";
  ap_channel = 6;
  mode = serial_interface;
  mode_ssid = "office";
}
unfolding run_steps step look_ap run_ap switch join_inside raise_ap join saved_of
late_access_point = refl

run_steps-IsAlone_example :
    IsAlone (run_steps late (at_rest silent)).wifi × IsExclusive (perform_all acts silent)
run_steps-IsAlone_example =
    run_steps-IsAlone late acts silent (record { alone = refl; testing = refl })

abbrev up : Wifi
up = record silent { ap_active = true; ap_ssid = "bench"; ap_password = "secret12"; ap_channel = 6 }

sta_leave-sta_join_example :
    let (w', reply) = sta_leave radio (sta_join radio "lab" up).0 in
    (ap_status w' ≡ (true, up.ap_ssid, up.ap_channel, []))
    × (w'.ap_password ≡ up.ap_password)
    × (w'.sta_active ≡ false)
sta_leave-sta_join_example = sta_leave-sta_join radio radio "lab" up refl refl refl refl
