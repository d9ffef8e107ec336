-- ===== src/Wifi/Steps.antt =====
-- pi/wifi_controller.py: calls that overlap. `ap_start` and `sta_join` look at the mode before they take the lock, and
-- `set_mode` lets go of it before it joins; each step below runs under the lock, or is one of those looks.
use embedded_ai_harness.Prelude.{
  ℕ, ◌+◌, ◌-◌, String, true, false, not, ◌&&◌, ◌||◌, Option, none, List, [], ◌∷◌, if◌then◌else◌,
  ltb, str_eq,
}
use embedded_ai_harness.Wifi.{
  Wifi, Radio, Mode, wifi_testing, is_testing, raise_ap, join, stop_sta, stop_ap, enter_mode,
  same_mode, is_joined, shutdown, handle_lease_event, get_events,
}

-- The state, and how many threads are past the look of `ap_start` and of `sta_join`, have left the lock of
-- `set_mode` to join, and have failed to join there.
pub record Shared : Type 0 where
  pub wifi : Wifi
  pub raising : ℕ
  pub joining : ℕ
  pub switching : ℕ
  pub reverting : ℕ

abbrev pub at_rest : Wifi → Shared
at_rest w = record { wifi = w; raising = 0; joining = 0; switching = 0; reverting = 0 }

unfoldable pub look_ap : Shared → Shared
look_ap q = if is_testing q.wifi.mode then record q { raising = q.raising + 1 } else q

unfoldable pub run_ap : Radio → String → String → ℕ → Shared → Shared
unfolding raise_ap
run_ap r ssid password channel q =
    if ltb 0 q.raising
    then record q { raising = q.raising - 1; wifi = (raise_ap r ssid password channel q.wifi).0 }
    else q

unfoldable pub look_sta : Shared → Shared
look_sta q = if is_testing q.wifi.mode then record q { joining = q.joining + 1 } else q

unfoldable pub run_sta : Radio → String → Shared → Shared
unfolding join
run_sta r ssid q =
    if ltb 0 q.joining
    then record q { joining = q.joining - 1; wifi = (join r ssid q.wifi).0 }
    else q

-- `sta_leave`, whose call of `ap_start` follows.
unfoldable pub leave : Shared → Shared
leave q = record q { wifi = record (stop_sta q.wifi) { saved = none } }

-- `set_mode` up to where it lets go of the lock.
unfoldable pub switch : Mode → String → Shared → Shared
switch m ssid q =
    if same_mode m q.wifi.mode || (not (is_testing m) && str_eq ssid "") then q else record q {
      wifi = enter_mode m ssid q.wifi;
      switching = if is_testing m then q.switching else q.switching + 1;
    }

-- The joining of `set_mode`, which leaves a revert to be done where it fails.
unfoldable pub join_inside : Radio → String → Shared → Shared
unfolding join
join_inside r ssid q =
    if ltb 0 q.switching
    then (let (w, reply) = join r ssid q.wifi in
        record q {
          wifi = w;
          switching = q.switching - 1;
          reverting = if is_joined reply then q.reverting else q.reverting + 1;
        })
    else q

unfoldable pub revert : Shared → Shared
revert q =
    if ltb 0 q.reverting
    then record q {
      reverting = q.reverting - 1;
      wifi = record q.wifi { mode = wifi_testing; mode_ssid = "" };
    }
    else q

pub data Step : Type 0 where
  ap_looks sta_looks sta_leaves reverts ap_stops sniffer_stops shuts_down drains : Step
  sniffs : String → Step
  ap_runs : Radio → String → String → ℕ → Step
  sta_runs joins_inside : Radio → String → Step
  switches : Mode → String → Step
  leases : String → String → String → Option String → Step

unfoldable pub step : Step → Shared → Shared
unfolding look_ap run_ap look_sta run_sta leave switch join_inside revert shutdown get_events
    handle_lease_event
step ap_looks q = look_ap q
step sta_looks q = look_sta q
step sta_leaves q = leave q
step reverts q = revert q
step ap_stops q = record q { wifi = stop_ap q.wifi }
step (sniffs ssid) q = record q {
  wifi = record q.wifi { sniffer_active = true; sniffer_ssid = ssid };
}
step sniffer_stops q = record q {
  wifi = record q.wifi { sniffer_active = false; sniffer_ssid = "" };
}
step shuts_down q = record q { wifi = shutdown q.wifi }
step drains q = record q { wifi = (get_events q.wifi).0 }
step (ap_runs r ssid password channel) q = run_ap r ssid password channel q
step (sta_runs r ssid) q = run_sta r ssid q
step (joins_inside r ssid) q = join_inside r ssid q
step (switches m ssid) q = switch m ssid q
step (leases action mac ip hostname) q = record q {
  wifi = handle_lease_event action mac ip hostname q.wifi;
}

unfoldable pub run_steps : List Step → Shared → Shared
unfolding step
run_steps [] q = q
run_steps (s ∷ rest) q = run_steps rest (step s q)
