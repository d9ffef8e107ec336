-- ===== src/Wifi/Threads.antt =====
-- pi/wifi_controller.py: what overlapping calls cannot do to the radio.
use embedded_ai_harness.Prelude.{
  ℕ, ◌≡◌, refl, String, false, not, ◌&&◌, ◌||◌, Option, List, [], ◌∷◌, if-either, str_eq, arith,
  ltb,
}
use embedded_ai_harness.Wifi.{
  Wifi, Radio, Reply, Mode, wifi_testing, serial_interface, is_testing, raise_ap, enter_mode,
  same_mode, handle_lease_event, shutdown, get_events, Act, perform_all,
}
use embedded_ai_harness.Wifi.Modes.{IsExclusive, join-Keeps, perform_all-IsExclusive}
use embedded_ai_harness.Wifi.Steps.{
  Shared, at_rest, look_ap, run_ap, look_sta, run_sta, leave, switch, join_inside, revert, Step,
  ap_looks, sta_looks, sta_leaves, reverts, ap_stops, sniffs, sniffer_stops, shuts_down, drains,
  ap_runs, sta_runs, joins_inside, switches, leases, step, run_steps,
}

-- The access point and the station are not both active.
abbrev pub IsAlone : Wifi → Type 0
IsAlone w = (w.ap_active && w.sta_active) ≡ false

abbrev Alone : Shared → Type 0
Alone q = IsAlone q.wifi

raise_ap-IsAlone :
    (r : Radio) (ssid password : String) (channel : ℕ) (w : Wifi)
    → IsAlone (raise_ap r ssid password channel w).0
unfolding raise_ap
raise_ap-IsAlone r ssid password channel w =
    let P : Wifi × Reply → Type 0 = λ (v, x). IsAlone v in
    if-either P (not r.hostapd) _ _ refl (if-either P (not r.dnsmasq) _ _ refl refl)

enter_mode-IsAlone : (m : Mode) (ssid : String) (w : Wifi) → IsAlone (enter_mode m ssid w)
enter_mode-IsAlone wifi_testing ssid w = refl
enter_mode-IsAlone serial_interface ssid w = refl

lease-IsAlone :
    (action mac ip : String) (hostname : Option String) (w : Wifi)
    → IsAlone w
    → IsAlone (handle_lease_event action mac ip hostname w)
unfolding handle_lease_event
lease-IsAlone action mac ip hostname w h =
    if-either IsAlone (str_eq action "add" || str_eq action "old") _ _ h
      (if-either IsAlone (str_eq action "del") _ _ h h)

step-IsAlone : (s : Step) (q : Shared) → Alone q → Alone (step s q)
unfolding step look_ap run_ap look_sta run_sta leave switch join_inside revert shutdown get_events
step-IsAlone ap_looks q h = if-either Alone (is_testing q.wifi.mode) _ _ h h
step-IsAlone sta_looks q h = if-either Alone (is_testing q.wifi.mode) _ _ h h
step-IsAlone sta_leaves q h = ground arith
step-IsAlone reverts q h = if-either Alone (ltb 0 q.reverting) _ _ h h
step-IsAlone ap_stops q h = refl
step-IsAlone (sniffs ssid) q h = h
step-IsAlone sniffer_stops q h = h
step-IsAlone shuts_down q h = refl
step-IsAlone drains q h = h
step-IsAlone (ap_runs r ssid password channel) q h =
    if-either Alone (ltb 0 q.raising) _ _ (raise_ap-IsAlone r ssid password channel q.wifi) h
step-IsAlone (sta_runs r ssid) q h =
    if-either Alone (ltb 0 q.joining) _ _ (join-Keeps r ssid q.wifi).alone h
step-IsAlone (joins_inside r ssid) q h =
    if-either Alone (ltb 0 q.switching) _ _ (join-Keeps r ssid q.wifi).alone h
step-IsAlone (switches m ssid) q h =
    if-either Alone (same_mode m q.wifi.mode || (not (is_testing m) && str_eq ssid "")) _ _ h
      (enter_mode-IsAlone m ssid q.wifi)
step-IsAlone (leases action mac ip hostname) q h = lease-IsAlone action mac ip hostname q.wifi h

steps-IsAlone : (steps : List Step) (q : Shared) → Alone q → Alone (run_steps steps q)
unfolding run_steps
steps-IsAlone [] q h = h
steps-IsAlone (s ∷ rest) q h = steps-IsAlone rest (step s q) (step-IsAlone s q h)

-- Whatever the programs behind them answer, and from a state of which both hold. Where the calls of access
-- point, station, sniffer and mode overlap in any way: the access point and the station are never active at
-- the same time. Where the calls come one after the other: no access point is active in the
-- serial-interface mode either.
pub run_steps-IsAlone :
    (steps : List Step) (acts : List Act) (w : Wifi)
    → IsExclusive w
    → IsAlone (run_steps steps (at_rest w)).wifi × IsExclusive (perform_all acts w)
run_steps-IsAlone steps acts w h =
    (steps-IsAlone steps (at_rest w) h.alone, perform_all-IsExclusive acts w h)
