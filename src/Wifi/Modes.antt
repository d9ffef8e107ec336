-- ===== src/Wifi/Modes.antt =====
-- pi/wifi_controller.py: the radio serves one purpose at a time.
use embedded_ai_harness.Prelude.{
  ℕ, ◌≡◌, refl, String, false, not, ◌&&◌, ◌||◌, Option, none, some, List, [], ◌∷◌, if-either,
  if-cases, str_eq, arith,
}
use embedded_ai_harness.Wifi.{
  Wifi, Radio, Reply, Saved, Mode, wifi_testing, serial_interface, is_testing, raised_ap, raise_ap,
  enter_mode, stop_all, stop_sta, stop_ap, ap_start, ap_stop, saved_of, join, sta_join, sta_leave,
  restored, addressed, kept_mode, change_mode, same_mode, set_mode, shutdown, handle_lease_event,
  get_events, sniffer_start, sniffer_stop, sniffing, is_joined, Act, starting_ap, sniffing_on,
  stopping_ap, stopping_sniffer, shutting_down, draining, joining, leaving, switching, lease,
  perform, perform_all,
}

-- An access point only in the mode for tests, and never together with a station.
pub record IsExclusive (w : Wifi) : Type 0 where
  pub alone : (w.ap_active && w.sta_active) ≡ false
  pub testing : (w.ap_active && not (is_testing w.mode)) ≡ false

abbrev pub Keeps : Wifi × Reply → Type 0
Keeps (w, r) = IsExclusive w

ap_start-Keeps :
    (r : Radio) (ssid password : String) (channel : ℕ) (w : Wifi)
    → IsExclusive w
    → Keeps (ap_start r ssid password channel w)
unfolding ap_start raise_ap
ap_start-Keeps r ssid password channel w h =
    if-cases Keeps (not (is_testing w.mode)) _ _ (λ e. h)
      (λ e.
        if-either Keeps (not r.hostapd) _ _ (record { alone = refl; testing = refl })
          (if-either Keeps (not r.dnsmasq) _ _ (record { alone = refl; testing = refl })
            (record { alone = refl; testing = e })))

addressed-Keeps :
    (ssid : String) (a : Option (String × String)) (w : Wifi)
    → w.ap_active ≡ false
    → Keeps (addressed ssid a w)
addressed-Keeps ssid none w h = record { alone = ground (arith, h); testing = ground (arith, h) }
addressed-Keeps ssid (some (ip, gw)) w h = record {
  alone = ground (arith, h);
  testing = ground (arith, h);
}

pub join-Keeps : (r : Radio) (ssid : String) (w : Wifi) → Keeps (join r ssid w)
unfolding join
join-Keeps r ssid w =
    if-either Keeps (not r.connects) _ _ (record { alone = refl; testing = refl })
      (addressed-Keeps ssid r.address (record (stop_all w) { saved = saved_of w }) refl)

restored-Keeps : (r : Radio) (s : Option Saved) (w : Wifi) → IsExclusive w → Keeps (restored r s w)
restored-Keeps r none w h = h
restored-Keeps r (some s) w h = ap_start-Keeps r s.ssid s.password s.channel w h

kept_mode-Keeps : (w : Wifi) (r : Reply) → w.ap_active ≡ false → Keeps (kept_mode (w, r))
kept_mode-Keeps w r h =
    if-either Keeps (is_joined r) _ _
      (record { alone = ground (arith, h); testing = ground (arith, h) })
      (record { alone = ground (arith, h); testing = ground (arith, h) })

addressed-inactive :
    (ssid : String) (a : Option (String × String)) (w : Wifi)
    → w.ap_active ≡ false
    → (addressed ssid a w).0.ap_active ≡ false
addressed-inactive ssid none w h = h
addressed-inactive ssid (some (ip, gw)) w h = h

join-inactive : (r : Radio) (ssid : String) (w : Wifi) → (join r ssid w).0.ap_active ≡ false
unfolding join
join-inactive r ssid w =
    let P : Wifi × Reply → Type 0 = λ (v, x). v.ap_active ≡ false in
    if-either P (not r.connects) _ _ refl
      (addressed-inactive ssid r.address (record (stop_all w) { saved = saved_of w }) refl)

change_mode-Keeps :
    (r : Radio) (m : Mode) (ssid : String) (w : Wifi)
    → IsExclusive w
    → Keeps (change_mode r m ssid w)
unfolding change_mode
change_mode-Keeps r wifi_testing ssid w h = record { alone = refl; testing = refl }
change_mode-Keeps r serial_interface ssid w h =
    let w1 = enter_mode serial_interface ssid w in
    if-either Keeps (str_eq ssid "") _ _ h
      (kept_mode-Keeps (join r ssid w1).0 (join r ssid w1).1 (join-inactive r ssid w1))

set_mode-Keeps :
    (r : Radio) (m : Option Mode) (ssid : String) (w : Wifi)
    → IsExclusive w
    → Keeps (set_mode r m ssid w)
unfolding set_mode
set_mode-Keeps r none ssid w h = h
set_mode-Keeps r (some m) ssid w h =
    if-either Keeps (same_mode m w.mode) _ _ h (change_mode-Keeps r m ssid w h)

stop_ap-IsExclusive : (w : Wifi) → IsExclusive (stop_ap w)
stop_ap-IsExclusive w = record { alone = refl; testing = refl }

lease-IsExclusive :
    (action mac ip : String) (hostname : Option String) (w : Wifi)
    → IsExclusive w
    → IsExclusive (handle_lease_event action mac ip hostname w)
unfolding handle_lease_event
lease-IsExclusive action mac ip hostname w h =
    if-either IsExclusive (str_eq action "add" || str_eq action "old") _ _
      (record { alone = h.alone; testing = h.testing })
      (if-either IsExclusive (str_eq action "del") _ _
        (record { alone = h.alone; testing = h.testing }) h)

sniffing-Keeps :
    (ssid : String) (w : Wifi) (r : Reply) → IsExclusive w → Keeps (sniffing ssid (w, r))
sniffing-Keeps ssid w (raised_ap ip) h = record { alone = h.alone; testing = h.testing }
sniffing-Keeps ssid w _ h = h

perform-IsExclusive : (a : Act) (w : Wifi) → IsExclusive w → IsExclusive (perform a w)
unfolding perform ap_stop sta_join sta_leave shutdown get_events sniffer_start sniffer_stop
perform-IsExclusive (starting_ap r ssid password channel) w h =
    ap_start-Keeps r ssid password channel w h
perform-IsExclusive (sniffing_on r ssid password channel) w h =
    let (w', x) = ap_start r ssid password channel w in
    sniffing-Keeps ssid w' x (ap_start-Keeps r ssid password channel w h)
perform-IsExclusive stopping_ap w h = stop_ap-IsExclusive w
perform-IsExclusive stopping_sniffer w h = record { alone = refl; testing = refl }
perform-IsExclusive shutting_down w h = record { alone = refl; testing = refl }
perform-IsExclusive draining w h = record { alone = h.alone; testing = h.testing }
perform-IsExclusive (joining r ssid) w h =
    if-either Keeps (not (is_testing w.mode)) _ _ h (join-Keeps r ssid w)
perform-IsExclusive (leaving r) w h =
    restored-Keeps r w.saved (record (stop_sta w) { saved = none })
      (record { alone = ground arith; testing = h.testing })
perform-IsExclusive (switching r m ssid) w h = set_mode-Keeps r m ssid w h
perform-IsExclusive (lease action mac ip hostname) w h =
    lease-IsExclusive action mac ip hostname w h

-- Whatever calls of access point, station, sniffer and mode come in turn, and however the programs behind them
-- answer: the access point and the station are never active at the same time, and no access point is active
-- in the serial-interface mode.
pub perform_all-IsExclusive :
    (acts : List Act) (w : Wifi) → IsExclusive w → IsExclusive (perform_all acts w)
unfolding perform_all
perform_all-IsExclusive [] w h = h
perform_all-IsExclusive (a ∷ rest) w h =
    perform_all-IsExclusive rest (perform a w) (perform-IsExclusive a w h)
