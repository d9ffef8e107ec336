-- ===== src/Wifi/Restore.antt =====
-- pi/wifi_controller.py: the access point that comes back when the station leaves.
use embedded_ai_harness.Prelude.{
  ◌≡◌, refl, sym, subst, ◌∙◌, String, true, false, not, Option, none, some, [], if-either, if-cases,
  arith,
}
use embedded_ai_harness.Wifi.{
  Wifi, Radio, Reply, Saved, wifi_testing, is_testing, stop_all, stop_sta, ap_start, raise_ap,
  ap_status, saved_of, join, sta_join, sta_leave, restored, addressed, done,
}

-- The access point is up as it was saved, without stations of its own yet, and the station is gone.
abbrev Restores : Saved → Wifi × Reply → Type 0
Restores s (w, r) =
    (ap_status w ≡ (true, s.ssid, s.channel, []))
    × (w.ap_password ≡ s.password)
    × (w.sta_active ≡ false)

ap_start-Restores :
    (r : Radio) (s : Saved) (w : Wifi)
    → w.mode ≡ wifi_testing
    → r.hostapd ≡ true
    → r.dnsmasq ≡ true
    → Restores s (ap_start r s.ssid s.password s.channel w)
unfolding ap_start raise_ap ap_status
ap_start-Restores r s w m h d =
    if-cases (Restores s) (not (is_testing w.mode)) _ _ (λ e. absurd (ground (arith, e, m)))
      (λ t.
        if-cases (Restores s) (not r.hostapd) _ _ (λ e. absurd (ground (arith, e, h)))
          (λ u.
            if-cases (Restores s) (not r.dnsmasq) _ _ (λ e. absurd (ground (arith, e, d)))
              (λ v. (refl, refl, refl))))

-- What joining keeps for the return, whether it succeeds or not.
abbrev Remembers : Wifi → Wifi × Reply → Type 0
Remembers w (w', r) = (w'.saved ≡ saved_of w) × (w'.mode ≡ w.mode)

addressed-Remembers :
    (ssid : String) (a : Option (String × String)) (w w' : Wifi)
    → Remembers w (w', done)
    → Remembers w (addressed ssid a w')
addressed-Remembers ssid none w w' h = h
addressed-Remembers ssid (some (ip, gw)) w w' h = h

join-Remembers : (r : Radio) (ssid : String) (w : Wifi) → Remembers w (join r ssid w)
unfolding join
join-Remembers r ssid w =
    if-either (Remembers w) (not r.connects) _ _ (refl, refl)
      (addressed-Remembers ssid r.address w (record (stop_all w) { saved = saved_of w })
        (refl, refl))

sta_join-Remembers :
    (r : Radio) (ssid : String) (w : Wifi) → w.mode ≡ wifi_testing → Remembers w (sta_join r ssid w)
unfolding sta_join
sta_join-Remembers r ssid w m =
    if-cases (Remembers w) (not (is_testing w.mode)) _ _ (λ e. absurd (ground (arith, e, m)))
      (λ e. join-Remembers r ssid w)

saved_of-active :
    (w : Wifi)
    → w.ap_active ≡ true
    → saved_of w
      ≡ some (record { ssid = w.ap_ssid; password = w.ap_password; channel = w.ap_channel })
unfolding saved_of
saved_of-active w h = ground (arith, h)

-- An access point in the mode for tests that makes way for a station, whether the station gets its connection or
-- not, is up again after `sta_leave`, with its name, password and channel, and the station is gone. Where
-- hostapd and dnsmasq run at that time.
pub sta_leave-sta_join :
    (r1 r2 : Radio) (ssid : String) (w : Wifi)
    → w.mode ≡ wifi_testing
    → w.ap_active ≡ true
    → r2.hostapd ≡ true
    → r2.dnsmasq ≡ true
    → let (w', reply) = sta_leave r2 (sta_join r1 ssid w).0 in
      (ap_status w' ≡ (true, w.ap_ssid, w.ap_channel, []))
      × (w'.ap_password ≡ w.ap_password)
      × (w'.sta_active ≡ false)
unfolding sta_leave
sta_leave-sta_join r1 r2 ssid w m a h d =
    let w1 = (sta_join r1 ssid w).0 in
    let known = sta_join-Remembers r1 ssid w m in
    let s : Saved = record { ssid = w.ap_ssid; password = w.ap_password; channel = w.ap_channel } in
    let left : Wifi = record (stop_sta w1) { saved = none } in
    subst (λ o. Restores s (restored r2 o left)) (sym (known.0 ∙ saved_of-active w a))
      (ap_start-Restores r2 s left (known.1 ∙ m) h d)
