-- ===== src/Wifi.antt =====
-- pi/wifi_controller.py: the access point, the station and the sniffer on the one radio. What the programs
-- behind it answer (hostapd, dnsmasq, wpa_supplicant, DHCP) is a `Radio`, one for each call; the processes,
-- the configuration files and the addresses on the interface are left out.
pub mod Modes
pub mod Restore
pub mod Steps
pub mod Threads
mod Examples
use embedded_ai_harness.Prelude.{
  ℕ, String, Bool, true, false, not, ◌||◌, Option, none, some, List, [], ◌∷◌, ◌++◌, if◌then◌else◌,
  str_eq,
}
use embedded_ai_harness.Prelude.Dict.{Dict, put, pop}

-- `_saved_ap`
pub record Saved : Type 0 where
  pub ssid : String
  pub password : String
  pub channel : ℕ

pub data Mode : Type 0 where
  wifi_testing serial_interface : Mode

-- An entry of the event queue: the address, the IP and the host name, if there is one.
pub data Event : Type 0 where
  sta_connect : String → String → Option String → Event
  sta_disconnect : String → Event

-- The module's state; `stations` has the IP of each MAC address.
pub record Wifi : Type 0 where
  pub ap_active : Bool
  pub ap_ssid : String
  pub ap_password : String
  pub ap_channel : ℕ
  pub sta_active : Bool
  pub sta_ssid : String
  pub saved : Option Saved
  pub stations : Dict String
  pub events : List Event
  pub mode : Mode
  pub mode_ssid : String
  pub sniffer_active : Bool
  pub sniffer_ssid : String

pub record Radio : Type 0 where
  -- hostapd and dnsmasq still run after their wait, wpa_supplicant connects, and the address and gateway
  pub hostapd : Bool
  pub dnsmasq : Bool
  pub connects : Bool
  pub address : Option (String × String)

pub data Reply : Type 0 where
  -- the exceptions
  disabled hostapd_failed dnsmasq_failed not_connected no_address unknown_mode ssid_required : Reply
  done : Reply
  -- the address of the access point; the address and the gateway of the station
  raised_ap : String → Reply
  joined : String → String → Reply

abbrev pub is_testing : Mode → Bool
is_testing wifi_testing = true
is_testing serial_interface = false

-- `_ap_stop_unlocked`, `_sta_stop_unlocked` and `_stop_all_unlocked`
abbrev pub stop_ap : Wifi → Wifi
stop_ap w = record w {
  ap_active = false;
  ap_ssid = "";
  ap_password = "";
  ap_channel = 0;
  stations = [];
}

abbrev pub stop_sta : Wifi → Wifi
stop_sta w = record w { sta_active = false; sta_ssid = "" }

abbrev pub stop_all : Wifi → Wifi
stop_all w = stop_sta (stop_ap w)

abbrev ap_ip : String
ap_ip = "192.168.4.1"

-- `ap_start` past the check of the mode, under the lock.
pub raise_ap : Radio → String → String → ℕ → Wifi → Wifi × Reply
raise_ap r ssid password channel w =
    if not r.hostapd
    then (stop_all w, hostapd_failed)
    else if not r.dnsmasq
    then (stop_all w, dnsmasq_failed)
    else (
      record (stop_all w) {
        ap_active = true;
        ap_ssid = ssid;
        ap_password = password;
        ap_channel = channel;
        stations = [];
      },
      raised_ap ap_ip,
    )

pub ap_start : Radio → String → String → ℕ → Wifi → Wifi × Reply
unfolding raise_ap
ap_start r ssid password channel w =
    if not (is_testing w.mode) then (w, disabled) else raise_ap r ssid password channel w

pub ap_stop : Wifi → Wifi
ap_stop w = stop_ap w

-- active, ssid, channel and stations
pub ap_status : Wifi → Bool × String × ℕ × Dict String
ap_status w =
    if w.ap_active then (true, w.ap_ssid, w.ap_channel, w.stations) else (false, "", 0, [])

pub saved_of : Wifi → Option Saved
saved_of w =
    if w.ap_active
    then some (record { ssid = w.ap_ssid; password = w.ap_password; channel = w.ap_channel })
    else none

abbrev addressed : String → Option (String × String) → Wifi → Wifi × Reply
addressed ssid none w = (stop_sta w, no_address)
addressed ssid (some (ip, gateway)) w =
    (record w { sta_active = true; sta_ssid = ssid }, joined ip gateway)

-- `sta_join` past the check of the mode.
pub join : Radio → String → Wifi → Wifi × Reply
unfolding saved_of
join r ssid w =
    let w1 : Wifi = record (stop_all w) { saved = saved_of w } in
    if not r.connects then (stop_sta w1, not_connected) else addressed ssid r.address w1

pub sta_join : Radio → String → Wifi → Wifi × Reply
unfolding join
sta_join r ssid w = if not (is_testing w.mode) then (w, disabled) else join r ssid w

abbrev restored : Radio → Option Saved → Wifi → Wifi × Reply
restored r none w = (w, done)
restored r (some s) w = ap_start r s.ssid s.password s.channel w

pub sta_leave : Radio → Wifi → Wifi × Reply
sta_leave r w = restored r w.saved (record (stop_sta w) { saved = none })

abbrev pub same_mode : Mode → Mode → Bool
same_mode wifi_testing wifi_testing = true
same_mode serial_interface serial_interface = true
same_mode a b = false

abbrev pub is_joined : Reply → Bool
is_joined (joined ip gateway) = true
is_joined _ = false

-- The revert when joining fails.
abbrev kept_mode : Wifi × Reply → Wifi × Reply
kept_mode (w, r) =
    if is_joined r then (w, r) else (record w { mode = wifi_testing; mode_ssid = "" }, r)

-- What `set_mode` does to the state under its lock, before it joins.
abbrev pub enter_mode : Mode → String → Wifi → Wifi
enter_mode wifi_testing ssid w = record (stop_all w) { mode = wifi_testing; mode_ssid = "" }
enter_mode serial_interface ssid w = record (stop_all w) {
  mode = serial_interface;
  mode_ssid = ssid;
}

change_mode : Radio → Mode → String → Wifi → Wifi × Reply
unfolding join
change_mode r wifi_testing ssid w = (enter_mode wifi_testing ssid w, done)
change_mode r serial_interface ssid w =
    if str_eq ssid ""
    then (w, ssid_required)
    else kept_mode (join r ssid (enter_mode serial_interface ssid w))

-- `set_mode`; `none` is a mode that is not known.
pub set_mode : Radio → Option Mode → String → Wifi → Wifi × Reply
unfolding change_mode
set_mode r none ssid w = (w, unknown_mode)
set_mode r (some m) ssid w = if same_mode m w.mode then (w, done) else change_mode r m ssid w

pub shutdown : Wifi → Wifi
shutdown w = record (stop_all w) { mode = wifi_testing; mode_ssid = "" }

-- The address is in lower case; `none` is an empty host name.
pub handle_lease_event : String → String → String → Option String → Wifi → Wifi
handle_lease_event action mac ip hostname w =
    if str_eq action "add" || str_eq action "old"
    then record w {
      stations = put mac ip w.stations;
      events = w.events ++ sta_connect mac ip hostname ∷ [];
    }
    else if str_eq action "del"
    then record w { stations = pop mac w.stations; events = w.events ++ sta_disconnect mac ∷ [] }
    else w

-- `get_events` without a wait.
pub get_events : Wifi → Wifi × List Event
get_events w = (record w { events = [] }, w.events)

abbrev sniffing : String → Wifi × Reply → Wifi × Reply
sniffing ssid (w, raised_ap ip) =
    (record w { sniffer_active = true; sniffer_ssid = ssid }, raised_ap ip)
sniffing ssid (w, r) = (w, r)

pub sniffer_start : Radio → String → String → ℕ → Wifi → Wifi × Reply
unfolding ap_start
sniffer_start r ssid password channel w = sniffing ssid (ap_start r ssid password channel w)

pub sniffer_stop : Wifi → Wifi
unfolding ap_stop
sniffer_stop w = record (ap_stop w) { sniffer_active = false; sniffer_ssid = "" }

-- A call that no other call overlaps, and a run of them; Wifi/Steps has calls that overlap.
pub data Act : Type 0 where
  starting_ap sniffing_on : Radio → String → String → ℕ → Act
  stopping_ap stopping_sniffer shutting_down draining : Act
  joining : Radio → String → Act
  leaving : Radio → Act
  switching : Radio → Option Mode → String → Act
  lease : String → String → String → Option String → Act

pub perform : Act → Wifi → Wifi
unfolding ap_start ap_stop sta_join sta_leave set_mode shutdown handle_lease_event get_events
    sniffer_start sniffer_stop
perform (starting_ap r ssid password channel) w = (ap_start r ssid password channel w).0
perform (sniffing_on r ssid password channel) w = (sniffer_start r ssid password channel w).0
perform stopping_ap w = ap_stop w
perform stopping_sniffer w = sniffer_stop w
perform shutting_down w = shutdown w
perform draining w = (get_events w).0
perform (joining r ssid) w = (sta_join r ssid w).0
perform (leaving r) w = (sta_leave r w).0
perform (switching r m ssid) w = (set_mode r m ssid w).0
perform (lease action mac ip hostname) w = handle_lease_event action mac ip hostname w

pub perform_all : List Act → Wifi → Wifi
unfolding perform
perform_all [] w = w
perform_all (a ∷ rest) w = perform_all rest (perform a w)
