-- ===== src/Sdr/Examples.antt =====
-- pi/sdr_controller.py: tests, and the theorems at concrete inputs.
use embedded_ai_harness.Prelude.{
  ℕ, ◌-◌, ◌≤◌, ◌<◌, min, ◌/◌, String, true, false, none, some, List, [], ◌∷◌, ◌≡◌, ◌⊎◌, refl, inl,
  arith, length, drop, str_eq, if◌then◌else◌, ◌==◌,
}
use embedded_ai_harness.Prelude.Int.{pos, negsuc}
use embedded_ai_harness.Sdr.{
  Receiver, Hardware, idle, at_rest, busy_with, is_live, live_events, hardware_status, stop_live,
  reap, has_proc,
}
use embedded_ai_harness.Sdr.Steps.{
  Event, capture_begins, live_starts, settles, live_stops, line_read, run_all,
}
use embedded_ai_harness.Sdr.Lock.{IsValid, run_all-IsValid}
use embedded_ai_harness.Sdr.Console.{entries, read_lines, live_events-read_lines}
use embedded_ai_harness.Sdr.Reaping.{restarted, reap-restarted, hardware_status-stop_live}
use embedded_ai_harness.Sdr.Codewords.{Code, repeat_unit}
use embedded_ai_harness.Sdr.Codewords.Shortest.{Repeats, IsUnit, repeat_unit-IsShortest}
use embedded_ai_harness.Sdr.Power.{Floats, scan_rows, nothing}
use embedded_ai_harness.Sdr.Power.Peak.{IsMeasured, readings, scan_rows-IsMeasured}
use embedded_ai_harness.Sdr.Acquire.{Air, polls_in, gains_of, acquire}
use embedded_ai_harness.Sdr.Acquire.Gains.{Reports, acquire-Reports}

abbrev found : Hardware
found = record { rtl_433 = true; rtl_test = true; device = true }

abbrev new_receiver : Receiver
new_receiver = record {
  locked = false;
  capturing = false;
  proc = none;
  admin = idle;
  live_proc = none;
  live_running = false;
  live_owns_lock = false;
  barrier = false;
  reapers = 0;
  processes = [];
  last_pid = 0;
  state = at_rest;
  live_buf = [];
  live_seq = 0;
  log_active = false;
  log = [];
  hardware = found;
  hw_probed_at = 0;
}

new_receiver-IsValid : IsValid new_receiver
unfolding has_proc
new_receiver-IsValid = record {
  lock = refl;
  apart = refl;
  barred = refl;
  live_has = refl;
  shot_has = refl;
  held = tt;
}

abbrev day : List Event
day =
    live_starts found true 433920000
    ∷ capture_begins found true "decode" 433920000
    ∷ settles
    ∷ line_read "hello"
    ∷ live_stops
    ∷ capture_begins found true "decode" 868000000
    ∷ []

run_all-IsValid_example : IsValid (run_all day new_receiver)
run_all-IsValid_example = run_all-IsValid day new_receiver new_receiver-IsValid

abbrev two_lines : List String
two_lines = "one" ∷ "two" ∷ []

live_events-read_lines_example :
    live_events 0 (read_lines two_lines new_receiver) ≡ drop (2 - 600) (entries 0 two_lines)
live_events-read_lines_example =
    live_events-read_lines two_lines new_receiver
      (record { count = omega arith; within = omega arith; numbered = tt })

reap-restarted_example :
    let q = restarted found 433920000 new_receiver in
    (is_live q ≡ true)
    × (q.processes ≡ 2 ∷ [])
    × (q.reapers ≡ 1)
    × (is_live (reap q) ≡ false)
    × ((reap q).processes ≡ [])
reap-restarted_example = reap-restarted found 433920000 new_receiver

abbrev in_use : Receiver
in_use = record new_receiver {
  locked = true;
  capturing = true;
  proc = some 1;
  last_pid = 1;
  processes = 1 ∷ [];
  state = busy_with "decode" 433920000;
}

abbrev not_found : Hardware
not_found = record { rtl_433 = true; rtl_test = true; device = false }

hardware_status-stop_live_example :
    let q = hardware_status 9000 not_found (stop_live in_use) in
    (q.hardware ≡ not_found) × (q.capturing ≡ true) × (q.locked ≡ true) × (q.processes ≡ 1 ∷ [])
unfolding has_proc
hardware_status-stop_live_example =
    hardware_status-stop_live 9000 not_found in_use
      (record {
        lock = refl;
        apart = refl;
        barred = refl;
        live_has = refl;
        shot_has = refl;
        held = inl refl;
      })
      refl refl (omega arith)

-- "800" and then "7f45dfd17" twice, as code points.
abbrev row : Code
row =
    56 ∷ 48 ∷ 48 ∷ 55 ∷ 102 ∷ 52 ∷ 53 ∷ 100 ∷ 102 ∷ 100 ∷ 49 ∷ 55 ∷ 55 ∷ 102 ∷ 52 ∷ 53 ∷ 100 ∷ 102
    ∷ 100 ∷ 49 ∷ 55 ∷ []

repeat_unit-IsShortest_example :
    let u = repeat_unit row in
    ((u ≡ row) ⊎ ((start : ℕ) × (q : ℕ) × IsUnit row u start q))
    × ((start q : ℕ) → start < min 16 (21 / 2) → Repeats (drop start row) q → length u ≤ q)
repeat_unit-IsShortest_example = repeat_unit-IsShortest row

abbrev floats : Floats
floats = record {
  hertz = λ s. if str_eq s "433" then some 43300 else if str_eq s "1" then some 100 else none;
  decibel = λ s.
      if str_eq s "-20"
      then some (negsuc 1999)
      else if str_eq s "-3"
      then some (negsuc 299)
      else none;
}

abbrev printed : List (List String)
printed = ("d" ∷ "t" ∷ "433" ∷ "436" ∷ "1" ∷ "2" ∷ "-20" ∷ "-3" ∷ "nan?" ∷ []) ∷ []

scan_rows-IsMeasured_example :
    IsMeasured 433 1 (readings floats printed) (scan_rows floats 433 1 printed nothing)
scan_rows-IsMeasured_example = scan_rows-IsMeasured floats 433 1 printed

abbrev air : Air
air = record {
  poll = λ i. if i == 1 then none else some (record { margin = pos 900; peak_freq_hz = 433930000 });
  analyze = λ c g. record {
    pulse_bins = 2;
    suggested = if g == 9 then some "n=remote" else none;
    fsk_dominated = false;
  };
  window = λ i c flex g. record { rssi = some (negsuc 99); rows = some row ∷ [] } ∷ [];
  builtin = λ c g. [];
}

acquire-Reports_example :
    Reports air 433920000 (polls_in 30) (gains_of none) none (acquire air 433920000 30 none none)
acquire-Reports_example = acquire-Reports air 433920000 30 none none
