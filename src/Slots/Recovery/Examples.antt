-- ===== src/Slots/Recovery/Examples.antt =====
-- pi/portal.py: a board that keeps crashing, with its pins wired and without.
use embedded_ai_harness.Prelude.{
  ℕ, ◌+◌, ◌-◌, min, ◌≡◌, ◌≢◌, refl, arith, true, false, none, some, Option, [], ◌∷◌, List, length,
  if◌then◌else◌,
}
use embedded_ai_harness.Slots.{Slot, sample_slot, recovering, flapping, download_mode}
use embedded_ai_harness.Slots.Usb.{or_empty}
use embedded_ai_harness.Slots.Hotplug.{Env}
use embedded_ai_harness.Slots.Services.{Machine, process, exited, timed_out}
use embedded_ai_harness.Slots.Recovery.Wiring.{test_gpio_wiring}
use embedded_ai_harness.Slots.Recovery.Wiring.Released.{Leaves, test_gpio_wiring-Leaves}
use embedded_ai_harness.Slots.Recovery.{
  Host, Pins, drive, free, pulled_up, driven, no_fault, late, moved, download_mode_reached,
  recover_with_gpio,
}
use embedded_ai_harness.Slots.Recovery.Boot.{recover_with_gpio-boot}
use embedded_ai_harness.Slots.Recovery.Requests.{
  Pin, Value, number, level, is_allowed, handle_all, handle_all-forbidden,
}
use embedded_ai_harness.Slots.Recovery.Retries.{
  Act, recovery, perform_all, recoveries, perform_all-rebinds,
}

abbrev env : Env
env = record {
  now = 0;
  stamp = 0;
  host_ip = "10.0.0.2";
  exists = λ _. true;
  is_alive = λ _. true;
  udev = λ _. none;
  scan = λ _. [];
}

abbrev machine : Machine
machine = record {
  proxy_exe = "/usr/local/bin/plain_rfc2217_server.py";
  exe_exists = true;
  host_ip = "10.0.0.2";
  settles = λ _. true;
  popen = λ _ _ _. process 4711;
  exit_code = none;
  listens = λ round port. true;
  esptool = λ _. timed_out;
  meanwhile = λ s. s;
}

-- Every call for EN, pin 17, fails; the device does not answer.
abbrev host : Host
host = record {
  exists = λ _. true;
  fault = λ n pin. if embedded_ai_harness.Prelude.leb 18 pin then no_fault else late;
  devnode_of = λ _. some "/dev/ttyACM1";
  esptool = λ _. exited false "2" "";
}

abbrev wired : Slot
wired = record sample_slot {
  gpio_boot = some 18;
  gpio_en = some 17;
  state = recovering;
  recovering = true;
}

abbrev all_free : Pins
all_free = record { line = λ _. free; calls = 0 }

recover_with_gpio-boot_example :
    let reached = (download_mode_reached host (or_empty (moved host "1-1.3" wired))).0 in
    let (s', b', rebinds) = recover_with_gpio host "1-1.3" wired all_free in
    (s'.state ≡ (if reached then download_mode else flapping))
    × (b'.line 18 ≡ (if reached then driven false else pulled_up))
    × (s'.recovering ≡ false)
recover_with_gpio-boot_example =
    recover_with_gpio-boot host "1-1.3" wired all_free 18 refl (omega arith) (λ n. refl)

abbrev three_storms : List Act
three_storms = recovery "1-1.3" ∷ recovery "1-1.3" ∷ recovery "1-1.3" ∷ []

perform_all-rebinds_example :
    let (s', bound) = perform_all three_storms sample_slot in
    (length bound ≡ min (recoveries three_storms) (2 - sample_slot.recover_retries))
    × (s'.recover_retries ≡ sample_slot.recover_retries + length bound)
perform_all-rebinds_example = perform_all-rebinds three_storms sample_slot

-- EN works, the ROM is heard, and the device is reached.
abbrev wired_host : Host
wired_host = record host { fault = λ n pin. no_fault; esptool = λ _. exited true "0" "ESP32" }

test_gpio_wiring-Leaves_example :
    Leaves 18 wired all_free (test_gpio_wiring wired_host machine env true wired all_free)
test_gpio_wiring-Leaves_example =
    test_gpio_wiring-Leaves wired_host machine env true wired all_free 18 refl (omega arith)
      (λ n. refl)

-- A client asks for pin 4, and then for pin 20.
abbrev bodies : List (Option (Option Pin × Option Value))
bodies =
    some (some (number 4), some (level (drive true)))
    ∷ some (some (number 20), some (level (drive true)))
    ∷ []

forbidden_pin : is_allowed 4 ≡ false
unfolding is_allowed
forbidden_pin = refl

handle_all-forbidden_example : (handle_all wired_host bodies all_free).line 4 ≡ free
handle_all-forbidden_example = handle_all-forbidden wired_host bodies all_free 4 forbidden_pin
