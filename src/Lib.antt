-- ===== src/Lib.antt =====
-- A verification library of the testbench service of this repository: the portal on the Raspberry Pi
-- (pi/portal.py) that leases its serial slots, watches their USB devices and drives the instruments
-- around them, and the drivers of those instruments (pi/*.py).
--
-- The parts, and the files that model them:
--
--   * Slots: the record of a slot, as `_make_slot` of pi/portal.py builds it.
--   * Slots/Config: the slots that `load_config` makes, the ports that they get, and the slot that a
--     USB path belongs to (`_next_available_port`, `_make_slot`, `_find_fixed_slot_for_key`).
--   * Slots/Usb: the name of a slot's device in sysfs (`_slot_key_to_usb_device`).
--   * Slots/Lease: the slot access manager (`slot_acquire`, `slot_renew`, `slot_release`,
--     `slot_mode`). Lease/Steps puts the four operations together to a server that takes any requests
--     in turn; Lease/Acquire, Lease/Valid and Lease/Promises hold the proofs.
--   * Slots/Hotplug: the handler of a udev event (`_handle_hotplug`), the detection of connect and
--     disconnect storms, and the start of a recovery (`_start_flap_recovery`). It works on the slots
--     of Slots/Config and names devices by Slots/Usb. Hotplug/Boot is the start of the portal: the
--     configured slots and the scan for devices (`main`, `scan_existing_devices`), by `start_proxy` of
--     Slots/Services.
--   * Slots/Services: `start_proxy` and the flash operations of pi/portal.py, which take a slot's port
--     from its proxy and give it back (`flash_slot`, `flash_device`, `read_flash_device`).
--     `flash_device` stops and starts debug sessions through Debug.
--   * Slots/Recovery: what the recovery threads do that Slots/Hotplug starts (`_recover_with_gpio`,
--     `_recover_without_gpio`), with the BOOT and EN pins (`_gpio_set`, `_release_slot_gpio`), and the
--     measurement of their wiring (`test_gpio_wiring`). Recovery/Requests is what clients may do to
--     the pins (`_handle_gpio_set`).
--   * Debug: the OpenOCD sessions and the probes of pi/debug_controller.py. Debug/Detect finds out the
--     chip; Debug/Sessions has the operations, and below it Marks, Probes and Chips hold the proofs;
--     Contract is what callers rely on, and Refinement shows that the operations keep to it; Fallback
--     is their client in pi/portal.py (`_handle_debug_start`).
--   * Proxy: the RFC 2217 side of pi/serial_proxy.py: the bytes from the client (Proxy, Proxy/Stream)
--     and the port settings (Proxy/Settings).
--   * Sniffer: the host name in a TLS ClientHello, and the record of the traffic, pi/sniffer.py.
--   * Wifi: which of access point, station and sniffer has the radio, pi/wifi_controller.py;
--     Wifi/Steps has calls that overlap.
--   * Mirror: the file that a URL names, pi/tls_mirror_controller.py.
--   * Sdr: the RTL-SDR receiver of pi/sdr_controller.py: who holds the dongle (Sdr/Lock), the
--     console's ring buffer (Sdr/Ring, Sdr/Console), what the clean-up of the console does
--     (Sdr/Reaping), the levels (Sdr/Power), the codewords (Sdr/Codewords) and the staged acquisition
--     (Sdr/Acquire). Sdr/Steps puts the steps of its threads together, and Sdr/Commands has the
--     command lines of the captures.
--   * Slots/Monitor: what is read from the monitor port of a slot (`serial_monitor` of pi/portal.py).
--   * Slots/Status: what is reported of a slot (`_slot_info`, `_refresh_slot_health`), and where its
--     JTAG comes from (`detect_slot_jtag` of pi/debug_controller.py).
--   * Driver: the client in pytest/testbench_driver.py: refusals and lost answers, and the wait for an
--     event of Wifi.
--   * Firmware: the handlers of the firmware repository and the parts of a multipart body,
--     pi/portal.py.
--   * Rf/Si5351, Rf/Clock, Rf/Attenuator: the drivers pi/si5351.py, pi/gpclk.py and pi/pe4302.py. What
--     a driver does is a list of register writes or pin levels, and the part behind it is a function
--     that reads them.
--   * Rf/Morse and Rf/Gpio: the keyer pi/morse.py, and the registers of pi/bcm_gpio.py.
--   * Rf/Generator: the facade pi/signal_generator.py over those drivers.
--   * Mqtt: the broker's life cycle, pi/mqtt_controller.py.
--   * Netscan: the port list, the target rules and the scan, pi/netscan_controller.py.
--   * Operator, Progress: the prompt for the operator (`_handle_human_interaction` and the buttons)
--     and the progress of a test session (`_handle_test_update`), both of pi/portal.py.
--   * Prelude: Python's comparisons, dictionaries, integers and rounding, shared by all of these.
--
-- State and operations. Module state and the fields of `self` are records that an operation takes
-- and returns; a handler that changes a slot in place returns the slot. Exceptions are constructors
-- of a result type. What the code asks of the operating system (clocks, /proc, sysfs, processes,
-- the I2C bus, threads that it starts) is a record `Env` or an argument, one answer for each
-- question; what it sets going there is a list of effects. Locks are left out: an operation runs as
-- one step, as it does under its lock; in Sdr, whose lock is held across requests, the lock is
-- state and the steps of the threads interleave, and Wifi/Steps has the calls that look at the mode
-- before they take the lock. While `flash_device` runs esptool with the slot's lock free, what
-- other requests make of the slot is a parameter. Times are natural numbers of milliseconds,
-- frequencies of hertz and attenuations of thousandths of a decibel, where the code has floats; a
-- quotient of floats is the exact fraction, rounded as Python's `round` does it.
--
-- Bounds and fuel. The loops of Si5351.set_frequency recur on 1800 rounds, more than the dividers
-- there are; the wait of the GPCLK driver on the 100 rounds that the code has; the search for a
-- free port on one round more than there are ports in use; the loop of `handle_rfc2217` on as many
-- as there are bytes, for every round reads one (Proxy/Rounds); the loop over the extensions of a
-- ClientHello on the bytes that are left, of which a round reads four; the wait for the proxy's
-- ports on the code's 20; the loop of `serial_monitor` over its buffer on as many rounds as there
-- are bytes (Slots/Monitor/Bytes); the loops of `_repeat_unit` and of `acquire` on the code's own
-- counts. The port scan is a relation between its states, for its checks are done in any order. All
-- other recursion is structural.
--
-- Not modelled: the HTTP server, its routes and the web page; the sockets of the serial proxies and
-- of the TLS mirror; BLE, which is calls of bleak; the texts that rtl_433, esptool and OpenOCD
-- print, but for what is read from them; the firmware for the boards; and the client tools, which
-- are I/O or glue around third-party programs. pi/scripts/espota.py is a copy of another project's
-- script. The threads that a hotplug event or the scan at the start sets going, the bench reset of
-- pi/portal.py, its reset sequences over the serial line and the methods of the driver that only
-- build a request are left out as yet.
mod Prelude
pub mod Debug
pub mod Driver
pub mod Firmware
pub mod Mirror
pub mod Mqtt
pub mod Netscan
pub mod Operator
pub mod Progress
pub mod Proxy
pub mod Rf
pub mod Sdr
pub mod Slots
pub mod Sniffer
pub mod Wifi
