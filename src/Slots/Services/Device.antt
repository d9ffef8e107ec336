-- ===== src/Slots/Services/Device.antt =====
-- pi/portal.py: `flash_device` and `read_flash_device`, which lend a slot's port to esptool, and what the
-- former does with a debug session on the slot.
pub mod Sessions
use text.Mathlib.Text.{starts_with}
use embedded_ai_harness.Prelude.{
  ℕ, ◌+◌, String, Bool, true, false, not, ◌&&◌, ◌||◌, Option, none, some, List, [], ◌∷◌, ◌++◌,
  if◌then◌else◌, leb, map, str_eq, ◌==◌,
}
use embedded_ai_harness.Prelude.Dict.{Dict, get, put}
use embedded_ai_harness.Slots.{Slot, SlotState, resetting}
use embedded_ai_harness.Slots.Usb.{or_empty, texts}
use embedded_ai_harness.Slots.Hotplug.{Env, stop_proxy, settled}
use embedded_ai_harness.Slots.Services.{
  Machine, Esptool, timed_out, raised, exited, Step, run_esptool, start_proxy, stops, number,
}
use embedded_ai_harness.Debug.{Debugger, Reply}
use embedded_ai_harness.Debug as OpenOcd
use embedded_ai_harness.Debug.Sessions.{Request, start, stop, is_debugging, jtag_reset}

-- `t in s` for texts
unfoldable pub is_within : String → String → Bool
is_within t String.[] = str_eq t ""
is_within t (String.◌∷◌ c s) = starts_with (String.◌∷◌ c s) t || is_within t s

abbrev is_resetting : SlotState → Bool
is_resetting resetting = true
is_resetting _ = false

abbrev restored : Slot × List Step → Slot × List Step
restored (s, steps) = (if is_resetting s.state then record s { state = settled s } else s, steps)

abbrev without_result : Slot × Bool × List Step → Slot × List Step
without_result (s, ok, steps) = (s, steps)

-- `if was_running and not slot.get("running")`, where it was.
restarted : Machine → Bool → Slot → Slot × List Step
unfolding start_proxy
restarted m true s = (s, [])
restarted m false s = without_result (start_proxy m s)

-- With whether the proxy was running.
lent : Machine → Env → List Step → Bool → Slot → Slot × List Step
unfolding restarted
lent m env run true s =
    let (s1, es) = stop_proxy env s in
    let s2 = m.meanwhile (record s1 { state = resetting }) in
    let (s3, later) = restored (restarted m s2.running s2) in (s3, stops es ++ run ++ later)
lent m env run false s =
    let (s3, later) = restored (m.meanwhile (record s { state = resetting }), []) in
    (s3, run ++ later)

-- The proxy's way through both operations: stopped if it runs, the slot `resetting` while esptool does what
-- `run` says, the proxy started if it ran, and the state set back. The slot's lock is free while esptool runs,
-- and other requests may change the slot then.
pub borrow : Machine → Env → List Step → Slot → Slot × List Step
unfolding lent
borrow m env run s = lent m env run s.running s

-- The basenames of the files and the arguments, with the directory that the files are written to.
pub record Upload : Type 0 where
  pub names : List String
  pub args : List String
  pub tmpdir : String
  pub timeout : String

-- The paths of the files, or the first name that is refused.
pub data Paths : Type 0 where
  bad_name : String → Paths
  paths : Dict String → Paths

pub paths_of : String → List String → Dict String → Paths
unfolding is_within
paths_of tmpdir [] d = paths d
paths_of tmpdir (n ∷ rest) d =
    let more = paths_of tmpdir rest (put n (texts (tmpdir ∷ "/" ∷ n ∷ [])) d) in
    if is_within "/" n || is_within ".." n then bad_name n else more

abbrev or_self : String → Option String → String
or_self a none = a
or_self a (some p) = p

resolved : Dict String → List String → List String
resolved d args = map (λ a. or_self a (get a d)) args

-- What is answered: refused before anything is done; an error with the output and the exit code; the output.
pub data DeviceReply : Type 0 where
  not_done : String → DeviceReply
  failed_with : String → String → String → DeviceReply
  done : String → DeviceReply

abbrev device_reply : String → Esptool → DeviceReply
device_reply timeout timed_out =
    failed_with (texts ("esptool timed out after " ∷ timeout ∷ "s" ∷ [])) "" "-1"
device_reply timeout (raised e) = failed_with (texts ("flash failed: " ∷ e ∷ [])) "" "-1"
device_reply timeout (exited true code out) = done out
device_reply timeout (exited false code out) =
    failed_with (texts ("esptool exited " ∷ code ∷ [])) out code

device_run : Machine → Upload → String → Paths → DeviceReply × List Step
unfolding resolved
device_run m u devnode (bad_name n) =
    (failed_with (texts ("invalid filename: " ∷ n ∷ [])) "" "-1", [])
device_run m u devnode (paths d) =
    let cmd = "--port" ∷ devnode ∷ resolved d u.args in
    (device_reply u.timeout (m.esptool cmd), run_esptool cmd ∷ [])

-- What `_restore_debug_running` asks of `debug_controller.start`.
abbrev pub session_request : String → Slot → Request
session_request label s = record {
  label = label;
  present = s.present;
  usb_prefix = s.usb_prefix;
  gdb_port = s.gdb_port;
  telnet_port = s.openocd_telnet_port;
  chip = s.auto_debug_chip;
  probe = none;
}

-- `_restore_debug_running`; what is sent to OpenOCD after it changes no state.
pub restore_debug_running : OpenOcd.Host → Slot → String → Debugger → Debugger
restore_debug_running host s label d = (start host (session_request label s) d).0

-- The debug sessions: where the slot had one, it is stopped before the slot is lent, and one is started for
-- the slot that comes back.
pub sessions_after : OpenOcd.Host → Bool → String → Slot → Debugger → Debugger
unfolding restore_debug_running
sessions_after host true label s d = restore_debug_running host s label (stop label d).0
sessions_after host false label s d = d

-- `flash_device`: the slot, the debug sessions, the answer and the steps.
pub flash_device :
    Machine
    → OpenOcd.Host
    → Env
    → Upload
    → Slot
    → Debugger
    → Slot × Debugger × DeviceReply × List Step
unfolding borrow device_run paths_of sessions_after
flash_device m host env u s d =
    let devnode = or_empty s.devnode in
    if str_eq devnode ""
    then (s, d, not_done (texts (s.label ∷ ": no device node" ∷ [])), [])
    else if not s.present
    then (s, d, not_done (texts (s.label ∷ ": device not present" ∷ [])), [])
    else (let (reply, run) = device_run m u devnode (paths_of u.tmpdir u.names []) in
        let (s', steps) = borrow m env run s in
        (s', sessions_after host (is_debugging s.label d) s.label s' d, reply, steps))

-- A request of `read_flash_device`; the offset as `hex` prints it, and whether esptool left an output file.
pub record Reading : Type 0 where
  pub offset : String
  pub count : ℕ
  pub chip : String
  pub baud : String
  pub outfile : String
  pub is_written : Bool
  pub timeout : String

abbrev read_reply : Reading → Esptool → DeviceReply
read_reply q timed_out =
    failed_with (texts ("esptool timed out after " ∷ q.timeout ∷ "s" ∷ [])) "" "-1"
read_reply q (raised e) = failed_with (texts ("read-flash failed: " ∷ e ∷ [])) "" "-1"
read_reply q (exited true code out) =
    if q.is_written then done out else failed_with "esptool produced no output file" out code
read_reply q (exited false code out) = failed_with (texts ("esptool exited " ∷ code ∷ [])) out code

abbrev chip_args : String → List String → List String
chip_args chip args =
    if not (str_eq chip "") && not (str_eq chip "auto") then "--chip" ∷ chip ∷ args else args

abbrev read_command : Reading → String → List String
read_command q devnode =
    "--port"
    ∷ devnode
    ∷ chip_args q.chip
        ("--baud" ∷ q.baud ∷ "read-flash" ∷ q.offset ∷ number q.count ∷ q.outfile ∷ [])

read_out : Machine → Env → Reading → String → Slot → Slot × DeviceReply × List Step
unfolding borrow
read_out m env q devnode s =
    let cmd = read_command q devnode in
    let (s', steps) = borrow m env (run_esptool cmd ∷ []) s in
    (s', read_reply q (m.esptool cmd), steps)

-- `read_flash_device`; a length below 1 is 0.
pub read_flash_device : Machine → Env → Reading → Slot → Slot × DeviceReply × List Step
unfolding read_out
read_flash_device m env q s =
    let devnode = or_empty s.devnode in
    if str_eq devnode ""
    then (s, not_done (texts (s.label ∷ ": no device node" ∷ [])), [])
    else if not s.present
    then (s, not_done (texts (s.label ∷ ": device not present" ∷ [])), [])
    else if q.count == 0
    then (s, not_done "length must be positive", [])
    else read_out m env q devnode s
