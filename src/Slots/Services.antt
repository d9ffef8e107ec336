-- ===== src/Slots/Services.antt =====
-- pi/portal.py: the serial proxy of a slot, and the flash operations that take the port from it. What the
-- operating system and esptool answer is a `Machine`; what they are asked to do is a list of steps.
pub mod Port
pub mod Device
mod Examples
use embedded_ai_harness.Prelude.{
  ℕ, zero, suc, ◌+◌, String, Bool, true, false, not, ◌&&◌, ◌||◌, Option, none, some, List, [], ◌∷◌,
  ◌++◌, if◌then◌else◌, str_eq,
}
use embedded_ai_harness.Prelude.Dict.{Dict, get}
use embedded_ai_harness.Slots.{
  Slot, SlotState, absent, idle, resetting, monitoring, flapping, recovering, download_mode,
  debugging, flashing,
}
use embedded_ai_harness.Slots.Config.{decimal}
use embedded_ai_harness.Slots.Usb.{or_empty, texts}
use embedded_ai_harness.Slots.Hotplug.{Env, Effect, kill, stop_proxy, settled}

-- `Popen`: an exception with its text, or the process.
pub data Popen : Type 0 where
  popen_failed : String → Popen
  process : ℕ → Popen

-- A run of esptool; with its exit code as a text and the end of its output.
pub data Esptool : Type 0 where
  timed_out : Esptool
  raised : String → Esptool
  exited : Bool → String → String → Esptool

pub record Machine : Type 0 where
  -- PROXY_EXE, and whether it exists
  pub proxy_exe : String
  pub exe_exists : Bool
  pub host_ip : String
  -- `wait_for_device`, `Popen` with the two ports and the device, and `poll` after half a second
  pub settles : Option String → Bool
  pub popen : ℕ → ℕ → Option String → Popen
  pub exit_code : Option String
  -- `is_port_listening`, by the round of the loop
  pub listens : ℕ → ℕ → Bool
  pub esptool : List String → Esptool
  -- what other requests make of the slot while `flash_device` runs esptool, with the slot's lock free
  pub meanwhile : Slot → Slot

pub data Step : Type 0 where
  stop_pid : ℕ → Step
  launch : ℕ → ℕ → Option String → Step
  start_recorder : Step
  run_esptool : List String → Step

abbrev pub number : ℕ → String
number n = decimal (suc n) n

abbrev pub shown : Option String → String
shown none = "None"
shown (some t) = t

-- The rounds of the loop that waits for both ports.
pub comes_up : Machine → ℕ → ℕ → ℕ → ℕ → Bool
comes_up m zero round tcp monitor = false
comes_up m (suc left) round tcp monitor =
    (m.listens round tcp && m.listens round monitor) || comes_up m left (suc round) tcp monitor

abbrev failed : String → Slot → List Step → Slot × Bool × List Step
failed error s steps = (record s { last_error = some error }, false, steps)

-- `s` has its monitor port.
polled : Machine → ℕ → Slot → ℕ → Option String → List Step → Slot × Bool × List Step
unfolding comes_up
polled m monitor s pid (some code) steps =
    failed (texts ("Proxy exited immediately (code " ∷ code ∷ ")" ∷ [])) s steps
polled m monitor s pid none steps =
    if comes_up m 20 0 s.tcp_port monitor
    then (
      record s {
        running = true;
        pid = some pid;
        last_error = none;
        url = some (record { host = m.host_ip; port = s.tcp_port });
        state = idle;
      },
      true,
      steps ++ start_recorder ∷ [],
    )
    else failed "Proxy started but port not listening" s (steps ++ stop_pid pid ∷ [])

launched : Machine → ℕ → Slot → Popen → Slot × Bool × List Step
unfolding polled
launched m monitor s (popen_failed error) =
    failed error s (launch s.tcp_port monitor s.devnode ∷ [])
launched m monitor s (process pid) =
    polled m monitor s pid m.exit_code (launch s.tcp_port monitor s.devnode ∷ [])

-- `start_proxy`: the slot, the result, and the steps.
pub start_proxy : Machine → Slot → Slot × Bool × List Step
unfolding launched
start_proxy m s =
    if not m.exe_exists
    then failed (texts ("Proxy executable not found: " ∷ m.proxy_exe ∷ [])) s []
    else if not (m.settles s.devnode)
    then failed (texts ("Device " ∷ shown s.devnode ∷ " not ready after settle timeout" ∷ [])) s []
    else let monitor = s.tcp_port + 1000 in
      launched m monitor (record s { monitor_port = some monitor })
        (m.popen s.tcp_port monitor s.devnode)

-- The signals of `stop_proxy`, as steps.
abbrev pub stops : List Effect → List Step
stops [] = []
stops (kill pid ∷ es) = stop_pid pid ∷ stops es
stops (_ ∷ es) = stops es

-- The STATE_ constants.
state_name : SlotState → String
state_name absent = "absent"
state_name idle = "idle"
state_name resetting = "resetting"
state_name monitoring = "monitoring"
state_name flapping = "flapping"
state_name recovering = "recovering"
state_name download_mode = "download_mode"
state_name debugging = "debugging"
state_name flashing = "flashing"

-- An image, with the keys that may be missing.
pub record Image : Type 0 where
  pub offset : Option String
  pub bytes : Option (List ℕ)

-- A request of `flash_slot`, with the directory that `mkdtemp` makes; `none` where it raises.
pub record Flash : Type 0 where
  pub images : List Image
  pub chip : String
  pub baud : ℕ
  pub erase : Bool
  pub tmpdir : Option String

abbrev image_args : String → ℕ → Option String → Option (List ℕ) → Option (List String)
image_args tmpdir i (some offset) (some bytes) =
    some (offset ∷ texts (tmpdir ∷ "/img" ∷ number i ∷ ".bin" ∷ []) ∷ [])
image_args tmpdir i _ _ = none

-- The arguments for the images from number `i` on, or the error of the first that lacks a key.
pub data Prepared : Type 0 where
  missing : String → Prepared
  prepared : List String → Prepared

abbrev joined : List String → Prepared → Prepared
joined args (missing error) = missing error
joined args (prepared more) = prepared (args ++ more)

abbrev one_more : ℕ → Option (List String) → Prepared → Prepared
one_more i none rest = missing (texts ("image " ∷ number i ∷ ": missing 'offset' or 'data'" ∷ []))
one_more i (some args) rest = joined args rest

pub prepare : String → ℕ → List Image → Prepared
prepare tmpdir i [] = prepared []
prepare tmpdir i (img ∷ rest) =
    one_more i (image_args tmpdir i img.offset img.bytes) (prepare tmpdir (suc i) rest)

pub data FlashReply : Type 0 where
  refused : String → FlashReply
  -- ok, the exit code and the log
  finished : Bool → String → String → FlashReply
  errored : String → FlashReply
  -- the exception of `mkdtemp`, which nothing in `flash_slot` catches
  crashed : FlashReply

abbrev pub flash_reply : Esptool → FlashReply
flash_reply timed_out = errored "esptool timed out"
flash_reply (raised e) = errored e
flash_reply (exited ok code log) = finished ok code log

-- The command line after `python3 -m esptool`.
abbrev flash_command : Flash → String → List String → List String
flash_command f devnode args =
    "--chip"
    ∷ (if str_eq f.chip "" then "auto" else f.chip)
    ∷ "--port"
    ∷ devnode
    ∷ "--baud"
    ∷ number f.baud
    ∷ "--before"
    ∷ "default-reset"
    ∷ "--after"
    ∷ "hard-reset"
    ∷ "--connect-attempts"
    ∷ "5"
    ∷ "write-flash"
    ∷ (if f.erase then "--erase-all" ∷ args else args)

abbrev written : Machine → Flash → String → Prepared → FlashReply × List Step
written m f devnode (missing error) = (errored error, [])
written m f devnode (prepared args) =
    let cmd = flash_command f devnode args in (flash_reply (m.esptool cmd), run_esptool cmd ∷ [])

abbrev pub is_busy : SlotState → Bool
is_busy debugging = true
is_busy flashing = true
is_busy _ = false

-- `flash_slot` from `mkdtemp` on: the `try` and its `finally`.
flash_in :
    Machine → Flash → String → Option String → Slot → List Step → Slot × FlashReply × List Step
unfolding start_proxy prepare
flash_in m f devnode none s1 before = (s1, crashed, before)
flash_in m f devnode (some tmpdir) s1 before =
    let (reply, run) = written m f devnode (prepare tmpdir 0 f.images) in
    let (s2, ok, steps) = start_proxy m (record s1 { state = settled s1 }) in
    (s2, reply, before ++ run ++ steps)

-- `flash_slot` once it holds the slot.
flashed : Machine → Env → Flash → String → Slot → Slot × FlashReply × List Step
unfolding flash_in
flashed m env f devnode s =
    let (s1, es) = stop_proxy env (record s { state = flashing }) in
    flash_in m f devnode f.tmpdir s1 (stops es)

abbrev is_empty : List Image → Bool
is_empty [] = true
is_empty (i ∷ is) = false

pub flash_slot : Machine → Env → Flash → Slot → Slot × FlashReply × List Step
unfolding flashed state_name
flash_slot m env f s =
    if is_empty f.images
    then (s, refused "no images provided", [])
    else if not s.present
    then (s, refused (texts (s.label ∷ ": no device present" ∷ [])), [])
    else if is_busy s.state
    then (s, refused (texts (s.label ∷ ": busy (state=" ∷ state_name s.state ∷ ")" ∷ [])), [])
    else if str_eq (or_empty s.devnode) ""
    then (s, refused (texts (s.label ∷ ": no devnode" ∷ [])), [])
    else flashed m env f (or_empty s.devnode) s
