-- ===== src/Slots/Hotplug.antt =====
-- pi/portal.py: the hotplug handler, with its detection of connect/disconnect storms. Times are in
-- milliseconds. A slot is known by its key in `slots`, for the handler changes that object in place.
-- What the handler sets going (threads, signals, sysfs writes) is a list of effects, in order.
pub mod Storms
pub mod Presence
pub mod Attempts
pub mod Stopped
pub mod Boot
mod Examples
use embedded_ai_harness.Prelude.{
  ℕ, suc, ◌+◌, ◌-◌, String, Bool, true, false, not, ◌&&◌, ◌||◌, Option, none, some, List, [], ◌∷◌,
  ◌++◌, leb, ltb, if◌then◌else◌, ◌==◌, str_eq, keep, length, map,
}
use embedded_ai_harness.Prelude.Dict.{Dict, get, put, pop}
use embedded_ai_harness.Slots.{
  Slot, SlotState, absent, idle, flapping, recovering, debugging, UsbDevice,
}
use embedded_ai_harness.Slots.Config.{
  Globals, make_dynamic_slot, find_fixed_slot_for_key, Lookup, type_error, result,
}
use embedded_ai_harness.Slots.Usb.{or_empty, usb_device_for_slot}

abbrev pub flap_window : ℕ
flap_window = 30_000

abbrev pub flap_threshold : ℕ
flap_threshold = 10

abbrev pub flap_cooldown : ℕ
flap_cooldown = 10_000

pub data Effect : Type 0 where
  -- the threads `_bg_restart`, `_bg_start`, `_bg_stop` and the two recoveries, with the slot's key
  restart_proxy : String → Effect
  start_added : String → Option String → Effect
  stop_removed : String → Effect
  recover_with_gpio : String → String → Effect
  recover_without_gpio : String → String → Effect
  -- `_stop_pid`, the write to sysfs, and `debug_controller.stop`
  kill : ℕ → Effect
  unbind : String → Effect
  stop_debug : String → Effect

pub record Env : Type 0 where
  -- `time.time()`, and the time for `last_event_ts`
  pub now : ℕ
  pub stamp : ℕ
  pub host_ip : String
  -- os.path.exists, `_is_process_alive`, udevadm, and the scan of sysfs below a `_usb_prefix`
  pub exists : String → Bool
  pub is_alive : ℕ → Bool
  pub udev : String → Option String
  pub scan : Option String → List UsbDevice

pub record Portal : Type 0 where
  pub globals : Globals
  pub seq_counter : ℕ
  -- the labels in `debug_controller._sessions`
  pub sessions : List String

-- The fields of the request body.
pub record Event : Type 0 where
  pub action : String
  pub devnode : Option String
  pub id_path : String
  pub devpath : String

pub data Reply : Type 0 where
  bad_request : Reply
  raised : Reply
  -- accepted, flapping, recovering, debugging
  handled : String → ℕ → Bool → Bool → Bool → Bool → Reply

pub is_listed : String → List String → Bool
is_listed l [] = false
is_listed l (x ∷ xs) = str_eq x l || is_listed l xs

abbrev is_debug_state : SlotState → Bool
is_debug_state debugging = true
is_debug_state _ = false

abbrev pub is_empty {ℓ} : {A : Type ℓ} → List A → Bool
is_empty [] = true
is_empty (x ∷ xs) = false

abbrev pub settled : Slot → SlotState
settled s = if s.present then idle else absent

-- `slot["pid"]` is set and not 0
abbrev pub has_pid : Option ℕ → Bool
has_pid none = false
has_pid (some p) = not (p == 0)

abbrev pub killed : Env → Option ℕ → List Effect
killed env none = []
killed env (some p) = if not (p == 0) && env.is_alive p then kill p ∷ [] else []

pub stop_proxy : Env → Slot → Slot × List Effect
stop_proxy env s =
    (record s { running = false; pid = none; url = none; last_error = none }, killed env s.pid)

-- The events of the last 30 s, this one included.
pub record_event : ℕ → Slot → Slot
record_event now s = record s {
  event_times = keep (λ t. ltb (now - t) flap_window) (s.event_times ++ now ∷ []);
}

-- The time between the last two events; 0 where there are not two, or the clock went back.
pub last_gap : List ℕ → ℕ
last_gap [] = 0
last_gap (x ∷ []) = 0
last_gap (x ∷ y ∷ []) = y - x
last_gap (x ∷ y ∷ z ∷ rest) = last_gap (y ∷ z ∷ rest)

pub is_quiet : List ℕ → Bool
is_quiet times = ltb (length times) 2 || leb flap_cooldown (last_gap times)

pub clear_flapping : String → Slot → Slot × List Effect
clear_flapping key s =
    if (s.flapping && not s.recovering) && is_quiet s.event_times
    then (
      record s { flapping = false; last_error = none; state = settled s },
      if s.present && not s.running then restart_proxy key ∷ [] else [],
    )
    else (s, [])

abbrev pub is_wired : Option Bool → Bool
is_wired none = false
is_wired (some b) = b

abbrev pub is_set {ℓ} : {A : Type ℓ} → Option A → Bool
is_set none = false
is_set (some a) = true

-- The end of `_start_flap_recovery`, with the USB device of the slot.
dispatch_recovery : String → Option String → Slot → Slot × List Effect
dispatch_recovery key none s = (record s { recovering = false; state = flapping }, [])
dispatch_recovery key (some usb) s = (
  s,
  unbind usb
      ∷ (if is_set s.gpio_boot && is_wired s.gpio_wired
          then recover_with_gpio key usb
          else recover_without_gpio key usb)
      ∷ [],
)

abbrev and_then : Slot × List Effect → (Slot → Slot × List Effect) → Slot × List Effect
and_then (s, es) f = let (s', es') = f s in (s', es ++ es')

-- `if slot["running"] and slot["pid"]: stop_proxy(slot)`
pub halt_proxy : Env → Slot → Slot × List Effect
unfolding stop_proxy
halt_proxy env s = if s.running && has_pid s.pid then stop_proxy env s else (s, [])

pub start_flap_recovery : Env → String → Slot → Slot × List Effect
unfolding halt_proxy dispatch_recovery
start_flap_recovery env key s =
    if s.recovering
    then (s, [])
    else and_then (halt_proxy env (record s { recovering = true; state = recovering }))
        (λ s1. dispatch_recovery key (usb_device_for_slot env.udev s1) s1)

abbrev pub flagged : Slot → Slot
flagged s = record s {
  flapping = true;
  state = flapping;
  last_error = some "USB flapping detected — starting recovery";
}

pub detect_flapping : Env → String → Slot → Slot × List Effect
detect_flapping env key s =
    if not s.flapping && leb flap_threshold (length s.event_times)
    then start_flap_recovery env key (flagged s)
    else (s, [])

-- `if not slot["devnode"] or not os.path.exists(slot["devnode"])`
abbrev adopt : Env → Option String → Option String → Option String
adopt env current new =
    let d = or_empty current in if str_eq d "" || not (env.exists d) then new else current

pub on_add : Env → String → String → Option String → Slot → Slot × List Effect
on_add env key slot_key devnode s = (
  record s {
    devnodes = put slot_key devnode s.devnodes;
    present = true;
    devnode = adopt env s.devnode devnode;
    url =
        if s.tcp_port == 0 then s.url else some (record { host = env.host_ip; port = s.tcp_port });
    state = if s.flapping then s.state else idle;
  },
  if s.flapping then [] else start_added key devnode ∷ [],
)

abbrev first_devnode : Dict (Option String) → Option String → Option String
first_devnode [] d = d
first_devnode ((k, v) ∷ rest) d = v

abbrev same : Option String → Option String → Bool
same none none = true
same none (some b) = false
same (some a) none = false
same (some a) (some b) = str_eq a b

-- `slot["_devnodes"].pop(slot_key)`, and what follows from it.
pub drop_devnode : String → Option String → Slot → Slot
drop_devnode slot_key devnode s =
    let left = pop slot_key s.devnodes in
    if is_empty left
    then record s {
      devnodes = left;
      present = false;
      devnode = none;
      auto_debug_chip = none;
      jtag_slot = none;
      state = if s.flapping then s.state else absent;
    }
    else record s {
      devnodes = left;
      devnode = if same s.devnode devnode then first_devnode left s.devnode else s.devnode;
    }

pub on_remove : String → String → Option String → Bool → Slot → Slot × List Effect
unfolding drop_devnode
on_remove key slot_key devnode in_session s =
    let s' = drop_devnode slot_key devnode s in
    (
      s',
      (if in_session then stop_debug s.label ∷ [] else [])
          ++ (if s.running && is_empty s'.devnodes then stop_removed key ∷ [] else []),
    )

pub on_action : Env → String → String → String → Option String → Bool → Slot → Slot × List Effect
on_action env key action slot_key devnode in_session s =
    if str_eq action "add"
    then on_add env key slot_key devnode s
    else if str_eq action "remove"
    then on_remove key slot_key devnode in_session s
    else (s, [])

-- The handler from the flap detection to the rescan, for the slot itself.
pub accept_event : Env → String → String → String → Option String → Bool → Slot → Slot × List Effect
accept_event env key action slot_key devnode in_session s =
    and_then (and_then (clear_flapping key (record_event env.now s)) (detect_flapping env key))
      (on_action env key action slot_key devnode in_session)

-- The bookkeeping that every event gets.
pub note_event : Env → ℕ → String → Slot → Slot
note_event env seq action s = record s {
  seq = seq;
  last_action = some action;
  last_event_ts = some env.stamp;
}

-- `action == "add" and (slot["state"] == STATE_DEBUGGING or is_debugging(label))`
pub is_suppressed : String → Bool → Slot → Bool
is_suppressed action in_session s = str_eq action "add" && (is_debug_state s.state || in_session)

-- The slot that an event belongs to: a fixed one, or the one under its own key, made where needed.
abbrev found : String → Globals → Option Slot → Globals × String × Slot
found k g (some s) = (g, k, s)
found k g none =
    let (g', s) = make_dynamic_slot k g in (record g' { slots = put k s g'.slots }, k, s)

abbrev entry : String → Globals → Globals × String × Slot
entry k g = found k g (get k g.slots)

located : String → Globals → Lookup → Option (Globals × String × Slot)
located slot_key g type_error = none
located slot_key g (result none) = some (entry slot_key g)
located slot_key g (result (some k)) = some (entry k g)

pub locate : String → Globals → Option (Globals × String × Slot)
unfolding located
locate slot_key g = located slot_key g (find_fixed_slot_for_key slot_key g)

rescan : Env → Dict Slot → Dict Slot
rescan env [] = []
rescan env ((k, s) ∷ rest) = (k, record s { usb_devices = env.scan s.usb_prefix }) ∷ rescan env rest

-- The sessions that are left once the effects have run.
remaining : List Effect → List String → List String
unfolding keep
remaining [] ls = ls
remaining (stop_debug l ∷ es) ls = keep (λ x. not (str_eq x l)) (remaining es ls)
remaining (_ ∷ es) ls = remaining es ls

abbrev set_slot : String → Slot → Globals → Globals
set_slot key s g = record g { slots = put key s g.slots }

-- The handler once the slot is found; `s` has its bookkeeping done.
dispatch :
    Env → Event → String → ℕ → List String → Globals → String → Slot → Portal × Reply × List Effect
dispatch env e slot_key seq sessions g key s =
    let in_session = is_listed s.label sessions in
    if s.recovering
    then (
      record { globals = set_slot key s g; seq_counter = seq; sessions = sessions },
      handled slot_key seq false true true false,
      [],
    )
    else if is_suppressed e.action in_session s
    then (
      record {
        globals =
            set_slot key
              (record s {
                devnode = if str_eq (or_empty e.devnode) "" then s.devnode else e.devnode;
              })
              g;
        seq_counter = seq;
        sessions = sessions;
      },
      handled slot_key seq false false false true,
      [],
    )
    else (let (s', es) = accept_event env key e.action slot_key e.devnode in_session s in
        let g' = set_slot key s' g in
        (
          record {
            globals = record g' { slots = rescan env g'.slots };
            seq_counter = seq;
            sessions = remaining es sessions;
          },
          handled slot_key seq true s'.flapping s'.recovering false,
          es,
        ))

-- The handler once the request is read; `none` is the exception of the lookup.
deliver :
    Env → Event → String → Portal → Option (Globals × String × Slot) → Portal × Reply × List Effect
unfolding dispatch note_event
deliver env e slot_key p none = (p, raised, [])
deliver env e slot_key p (some (g, key, s)) =
    let seq = p.seq_counter + 1 in
    dispatch env e slot_key seq p.sessions g key (note_event env seq e.action s)

-- `none` is an empty request body.
pub handle_hotplug : Env → Option Event → Portal → Portal × Reply × List Effect
unfolding deliver
handle_hotplug env none p = (p, bad_request, [])
handle_hotplug env (some e) p =
    let slot_key = if str_eq e.id_path "" then e.devpath else e.id_path in
    if str_eq e.action "" || str_eq slot_key ""
    then (p, bad_request, [])
    else deliver env e slot_key p (locate slot_key p.globals)
