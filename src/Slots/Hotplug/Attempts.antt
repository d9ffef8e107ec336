-- ===== src/Slots/Hotplug/Attempts.antt =====
-- pi/portal.py `_handle_hotplug`: an event leaves the count of the recovery attempts alone.
use embedded_ai_harness.Prelude.{
  ℕ, ◌≡◌, refl, ◌∙◌, String, Bool, true, not, ◌&&◌, Option, none, some, List, leb, length,
  if-either, str_eq,
}
use embedded_ai_harness.Prelude.Dict.{pop}
use embedded_ai_harness.Slots.{Slot, recovering}
use embedded_ai_harness.Slots.Usb.{usb_device_for_slot}
use embedded_ai_harness.Slots.Hotplug.{
  Env, Effect, record_event, is_quiet, clear_flapping, detect_flapping, start_flap_recovery,
  dispatch_recovery, flagged, halt_proxy, stop_proxy, on_action, on_add, on_remove, drop_devnode,
  accept_event, flap_threshold, has_pid, is_empty,
}

abbrev Result : Type 0
Result = Slot × List Effect

abbrev HasCount : ℕ → Result → Type 0
HasCount n r = r.0.recover_retries ≡ n

halt_proxy-count : (env : Env) (s : Slot) → HasCount s.recover_retries (halt_proxy env s)
unfolding halt_proxy stop_proxy
halt_proxy-count env s =
    if-either (HasCount s.recover_retries) (s.running && has_pid s.pid) _ _ refl refl

dispatch_recovery-count :
    (key : String) (usb : Option String) (s : Slot)
    → HasCount s.recover_retries (dispatch_recovery key usb s)
unfolding dispatch_recovery
dispatch_recovery-count key none s = refl
dispatch_recovery-count key (some usb) s = refl

start_flap_recovery-count :
    (env : Env) (key : String) (s : Slot)
    → HasCount s.recover_retries (start_flap_recovery env key s)
unfolding start_flap_recovery
start_flap_recovery-count env key s =
    let s1 = (halt_proxy env (record s { recovering = true; state = recovering })).0 in
    if-either (HasCount s.recover_retries) s.recovering _ _ refl (
      dispatch_recovery-count key (usb_device_for_slot env.udev s1) s1
      ∙ halt_proxy-count env (record s { recovering = true; state = recovering }))

clear_flapping-count : (key : String) (s : Slot) → HasCount s.recover_retries (clear_flapping key s)
unfolding clear_flapping
clear_flapping-count key s =
    if-either (HasCount s.recover_retries)
      ((s.flapping && not s.recovering) && is_quiet s.event_times) _ _ refl refl

detect_flapping-count :
    (env : Env) (key : String) (s : Slot) → HasCount s.recover_retries (detect_flapping env key s)
unfolding detect_flapping
detect_flapping-count env key s =
    if-either (HasCount s.recover_retries)
      (not s.flapping && leb flap_threshold (length s.event_times)) _ _
      (start_flap_recovery-count env key (flagged s)) refl

drop_devnode-count :
    (slot_key : String) (devnode : Option String) (s : Slot)
    → (drop_devnode slot_key devnode s).recover_retries ≡ s.recover_retries
unfolding drop_devnode
drop_devnode-count slot_key devnode s =
    if-either (λ (t : Slot). t.recover_retries ≡ s.recover_retries)
      (is_empty (pop slot_key s.devnodes)) _ _ refl refl

on_action-count :
    (env : Env) (key action slot_key : String) (devnode : Option String) (b : Bool) (s : Slot)
    → HasCount s.recover_retries (on_action env key action slot_key devnode b s)
unfolding on_action on_add on_remove
on_action-count env key action slot_key devnode b s =
    if-either (HasCount s.recover_retries) (str_eq action "add") _ _ refl (
      if-either (HasCount s.recover_retries) (str_eq action "remove") _ _
        (drop_devnode-count slot_key devnode s) refl)

pub accept_event-count :
    (env : Env) (key action slot_key : String) (devnode : Option String) (b : Bool) (s : Slot)
    → (accept_event env key action slot_key devnode b s).0.recover_retries ≡ s.recover_retries
unfolding accept_event record_event
accept_event-count env key action slot_key devnode b s =
    let s0 = record_event env.now s in
    let s1 = (clear_flapping key s0).0 in
    let s2 = (detect_flapping env key s1).0 in
    on_action-count env key action slot_key devnode b s2
    ∙ detect_flapping-count env key s1
    ∙ clear_flapping-count key s0
