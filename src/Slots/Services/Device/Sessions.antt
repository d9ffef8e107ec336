-- ===== src/Slots/Services/Device/Sessions.antt =====
-- pi/portal.py: what `flash_device` leaves of the slot, and of the debug sessions.
use embedded_ai_harness.Prelude.{
  ◌≡◌, ◌≢◌, ◌⊎◌, refl, sym, ap, subst, ◌∙◌, String, Bool, true, false, not, none, some, List, [],
  ◌∷◌, if◌then◌else◌, if-either, if-cases, inl, inr, str_eq, eq_iff, arith, ◌==◌,
}
use embedded_ai_harness.Prelude.Dict.{get}
use embedded_ai_harness.Slots.{Slot, idle, resetting}
use embedded_ai_harness.Slots.Usb.{or_empty}
use embedded_ai_harness.Slots.Hotplug.{Env, stop_proxy}
use embedded_ai_harness.Slots.Hotplug.Stopped.{stop_proxy-stopped}
use embedded_ai_harness.Slots.Services.{Machine, Step, start_proxy, run_esptool}
use embedded_ai_harness.Slots.Services.Port.{Ends, start_proxy-Ends}
use embedded_ai_harness.Slots.Services.Device.{
  borrow, lent, restarted, restored, Upload, DeviceReply, not_done, device_run, paths_of,
  flash_device, restore_debug_running, sessions_after, session_request, Reading, read_out,
  read_command, read_flash_device,
}
use embedded_ai_harness.Debug.{Debugger, Reply}
use embedded_ai_harness.Debug as OpenOcd
use embedded_ai_harness.Debug.Sessions.{stop, is_debugging}
use embedded_ai_harness.Debug.Sessions.Marks.{IsMarked}
use embedded_ai_harness.Debug.Sessions.Probes.{stop-IsMarked}
use embedded_ai_harness.Debug.Sessions.Refinement.{stop-get}
use embedded_ai_harness.Debug.Sessions.Contract.{
  View, view, Starts, refusal as not_started, opening, start-Starts,
}

-- The slot is idle again, and its proxy runs as before, or has an error that says why it does not.
abbrev IsBack : Slot → Slot → Type 0
IsBack s s' =
    (s'.state ≡ idle)
    × ((s'.running ≡ s.running)
        ⊎ ((s'.running ≡ false) × ((e : String) × (s'.last_error ≡ some e))))

-- Without a proxy to start: a slot that is `resetting`.
restored-idle :
    (s : Slot) (steps : List Step)
    → s.present ≡ true
    → s.state ≡ resetting
    → ((restored (s, steps)).0.state ≡ idle) × ((restored (s, steps)).0.running ≡ s.running)
restored-idle s steps h k = (ground (arith, h, k), ground (arith, h, k))

restarted-IsBack :
    (s : Slot) (ok : Bool) (s' : Slot) (steps later : List Step) (s0 : Slot)
    → s.present ≡ true
    → s.running ≡ false
    → s.state ≡ resetting
    → s0.running ≡ true
    → Ends s (s', ok, steps)
    → IsBack s0 (restored (s', later)).0
restarted-IsBack s ok s' steps later s0 h n k r (inl (o, run, st, e)) =
    (ground (arith, st), inl (ground (arith, st, run, r)))
restarted-IsBack s ok s' steps later s0 h n k r (inr (o, run, st, here, (e, err))) =
    let back = restored-idle s' later (here ∙ h) (st ∙ k) in
    (back.0, inr (back.1 ∙ run ∙ n, (e, ground (arith, err))))

-- While esptool runs, other requests leave alone whether the slot is present, its state and its proxy.
pub record IsUndisturbed (m : Machine) : Type 0 where
  pub here : (s : Slot) → (m.meanwhile s).present ≡ s.present
  pub state : (s : Slot) → (m.meanwhile s).state ≡ s.state
  pub proxy : (s : Slot) → (m.meanwhile s).running ≡ s.running

lent-IsBack :
    (m : Machine) (env : Env) (run : List Step) (b : Bool) (s : Slot)
    → IsUndisturbed m
    → s.present ≡ true
    → s.running ≡ b
    → IsBack s (lent m env run b s).0
unfolding lent restarted
lent-IsBack m env run true s u h r =
    let s1 = (stop_proxy env s).0 in
    let before : Slot = record s1 { state = resetting } in
    let s2 = m.meanwhile before in
    let known = stop_proxy-stopped env s in
    let stopped = u.proxy before ∙ known.0 in
    subst (λ c. IsBack s (restored (restarted m c s2)).0) (sym stopped)
      (let (s', ok, steps) = start_proxy m s2 in
        restarted-IsBack s2 ok s' steps steps s (u.here before ∙ known.1 ∙ h) stopped
          (u.state before) r (start_proxy-Ends m s2))
lent-IsBack m env run false s u h r =
    let before : Slot = record s { state = resetting } in
    let back = restored-idle (m.meanwhile before) [] (u.here before ∙ h) (u.state before) in
    (back.0, inl (back.1 ∙ u.proxy before))

borrow-IsBack :
    (m : Machine) (env : Env) (run : List Step) (s : Slot)
    → IsUndisturbed m
    → s.present ≡ true
    → IsBack s (borrow m env run s).0
unfolding borrow
borrow-IsBack m env run s u h = lent-IsBack m env run s.running s u h refl

-- How a flash or a read may end: with a refusal and the slot as it was, or with the slot back.
pub data Returns : Slot → Slot → DeviceReply → Type 0 where
  refusal : (s : Slot) (e : String) → Returns s s (not_done e)
  returned : (s s' : Slot) (r : DeviceReply) → IsBack s s' → Returns s s' r

abbrev Flashed : Slot → Slot × Debugger × DeviceReply × List Step → Type 0
Flashed s (s', d, r, steps) = Returns s s' r

abbrev Read : Slot → Slot × DeviceReply × List Step → Type 0
Read s (s', r, steps) = Returns s s' r

read_out-Returns :
    (m : Machine) (env : Env) (q : Reading) (devnode : String) (s : Slot)
    → IsUndisturbed m
    → s.present ≡ true
    → Read s (read_out m env q devnode s)
unfolding read_out
read_out-Returns m env q devnode s u h =
    returned s _ _ (borrow-IsBack m env (run_esptool (read_command q devnode) ∷ []) s u h)

-- Whatever esptool, OpenOCD and the proxy do, and where other requests leave the slot's state, its presence and
-- its proxy alone while esptool runs: `flash_device` and `read_flash_device` refuse and leave the
-- slot as it was, or it is idle afterwards, never still in `resetting`, with its proxy running or not as
-- before, or stopped with an error that says why.
pub device-Returns :
    (m : Machine) (host : OpenOcd.Host) (env : Env) (u : Upload) (q : Reading) (s : Slot)
    (d : Debugger)
    → IsUndisturbed m
    → (let (s', d', r, steps) = flash_device m host env u s d in Returns s s' r)
      × (let (s', r, steps) = read_flash_device m env q s in Returns s s' r)
unfolding flash_device read_flash_device
device-Returns m host env u q s d calm = (
  if-either (Flashed s) (str_eq (or_empty s.devnode) "") _ _ (refusal s _) (
      if-cases (Flashed s) (not s.present) _ _ (λ e. refusal s _)
        (λ h. returned s _ _ (borrow-IsBack m env _ s calm (ground (arith, h))))),
  if-either (Read s) (str_eq (or_empty s.devnode) "") _ _ (refusal s _) (
      if-cases (Read s) (not s.present) _ _ (λ e. refusal s _)
        (λ h.
          if-either (Read s) (q.count == 0) _ _ (refusal s _)
            (read_out-Returns m env q (or_empty s.devnode) s calm (ground (arith, h))))),
)

start-other :
    (label other : String) (v w : View) (r : Reply)
    → Starts label v w r
    → label ≢ other
    → w other ≡ v other
start-other label other v w r (not_started _ _ _ _ k e) h = e other
start-other label other v w _ (opening _ _ _ s k free e) h =
    let apart : str_eq label other ≡ false = ground (arith, eq_iff label other) in
    e other ∙ ap (λ b. if b then some s else v other) apart

sessions_after-other :
    (host : OpenOcd.Host) (b : Bool) (label other : String) (s : Slot) (d : Debugger)
    → IsMarked d
    → label ≢ other
    → get other (sessions_after host b label s d).sessions ≡ get other d.sessions
unfolding sessions_after restore_debug_running
sessions_after-other host false label other s d mk h = refl
sessions_after-other host true label other s d mk h =
    let d1 = (stop label d).0 in
    let apart : str_eq label other ≡ false = ground (arith, eq_iff label other) in
    start-other label other (view d1) _ _
      (start-Starts host (session_request label s) d1 (stop-IsMarked label d mk)) h
    ∙ stop-get label other d
    ∙ ap (λ b. if b then none else get other d.sessions) apart

-- `flash_device` stops and starts debug sessions for its own slot only: whatever OpenOCD does, another slot's
-- session stays as it is. Where every session's probe is marked with its slot.
pub flash_device-sessions :
    (m : Machine) (host : OpenOcd.Host) (env : Env) (u : Upload) (s : Slot) (d : Debugger)
    (other : String)
    → IsMarked d
    → s.label ≢ other
    → get other (flash_device m host env u s d).1.sessions ≡ get other d.sessions
unfolding flash_device
flash_device-sessions m host env u s d other mk h =
    let P : Slot × Debugger × DeviceReply × List Step → Type 0 =
      λ (s', d', r, steps). get other d'.sessions ≡ get other d.sessions in
    if-either P (str_eq (or_empty s.devnode) "") _ _ refl (
      if-either P (not s.present) _ _ refl (
        sessions_after-other host (is_debugging s.label d) s.label other
          (borrow m env (device_run m u (or_empty s.devnode) (paths_of u.tmpdir u.names [])).1 s).0
          d mk h))
