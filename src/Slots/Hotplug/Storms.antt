-- ===== src/Slots/Hotplug/Storms.antt =====
-- pi/portal.py `_handle_hotplug`: connect/disconnect storms, and what they stop.
use embedded_ai_harness.Prelude.{
  ℕ, ◌≡◌, ◌≢◌, String, Bool, true, not, ◌&&◌, ◌||◌, Option, none, some, List, ◌++◌, arith, leb,
  length, All, All-append, sym, ◌∙◌, Bool-cases, inl, inr, ◌==◌,
}
use embedded_ai_harness.Slots.{Slot, recovering}
use embedded_ai_harness.Slots.Hotplug.{
  Env, Effect, start_added, recover_with_gpio, kill, record_event, is_quiet, clear_flapping,
  detect_flapping, start_flap_recovery, dispatch_recovery, flagged, halt_proxy, on_action, on_add,
  on_remove, killed, has_pid, accept_event,
}

-- Which effects an event may have while the slot is marked as flapping.
abbrev pub IsQuietEffect : Effect → Type 0
IsQuietEffect (start_added k d) = ⊥
IsQuietEffect _ = Unit

-- An effect that drives the BOOT and EN pins, for a slot with this measurement and this BOOT pin.
abbrev pub IsMeasured : Option Bool → Option ℕ → Effect → Type 0
IsMeasured wired boot (recover_with_gpio k u) = (wired ≡ some true) × (boot ≢ none)
IsMeasured wired boot _ = Unit

-- The events of the last 30 s make a storm, or one goes on that has not been quiet for 10 s.
abbrev pub is_storm : List ℕ → Bool → Bool
is_storm times before = leb 10 (length times) || before && not (is_quiet times)

module _ (env : Env) (key : String) where
  on_action-flapping :
      (action slot_key : String) (devnode : Option String) (in_session : Bool) (s : Slot)
      → (on_action env key action slot_key devnode in_session s).0.flapping ≡ s.flapping
  unfolding on_action on_add on_remove
  on_action-flapping action slot_key devnode in_session s = ground arith

  -- What holds of the effects of stopping the proxy and of dispatching a recovery holds of a start.
  start-All :
      (P : Effect → Type 0) (s : Slot)
      → All P (halt_proxy env (record s { recovering = true; state = recovering })).1
      → ((usb : Option String) (s1 : Slot)
          → s1.gpio_wired ≡ s.gpio_wired
          → s1.gpio_boot ≡ s.gpio_boot
          → All P (dispatch_recovery key usb s1).1)
      → All P (start_flap_recovery env key s).1
  unfolding start_flap_recovery
  start-All P s halt dispatch = elim (Bool-cases s.recovering) [
    | inl e ↦ rw (e, start_flap_recovery) tt
    | inr e ↦
        rw (e, start_flap_recovery)
          (All-append P _ _ halt
            (dispatch _ _ (unfold halt_proxy in ground arith) (unfold halt_proxy in ground arith)))
  ]

  detect-All :
      (P : Effect → Type 0) (s : Slot)
      → All P (start_flap_recovery env key (flagged s)).1
      → All P (detect_flapping env key s).1
  unfolding detect_flapping
  detect-All P s h = elim (Bool-cases (not s.flapping && leb 10 (length s.event_times))) [
    | inl e ↦ rw (e, detect_flapping) h
    | inr e ↦ rw (e, detect_flapping) tt
  ]

  killed-All :
      (P : Effect → Type 0) (pid : Option ℕ) → ((p : ℕ) → P (kill p)) → All P (killed env pid)
  killed-All P none h = tt
  killed-All P (some p) h = elim (Bool-cases (not (p == 0) && env.is_alive p)) [
    | inl e ↦ rw e (h p, tt)
    | inr e ↦ rw e tt
  ]

  halt-All : (P : Effect → Type 0) (s : Slot) → ((p : ℕ) → P (kill p)) → All P (halt_proxy env s).1
  unfolding halt_proxy
  halt-All P s h = elim (Bool-cases (s.running && has_pid s.pid)) [
    | inl e ↦ rw (e, halt_proxy) (killed-All P s.pid h)
    | inr e ↦ rw (e, halt_proxy) tt
  ]

  clear-quiet : (s : Slot) → All IsQuietEffect (clear_flapping key s).1
  unfolding clear_flapping
  clear-quiet s = ground arith

  dispatch-quiet :
      (usb : Option String) (s : Slot) → All IsQuietEffect (dispatch_recovery key usb s).1
  unfolding dispatch_recovery
  dispatch-quiet none s = tt
  dispatch-quiet (some usb) s = ground arith

  on_action-quiet :
      (action slot_key : String) (devnode : Option String) (in_session : Bool) (s : Slot)
      → s.flapping ≡ true
      → All IsQuietEffect (on_action env key action slot_key devnode in_session s).1
  unfolding on_action on_add on_remove
  on_action-quiet action slot_key devnode in_session s storm = ground arith

  -- An event that leaves the slot flapping starts no proxy for the device that it reports.
  pub accept_event-no_start :
      (action slot_key : String) (devnode : Option String) (in_session : Bool) (s : Slot)
      → (accept_event env key action slot_key devnode in_session s).0.flapping ≡ true
      → All IsQuietEffect (accept_event env key action slot_key devnode in_session s).1
  unfolding accept_event
  accept_event-no_start action slot_key devnode in_session s storm =
      let noted = record_event env.now s in
      let cleared = (clear_flapping key noted).0 in
      let found = (detect_flapping env key cleared).0 in
      let detected = detect-All IsQuietEffect cleared (
        start-All IsQuietEffect (flagged cleared) (halt-All IsQuietEffect _ (λ p. tt))
          (λ usb s1 w b. dispatch-quiet usb s1)) in
      All-append IsQuietEffect ((clear_flapping key noted).1 ++ (detect_flapping env key cleared).1)
        _ (All-append IsQuietEffect (clear_flapping key noted).1 _ (clear-quiet noted) detected)
        (on_action-quiet action slot_key devnode in_session found
          (sym (on_action-flapping action slot_key devnode in_session found) ∙ storm))

  clear-IsMeasured : (s : Slot) → All (IsMeasured s.gpio_wired s.gpio_boot) (clear_flapping key s).1
  unfolding clear_flapping
  clear-IsMeasured s = ground arith

  gpio-clear :
      (s : Slot)
      → ((clear_flapping key s).0.gpio_wired ≡ s.gpio_wired)
        × ((clear_flapping key s).0.gpio_boot ≡ s.gpio_boot)
  unfolding clear_flapping
  gpio-clear s = ground arith

  dispatch-IsMeasured :
      (usb : Option String) (s : Slot) (wired : Option Bool) (boot : Option ℕ)
      → s.gpio_wired ≡ wired
      → s.gpio_boot ≡ boot
      → All (IsMeasured wired boot) (dispatch_recovery key usb s).1
  unfolding dispatch_recovery
  dispatch-IsMeasured none s wired boot w b = tt
  dispatch-IsMeasured (some usb) s wired boot w b = ground arith

  on_action-IsMeasured :
      (action slot_key : String) (devnode : Option String) (in_session : Bool) (s : Slot)
      (wired : Option Bool) (boot : Option ℕ)
      → All (IsMeasured wired boot) (on_action env key action slot_key devnode in_session s).1
  unfolding on_action on_add on_remove
  on_action-IsMeasured action slot_key devnode in_session s wired boot = ground arith

  -- A recovery that drives the BOOT and EN pins is started only for a slot with a BOOT pin whose wiring
  -- a measurement has confirmed.
  pub accept_event-IsMeasured :
      (action slot_key : String) (devnode : Option String) (in_session : Bool) (s : Slot)
      → All
          (IsMeasured s.gpio_wired s.gpio_boot)
          (accept_event env key action slot_key devnode in_session s).1
  unfolding accept_event record_event
  accept_event-IsMeasured action slot_key devnode in_session s =
      let noted = record_event env.now s in
      let cleared = (clear_flapping key noted).0 in
      let (same_wired, same_boot) = gpio-clear noted in
      let P = IsMeasured s.gpio_wired s.gpio_boot in
      let detected = detect-All P cleared (
        start-All P (flagged cleared) (halt-All P _ (λ p. tt)) (λ usb s1 w b.
          dispatch-IsMeasured usb s1 s.gpio_wired s.gpio_boot (w ∙ same_wired) (b ∙ same_boot))) in
      All-append P ((clear_flapping key noted).1 ++ (detect_flapping env key cleared).1) _
        (All-append P (clear_flapping key noted).1 _ (clear-IsMeasured noted) detected)
        (on_action-IsMeasured action slot_key devnode in_session _ s.gpio_wired s.gpio_boot)
