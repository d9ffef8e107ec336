-- ===== src/Slots/Hotplug/Presence.antt =====
-- pi/portal.py `_handle_hotplug`: what a slot's record says of the devices on it.
use embedded_ai_harness.Prelude.{
  ℕ, ◌+◌, ◌≡◌, refl, sym, ap, subst, ◌∙◌, some-injective, String, Bool, true, false, not, ◌||◌,
  Option, none, some, List, [], ◌∷◌, arith, Bool-cases, inl, inr, if◌then◌else◌, str_eq,
}
use embedded_ai_harness.Prelude.Dict.{Dict, get, put, pop, Values, put-Values, get-Values}
use embedded_ai_harness.Slots.{Slot, recovering}
use embedded_ai_harness.Slots.Config.{
  Globals, Lookup, type_error, result, make_dynamic_slot, find_fixed_slot_for_key,
}
use embedded_ai_harness.Slots.Hotplug.{
  Env, Event, Portal, record_event, clear_flapping, detect_flapping, start_flap_recovery,
  halt_proxy, flagged, dispatch_recovery, on_action, on_add, on_remove, accept_event, note_event,
  is_suppressed, is_empty, is_listed, found, located, locate, deliver, rescan, dispatch,
  handle_hotplug,
}

-- A slot is marked present exactly while a device is recorded on it, and a recovery runs only on a
-- slot that is marked as flapping.
pub record IsConsistent (s : Slot) : Type 0 where
  pub presence : s.present ≡ not (is_empty s.devnodes)
  pub recovery : s.recovering ≡ true → s.flapping ≡ true

abbrev pub AllSlots : Dict Slot → Type 0
AllSlots d = Values IsConsistent d

module _ {V : Type 0} where
  pub put-not_empty : (k : String) (v : V) (d : Dict V) → is_empty (put k v d) ≡ false
  unfolding put
  put-not_empty k v [] = refl
  put-not_empty k v ((j, w) ∷ d) = ground arith

  pop-not_empty : (k : String) (d : Dict V) → is_empty (pop k d) ≡ false → is_empty d ≡ false
  unfolding pop
  pop-not_empty k [] h = h
  pop-not_empty k (x ∷ d) h = refl

rescan-AllSlots : (env : Env) (d : Dict Slot) → AllSlots d → AllSlots (rescan env d)
unfolding rescan
rescan-AllSlots env [] h = tt
rescan-AllSlots env ((k, s) ∷ d) h =
    (record { presence = h.0.presence; recovery = h.0.recovery }, rescan-AllSlots env d h.1)

module _ (env : Env) (key : String) where
  clear-IsConsistent : (s : Slot) → IsConsistent s → IsConsistent (clear_flapping key s).0
  unfolding clear_flapping
  clear-IsConsistent s c = ground arith

  dispatch-IsConsistent :
      (usb : Option String) (s : Slot)
      → s.flapping ≡ true
      → IsConsistent s
      → IsConsistent (dispatch_recovery key usb s).0
  unfolding dispatch_recovery
  dispatch-IsConsistent none s f c = ground arith
  dispatch-IsConsistent (some usb) s f c = c

  start-IsConsistent :
      (s : Slot)
      → s.flapping ≡ true
      → IsConsistent s
      → IsConsistent (start_flap_recovery env key s).0
  unfolding start_flap_recovery
  start-IsConsistent s f c = elim (Bool-cases s.recovering) [
    | inl e ↦ rw (e, start_flap_recovery) (record { presence = c.presence; recovery = λ _. f })
    | inr e ↦
        rw (e, start_flap_recovery)
          (dispatch-IsConsistent _
            (halt_proxy env (record s { state = recovering; recovering = true })).0
            (unfold halt_proxy in ground arith) (unfold halt_proxy in ground arith))
  ]

  detect-IsConsistent : (s : Slot) → IsConsistent s → IsConsistent (detect_flapping env key s).0
  unfolding detect_flapping
  detect-IsConsistent s c = ground (arith, start-IsConsistent (flagged s))

  on_add-IsConsistent :
      (slot_key : String) (devnode : Option String) (s : Slot)
      → IsConsistent s
      → IsConsistent (on_add env key slot_key devnode s).0
  unfolding on_add
  on_add-IsConsistent slot_key devnode s c = record {
    presence = sym (ap not (put-not_empty slot_key devnode s.devnodes));
    recovery = c.recovery;
  }

  on_remove-IsConsistent :
      (slot_key : String) (devnode : Option String) (in_session : Bool) (s : Slot)
      → IsConsistent s
      → IsConsistent (on_remove key slot_key devnode in_session s).0
  unfolding on_remove
  on_remove-IsConsistent slot_key devnode in_session s c = record {
    presence = elim (Bool-cases (is_empty (pop slot_key s.devnodes))) [
      | inl e ↦ simp e
      | inr e ↦ simp e (c.presence ∙ ap not (pop-not_empty slot_key s.devnodes e))
    ];
    recovery = ground (arith, c.recovery);
  }

  on_action-IsConsistent :
      (action slot_key : String) (devnode : Option String) (in_session : Bool) (s : Slot)
      → IsConsistent s
      → IsConsistent (on_action env key action slot_key devnode in_session s).0
  unfolding on_action
  on_action-IsConsistent action slot_key devnode in_session s c =
      elim (Bool-cases (str_eq action "add")) [
        | inl e ↦ rw (e, on_action) (on_add-IsConsistent slot_key devnode s c)
        | inr e ↦ elim (Bool-cases (str_eq action "remove")) [
          | inl f ↦ rw (e, f, on_action) (on_remove-IsConsistent slot_key devnode in_session s c)
          | inr f ↦ rw (e, f, on_action) c
        ]
      ]

  pub accept_event-IsConsistent :
      (action slot_key : String) (devnode : Option String) (in_session : Bool) (s : Slot)
      → IsConsistent s
      → IsConsistent (accept_event env key action slot_key devnode in_session s).0
  unfolding accept_event record_event
  accept_event-IsConsistent action slot_key devnode in_session s c =
      on_action-IsConsistent action slot_key devnode in_session _ (
        detect-IsConsistent _ (
          clear-IsConsistent (record_event env.now s)
            (record { presence = c.presence; recovery = c.recovery })))

-- A property of slots that a new one has: the slot of an event has it where all have it.
module _ (P : Slot → Type 0)
    (fresh : (k : String) (g : Globals) → P (make_dynamic_slot k g).1) where
  found-Values :
      (k : String) (g : Globals) (o : Option Slot)
      → Values P g.slots
      → get k g.slots ≡ o
      → Values P (found k g o).0.slots × P (found k g o).2
  unfolding make_dynamic_slot
  found-Values k g none h e =
      (put-Values P k (make_dynamic_slot k g).1 g.slots (fresh k g) h, fresh k g)
  found-Values k g (some s) h e = (h, get-Values P k s g.slots h e)

  located-Values :
      (slot_key : String) (g : Globals) (l : Lookup) (at : Globals × String × Slot)
      → Values P g.slots
      → located slot_key g l ≡ some at
      → Values P at.0.slots × P at.2
  unfolding located
  located-Values slot_key g type_error at h e = absurd (cc e)
  located-Values slot_key g (result none) at h e =
      subst (λ x. Values P x.0.slots × P x.2) (some-injective _ _ e)
        (found-Values slot_key g (get slot_key g.slots) h refl)
  located-Values slot_key g (result (some k)) at h e =
      subst (λ x. Values P x.0.slots × P x.2) (some-injective _ _ e)
        (found-Values k g (get k g.slots) h refl)

  pub locate-Values :
      (slot_key : String) (g : Globals) (at : Globals × String × Slot)
      → Values P g.slots
      → locate slot_key g ≡ some at
      → Values P at.0.slots × P at.2
  locate-Values slot_key g at h e =
      located-Values slot_key g (find_fixed_slot_for_key slot_key g) at h (unfold locate in e)

pub fresh-IsConsistent : (k : String) (g : Globals) → IsConsistent (make_dynamic_slot k g).1
unfolding make_dynamic_slot
fresh-IsConsistent k g = record { presence = refl; recovery = λ c. cc }

dispatch-AllSlots :
    (env : Env) (e : Event) (slot_key : String) (seq : ℕ) (sessions : List String) (g : Globals)
    (key : String) (s : Slot)
    → AllSlots g.slots
    → IsConsistent s
    → AllSlots (dispatch env e slot_key seq sessions g key s).0.globals.slots
dispatch-AllSlots env e slot_key seq sessions g key s h c = elim (Bool-cases s.recovering) [
  | inl r ↦ unfold dispatch in simp r (put-Values IsConsistent key s g.slots c h)
  | inr r ↦ elim (Bool-cases (is_suppressed e.action (is_listed s.label sessions) s)) [
    | inl d ↦
        unfold dispatch in
        simp (r, d)
          (put-Values IsConsistent key _ g.slots
            (record { presence = c.presence; recovery = λ x. cc }) h)
    | inr d ↦
        unfold dispatch in
        simp (r, d)
          (rescan-AllSlots env _ (
            put-Values IsConsistent key _ g.slots
              (accept_event-IsConsistent env key e.action slot_key e.devnode
                (is_listed s.label sessions) s c)
              h))
  ]
]

deliver-AllSlots :
    (env : Env) (e : Event) (slot_key : String) (p : Portal) (o : Option (Globals × String × Slot))
    → AllSlots p.globals.slots
    → ((at : Globals × String × Slot) → o ≡ some at → AllSlots at.0.slots × IsConsistent at.2)
    → AllSlots (deliver env e slot_key p o).0.globals.slots
unfolding deliver
deliver-AllSlots env e slot_key p none h at = h
deliver-AllSlots env e slot_key p (some (g, key, s)) h at =
    let (all, c) = at (g, key, s) refl in
    dispatch-AllSlots env e slot_key (p.seq_counter + 1) p.sessions g key
      (note_event env (p.seq_counter + 1) e.action s) all
      (record { presence = c.presence; recovery = c.recovery })

-- Whatever hotplug request arrives, well-formed or not, every slot of the portal stays consistent: it
-- is marked present exactly while a device is recorded on it, and recovers only while it is flapping.
pub handle_hotplug-AllSlots :
    (env : Env) (e : Option Event) (p : Portal)
    → AllSlots p.globals.slots
    → AllSlots (handle_hotplug env e p).0.globals.slots
unfolding handle_hotplug
handle_hotplug-AllSlots env none p h = h
handle_hotplug-AllSlots env (some e) p h =
    let slot_key = if str_eq e.id_path "" then e.devpath else e.id_path in
    elim (Bool-cases (str_eq e.action "" || str_eq slot_key "")) [
      | inl bad ↦ rw bad h
      | inr good ↦ rw good (
          deliver-AllSlots env e slot_key p (locate slot_key p.globals) h
            (λ at. locate-Values IsConsistent fresh-IsConsistent slot_key p.globals at h))
    ]
