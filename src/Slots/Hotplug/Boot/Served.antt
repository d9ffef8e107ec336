-- ===== src/Slots/Hotplug/Boot/Served.antt =====
-- pi/portal.py: what the start of the portal, and the hotplug requests after it, leave of the slots.
use embedded_ai_harness.Prelude.{
  ℕ, ◌≡◌, ◌⊎◌, inl, inr, refl, sym, ap, ◌∙◌, String, Bool, true, not, Option, none, some, List, [],
  ◌∷◌, Bool-cases, if-either, if-cases, ◌==◌, str_eq,
}
use embedded_ai_harness.Prelude.Dict.{Dict, get, Values, put-Values}
use embedded_ai_harness.Slots.{Slot}
use embedded_ai_harness.Slots.Config.{
  Globals, SlotDef, make_slot, make_dynamic_slot, next_label, load_slots, with_text, type_error,
  result, find_fixed_slot_for_key, SlotPrefix, first_match, longest_first,
}
use embedded_ai_harness.Slots.Services.{Machine, Step, start_proxy}
use embedded_ai_harness.Slots.Services.Port.{start_proxy-Ends, start_proxy-Keeps}
use embedded_ai_harness.Slots.Hotplug.{
  Env, Event, Portal, is_empty, locate, located, found, handle_hotplug,
}
use embedded_ai_harness.Slots.Hotplug.Presence.{
  IsConsistent, AllSlots, put-not_empty, locate-Values, handle_hotplug-AllSlots,
}
use embedded_ai_harness.Slots.Hotplug.Boot.{
  Node, Boot, Outside, record_node, with_url, bring_up, place, slot_key_of, scan_node,
  scan_existing_devices, reload_wiring, prepared, configured, start_up, handle_all, serving,
}

-- The proxy runs, or the slot says why not.
abbrev pub IsAnswered : Slot → Type 0
IsAnswered s = (s.running ≡ true) ⊎ ((e : String) × (s.last_error ≡ some e))

-- A consistent slot, whose proxy runs where it has a device, or which says why not.
pub record IsServed (s : Slot) : Type 0 where
  pub consistent : IsConsistent s
  pub answered : s.present ≡ true → IsAnswered s

fresh-IsServed :
    (k : String) (l : Option String) (t d o : Option ℕ) (g : Globals) (u : Option String)
    → IsServed (record (make_slot k l t d o g).1 { usb_prefix = u })
unfolding make_slot
fresh-IsServed k l t d o g u = record {
  consistent = record { presence = refl; recovery = λ c. cc };
  answered = λ c. absurd (cc c);
}

dynamic-IsServed : (k : String) (g : Globals) → IsServed (make_dynamic_slot k g).1
unfolding make_dynamic_slot make_slot
dynamic-IsServed k g = record {
  consistent = record { presence = refl; recovery = λ c. cc };
  answered = λ c. absurd (cc c);
}

load_slots-IsServed :
    (defs : List SlotDef) (d : Dict Slot) (g : Globals)
    → Values IsServed d
    → Values IsServed (load_slots defs d g).1
unfolding load_slots
load_slots-IsServed [] d g h = h
load_slots-IsServed (x ∷ defs) d g h =
    load_slots-IsServed defs _ _
      (put-Values IsServed _ _ d (fresh-IsServed _ _ _ _ _ g x.usb_prefix) h)

with_url-IsServed : (host_ip : String) (s : Slot) → IsServed s → IsServed (with_url host_ip s)
unfolding with_url
with_url-IsServed host_ip s c = elim (Bool-cases (s.tcp_port == 0)) [
  | inl e ↦ rw e c
  | inr e ↦ rw e (record {
    consistent = record { presence = c.consistent.presence; recovery = c.consistent.recovery };
    answered = c.answered;
  })
]

reload_wiring-IsServed :
    (wiring : Dict (Option Bool)) (s : Slot) → IsServed s → IsServed (reload_wiring wiring s)
unfolding reload_wiring
reload_wiring-IsServed wiring s c =
    elim (get s.label wiring)
      as (λ o. IsServed (elim o [ none ↦ s | some wired ↦ record s { gpio_wired = wired } ])) [
        | none ↦ c
        | some wired ↦ record {
          consistent = record {
            presence = c.consistent.presence;
            recovery = c.consistent.recovery;
          };
          answered = c.answered;
        }
      ]

prepared-IsServed :
    (o : Outside) (d : Dict Slot) → Values IsServed d → Values IsServed (prepared o d)
unfolding prepared
prepared-IsServed o [] h = tt
prepared-IsServed o ((k, s) ∷ d) h = (
  with_url-IsServed o.host_ip _ (reload_wiring-IsServed o.wiring s h.0),
  prepared-IsServed o d h.1,
)

record_node-IsConsistent :
    (host_ip slot_key devnode : String) (s : Slot)
    → IsConsistent s
    → IsConsistent (record_node host_ip slot_key devnode s)
unfolding record_node with_url
record_node-IsConsistent host_ip slot_key devnode s c = elim (Bool-cases (s.tcp_port == 0)) [
  | inl e ↦ rw e (record {
    presence = sym (ap not (put-not_empty slot_key (some devnode) s.devnodes));
    recovery = c.recovery;
  })
  | inr e ↦ rw e (record {
    presence = sym (ap not (put-not_empty slot_key (some devnode) s.devnodes));
    recovery = c.recovery;
  })
]

started-IsServed : (m : Machine) (s : Slot) → IsConsistent s → IsServed (start_proxy m s).0
started-IsServed m s c =
    let (p, d, f, r) = start_proxy-Keeps m s in
    record {
      consistent = record {
        presence = p ∙ c.presence ∙ sym (ap (λ x. not (is_empty x)) d);
        recovery = λ h. f ∙ c.recovery (sym r ∙ h);
      };
      answered = λ h. elim (start_proxy-Ends m s) [ inl up ↦ inl up.1 | inr down ↦ inr down.4 ];
    }

bring_up-IsServed : (m : Machine) (s : Slot) → IsConsistent s → IsServed (bring_up m s).0
unfolding bring_up
bring_up-IsServed m s c =
    if-cases (λ (r : Slot × List Step × Bool). IsServed r.0) s.running _ _
      (λ e. record { consistent = c; answered = λ h. inl e }) (λ e. started-IsServed m s c)

-- The lookup raises only where a configured slot has no `usb_prefix`, and leaves the prefixes alone.
abbrev Located : Globals → Option (Globals × String × Slot) → Type 0
Located g none = with_text g.slot_prefixes ≡ none
Located g (some at) = at.0.slot_prefixes ≡ g.slot_prefixes

found-prefixes :
    (k : String) (g : Globals) (o : Option Slot) → (found k g o).0.slot_prefixes ≡ g.slot_prefixes
unfolding make_dynamic_slot make_slot next_label
found-prefixes k g none = refl
found-prefixes k g (some s) = refl

result-Located : (k : String) (g : Globals) (l : Option String) → Located g (located k g (result l))
unfolding located
result-Located k g none = found-prefixes k g (get k g.slots)
result-Located k g (some j) = found-prefixes j g (get j g.slots)

locate-Located : (k : String) (g : Globals) → Located g (locate k g)
unfolding locate located find_fixed_slot_for_key
locate-Located k g = go (with_text g.slot_prefixes) refl
  where
    go :
        (ps : Option (List (String × SlotPrefix)))
        → with_text g.slot_prefixes ≡ ps
        → Located g (
            located k g (elim ps [
              | none ↦ type_error
              | some ps ↦ result (first_match g.slots k (longest_first ps))
            ]))
    go none e = e
    go (some ps) e = result-Located k g (first_match g.slots k (longest_first ps))

-- One step of the scan, or all of it.
abbrev Scanned : Boot → Option Boot → Type 0
Scanned b none = with_text b.globals.slot_prefixes ≡ none
Scanned b (some b') =
    Values IsServed b'.globals.slots × (b'.globals.slot_prefixes ≡ b.globals.slot_prefixes)

place-Scanned :
    (o : Outside) (devnode slot_key : String) (b : Boot) (l : Option (Globals × String × Slot))
    → Located b.globals l
    → ((at : Globals × String × Slot) → l ≡ some at → Values IsServed at.0.slots × IsServed at.2)
    → Scanned b (place o devnode slot_key b l)
unfolding place
place-Scanned o devnode slot_key b none raises h = raises
place-Scanned o devnode slot_key b (some (g, key, s)) same h =
    let (all, c) = h (g, key, s) refl in
    (
      put-Values IsServed key _ g.slots
          (bring_up-IsServed (o.machine devnode) _
            (record_node-IsConsistent o.host_ip slot_key devnode s c.consistent))
          all,
      same,
    )

scan_node-Scanned :
    (o : Outside) (n : Node) (b : Boot)
    → Values IsServed b.globals.slots
    → Scanned b (scan_node o n b)
unfolding scan_node
scan_node-Scanned o n b h =
    let slot_key = slot_key_of n.properties in
    if-either (Scanned b) (str_eq slot_key "") _ _ (h, refl)
      (place-Scanned o n.devnode slot_key b (locate slot_key b.globals)
        (locate-Located slot_key b.globals)
        (λ at. locate-Values IsServed dynamic-IsServed slot_key b.globals at h))

Scanned-same :
    (b1 b : Boot) (r : Option Boot)
    → b1.globals.slot_prefixes ≡ b.globals.slot_prefixes
    → Scanned b1 r
    → Scanned b r
Scanned-same b1 b none e h = sym (ap with_text e) ∙ h
Scanned-same b1 b (some b2) e h = (h.0, h.1 ∙ e)

then-Scanned :
    (o : Outside) (ns : List Node) (b : Boot) (r : Option Boot)
    → ((b1 : Boot) → Values IsServed b1.globals.slots → Scanned b1 (scan_existing_devices o ns b1))
    → Scanned b r
    → Scanned b (elim r [ none ↦ none | some b1 ↦ scan_existing_devices o ns b1 ])
then-Scanned o ns b none h c = c
then-Scanned o ns b (some b1) h c = Scanned-same b1 b (scan_existing_devices o ns b1) c.1 (h b1 c.0)

scan-Scanned :
    (o : Outside) (ns : List Node) (b : Boot)
    → Values IsServed b.globals.slots
    → Scanned b (scan_existing_devices o ns b)
unfolding scan_existing_devices
scan-Scanned o [] b h = (h, refl)
scan-Scanned o (n ∷ ns) b h =
    then-Scanned o ns b (scan_node o n b) (scan-Scanned o ns) (scan_node-Scanned o n b h)

served-AllSlots : (d : Dict Slot) → Values IsServed d → AllSlots d
served-AllSlots [] h = tt
served-AllSlots ((k, s) ∷ d) h = (h.0.consistent, served-AllSlots d h.1)

handle_all-AllSlots :
    (es : List (Env × Option Event)) (p : Portal)
    → AllSlots p.globals.slots
    → AllSlots (handle_all es p).globals.slots
unfolding handle_all
handle_all-AllSlots [] p h = h
handle_all-AllSlots ((env, e) ∷ es) p h =
    handle_all-AllSlots es (handle_hotplug env e p).0 (handle_hotplug-AllSlots env e p h)

-- What comes of a start: its lookup has raised, for a configured slot has no `usb_prefix`; or every slot
-- is served, and stays consistent through the requests `es`.
abbrev pub Starts : Globals → List (Env × Option Event) → ℕ → List String → Option Boot → Type 0
Starts g es seq sessions none = with_text g.slot_prefixes ≡ none
Starts g es seq sessions (some b) =
    Values IsServed b.globals.slots
    × AllSlots (handle_all es (serving seq sessions b)).globals.slots

Scanned-Starts :
    (b0 : Boot) (es : List (Env × Option Event)) (seq : ℕ) (sessions : List String)
    (r : Option Boot)
    → Scanned b0 r
    → Starts b0.globals es seq sessions r
unfolding serving
Scanned-Starts b0 es seq sessions none h = h
Scanned-Starts b0 es seq sessions (some b) h =
    (h.0, handle_all-AllSlots es (serving seq sessions b) (served-AllSlots b.globals.slots h.0))

-- Whatever is configured, plugged in and answered, and whatever hotplug requests follow, well-formed or
-- not: the start ends with every slot marked present exactly while a device is recorded on it, and
-- with its proxy running or an error that says why not where it is present; and the requests leave
-- every slot marked present exactly while a device is recorded on it, and recovering only while it
-- is flapping. The start raises only where a configured slot has no `usb_prefix`.
pub start_up-Starts :
    (o : Outside) (defs : List SlotDef) (nodes : List Node) (g : Globals)
    (es : List (Env × Option Event)) (seq : ℕ) (sessions : List String)
    → Starts (configured o defs g) es seq sessions (start_up o defs nodes g)
unfolding start_up configured
start_up-Starts o defs nodes g es seq sessions =
    Scanned-Starts (record { globals = configured o defs g; steps = []; detections = [] }) es seq
      sessions _ (scan-Scanned o nodes _ (prepared-IsServed o _ (load_slots-IsServed defs [] g tt)))
