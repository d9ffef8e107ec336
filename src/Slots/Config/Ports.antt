-- ===== src/Slots/Config/Ports.antt =====
-- pi/portal.py `_next_available_port`, and the ports that `load_config` hands out.
use embedded_ai_harness.Prelude.{
  ℕ, zero, suc, ◌+◌, ◌≤◌, ◌<◌, ◌≡◌, String, true, false, Option, none, some, List, [], ◌∷◌, arith,
  Bool-cases, inl, inr, All, ◌==◌, str_eq, sym, ◌∙◌,
}
use embedded_ai_harness.Prelude.Dict.{Dict, get, put, get-put}
use embedded_ai_harness.Slots.{Slot}
use embedded_ai_harness.Slots.Config.{
  SlotDef, Globals, member, used_ports, largest, first_free, next_available_port, make_slot,
  next_label, load_slots, tcp_port_base,
}

member-above : (p : ℕ) (used : List ℕ) → largest used < p → member p used ≡ false
unfolding member largest
member-above p [] h = ground arith
member-above p (x ∷ xs) h = ground (arith, member-above p xs)

module _ (used : List ℕ) where
  first_free-unused :
      (fuel port : ℕ) → largest used < fuel + port → member (first_free fuel port used) used ≡ false
  unfolding first_free
  first_free-unused zero port h = member-above port used (omega arith)
  first_free-unused (suc fuel) port h = elim (Bool-cases (member port used)) [
    | inl taken ↦ rw taken (first_free-unused fuel (port + 1) (omega arith))
    | inr free ↦ rw free free
  ]

  first_free-ge : (fuel port : ℕ) → port ≤ first_free fuel port used
  unfolding first_free
  first_free-ge zero port = omega arith
  first_free-ge (suc fuel) port = ground (arith, first_free-ge fuel (port + 1))

  first_free-least :
      (fuel port q : ℕ) → port ≤ q → q < first_free fuel port used → member q used ≡ true
  unfolding first_free
  first_free-least zero port q lo hi = absurd (omega arith)
  first_free-least (suc fuel) port q lo hi = elim (Bool-cases (member port used)) [
    | inl taken ↦ elim (Bool-cases (port == q)) [
      | inl same ↦ ground (arith, taken)
      | inr other ↦ first_free-least fuel (port + 1) q (ground arith) (ground (arith, taken))
    ]
    | inr free ↦ absurd (ground (arith, free))
  ]

-- The port handed out is the least one from the base upwards that no slot uses: the search ends, at
-- a free port, and has passed used ports only.
pub next_available_port_lem :
    (base : ℕ) (attr : Slot → ℕ) (slots : Dict Slot)
    → (member (next_available_port base attr slots) (used_ports attr slots) ≡ false)
      × (base ≤ next_available_port base attr slots)
      × ((q : ℕ)
          → base ≤ q
          → q < next_available_port base attr slots
          → member q (used_ports attr slots) ≡ true)
unfolding next_available_port
next_available_port_lem base attr slots =
    let used = used_ports attr slots in
    (
      first_free-unused used (suc (largest used)) base (omega arith),
      first_free-ge used (suc (largest used)) base,
      first_free-least used (suc (largest used)) base,
    )

module _ (key : String) (label : Option String) (tcp gdb telnet : Option ℕ) (g : Globals) where
  slots-make_slot : (make_slot key label tcp gdb telnet g).0.slots ≡ g.slots
  unfolding make_slot next_label
  slots-make_slot = ground arith

  make_slot-port :
      g.slots ≡ [] → tcp ≡ none → (make_slot key label tcp gdb telnet g).1.tcp_port ≡ tcp_port_base
  unfolding make_slot next_available_port first_free used_ports member
  make_slot-port empty missing = simp (empty, missing)

put-port :
    (key k : String) (new : Slot) (result : Dict Slot)
    → new.tcp_port ≡ tcp_port_base
    → ((j : String) (s : Slot) → get j result ≡ some s → s.tcp_port ≡ tcp_port_base)
    → (s : Slot) → get k (put key new result) ≡ some s
    → s.tcp_port ≡ tcp_port_base
put-port key k new result port before s h = elim (Bool-cases (str_eq key k)) [
  | inl same ↦ ground (arith, get-put key k new result)
  | inr other ↦ before k s (sym (rw other at (get-put key k new result)) ∙ h)
]

load_slots-port :
    (defs : List SlotDef) (result : Dict Slot) (g : Globals)
    → g.slots ≡ []
    → All (λ d. d.tcp_port ≡ none) defs
    → ((k : String) (s : Slot) → get k result ≡ some s → s.tcp_port ≡ tcp_port_base)
    → (k : String) (s : Slot) → get k (load_slots defs result g).1 ≡ some s
    → s.tcp_port ≡ tcp_port_base
unfolding load_slots
load_slots-port [] result g empty missing before k s h = before k s h
load_slots-port (d ∷ rest) result g empty missing before k s h =
    load_slots-port rest _ _ (slots-make_slot _ (some d.label) _ _ _ g ∙ empty) missing.1
      (λ j t at.
        put-port _ j _ result
          (make_slot-port _ (some d.label) d.tcp_port d.gdb_port d.openocd_telnet_port g empty
            missing.0)
          before t at)
      k s h

-- Slots configured with no port of their own all get the port 4001, however many they are: the search
-- for a free port reads the global `slots`, which is empty until `load_config` has returned.
pub load_slots-collide :
    (defs : List SlotDef) (g : Globals)
    → g.slots ≡ []
    → All (λ d. d.tcp_port ≡ none) defs
    → (k : String) (s : Slot) → get k (load_slots defs [] g).1 ≡ some s
    → s.tcp_port ≡ 4001
unfolding get
load_slots-collide defs g empty missing = load_slots-port defs [] g empty missing (λ k s h. cc)
