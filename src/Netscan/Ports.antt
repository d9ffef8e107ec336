-- ===== src/Netscan/Ports.antt =====
-- pi/netscan_controller.py: the ports that a list stands for, and the targets that are let through.
use embedded_ai_harness.Prelude.{
  ℕ, zero, suc, ◌+◌, ◌-◌, ◌≤◌, ◌<◌, Bool, true, false, ◌&&◌, ◌||◌, Option, none, some, List, [],
  ◌∷◌, leb, ltb, ◌==◌, ◌≡◌, ◌≢◌, ◌↔◌, arith, refl, Option-cases, inl, inr, some-injective, subst,
}
use embedded_ai_harness.Netscan.{
  Net, address, validate_target, Item, add_port, add_range, item_bounds, bounds_of, checked,
  parse_items, parse_ports, has,
}

-- A host is let through exactly if it is an address inside the network, not its first or its last, and
-- not the testbench's own.
pub validate_target_iff :
    (a : ℕ) (net : Net) (self_ip : ℕ)
    → (validate_target (some a) net self_ip ≡ address a)
      ↔ ((net.first < a) × (a + 1 < net.first + net.size) × (a ≢ self_ip))
unfolding validate_target
validate_target_iff a net self_ip = ground arith

has-add_port : (p q : ℕ) (ports : List ℕ) → has p (add_port q ports) ≡ ((q == p) || has p ports)
unfolding has add_port
has-add_port p q [] = refl
has-add_port p q (x ∷ rest) = ground (arith, has-add_port p q rest)

has-add_range :
    (p n lo : ℕ) (ports : List ℕ)
    → has p (add_range n lo ports) ≡ ((leb lo p && ltb p (lo + n)) || has p ports)
unfolding add_range
has-add_range p zero lo ports = ground arith
has-add_range p (suc n) lo ports =
    ground (arith, has-add_port p lo (add_range n (lo + 1) ports), has-add_range p n (lo + 1) ports)

-- The port stands in one of the items.
unfoldable pub asks : ℕ → List Item → Bool
asks p [] = false
asks p (i ∷ rest) = elim (item_bounds i) [
  | none ↦ asks p rest
  | some b ↦ (leb b.0 p && leb p b.1) || asks p rest
]

has-parse_items :
    (p : ℕ) (items : List Item) (ports out : List ℕ)
    → parse_items items ports ≡ some out
    → has p out ≡ (asks p items || has p ports)
unfolding parse_items asks
has-parse_items p [] ports out e = ground arith
has-parse_items p (i ∷ rest) ports out e = elim (Option-cases (item_bounds i)) [
  | inl bad ↦ ground (arith, bad)
  | inr (b, good) ↦ ground (
    arith,
    good,
    has-parse_items p rest (add_range (b.1 + 1 - b.0) b.0 ports) out,
    has-add_range p (b.1 + 1 - b.0) b.0 ports,
  )
]

-- The list ascends strictly, from above `b`.
abbrev pub IsAscending : ℕ → List ℕ → Type 0
IsAscending b [] = Unit
IsAscending b (x ∷ rest) = (b < x) × IsAscending x rest

add_port-IsAscending :
    (p b : ℕ) (ports : List ℕ) → b < p → IsAscending b ports → IsAscending b (add_port p ports)
unfolding add_port
add_port-IsAscending p b [] less h = (less, tt)
add_port-IsAscending p b (x ∷ rest) less h = ground (arith, add_port-IsAscending p x rest)

add_range-IsAscending :
    (n lo : ℕ) (ports : List ℕ)
    → 0 < lo
    → IsAscending 0 ports
    → IsAscending 0 (add_range n lo ports)
unfolding add_range
add_range-IsAscending zero lo ports less h = h
add_range-IsAscending (suc n) lo ports less h =
    add_port-IsAscending lo 0 (add_range n (lo + 1) ports) less
      (add_range-IsAscending n (lo + 1) ports (omega arith) h)

checked_lem :
    (lo hi : ℕ) (b : ℕ × ℕ) → checked lo hi ≡ some b → (1 ≤ b.0) × (b.0 ≤ b.1) × (b.1 ≤ 65535)
unfolding checked
checked_lem lo hi b e = ground arith

bounds_of_lem :
    (lo : Option ℕ) (hi : Option (Option ℕ)) (b : ℕ × ℕ)
    → bounds_of lo hi ≡ some b
    → (1 ≤ b.0) × (b.0 ≤ b.1) × (b.1 ≤ 65535)
unfolding bounds_of
bounds_of_lem none hi b e = ground arith
bounds_of_lem (some lo) none b e = checked_lem lo lo b e
bounds_of_lem (some lo) (some none) b e = ground arith
bounds_of_lem (some lo) (some (some hi)) b e = checked_lem lo hi b e

item_bounds_lem :
    (i : Item) (b : ℕ × ℕ) → item_bounds i ≡ some b → (1 ≤ b.0) × (b.0 ≤ b.1) × (b.1 ≤ 65535)
unfolding item_bounds
item_bounds_lem i b e = bounds_of_lem i.lo i.hi b e

parse_items-IsAscending :
    (items : List Item) (ports out : List ℕ)
    → IsAscending 0 ports
    → parse_items items ports ≡ some out
    → IsAscending 0 out
unfolding parse_items
parse_items-IsAscending [] ports out h e =
    subst (λ l. IsAscending 0 l) (some-injective ports out e) h
parse_items-IsAscending (i ∷ rest) ports out h e = elim (Option-cases (item_bounds i)) [
  | inl bad ↦ ground (arith, bad)
  | inr (b, good) ↦
      let (low, _, _) = item_bounds_lem i b good in
      parse_items-IsAscending rest (add_range (b.1 + 1 - b.0) b.0 ports) out
        (add_range-IsAscending (b.1 + 1 - b.0) b.0 ports (omega (arith, low)) h)
        (rw (parse_items, good) at e)
]

asks-in_range : (p : ℕ) (items : List Item) → asks p items ≡ true → (1 ≤ p) × (p ≤ 65535)
unfolding asks
asks-in_range p [] h = ground arith
asks-in_range p (i ∷ rest) h = elim (Option-cases (item_bounds i)) [
  | inl bad ↦ ground (arith, bad, asks-in_range p rest)
  | inr (b, good) ↦ ground (arith, good, item_bounds_lem i b good, asks-in_range p rest)
]

-- The list that `parse_ports` returns ascends strictly, so that no port stands twice; its members are
-- the ports that an item asks for; and all are from 1 to 65535.
pub parse_ports_lem :
    (items : List Item) (out : List ℕ)
    → parse_ports items ≡ some out
    → IsAscending 0 out
      × ((p : ℕ) → has p out ≡ asks p items)
      × ((p : ℕ) → has p out ≡ true → (1 ≤ p) × (p ≤ 65535))
unfolding parse_ports has
parse_ports_lem items out e = (
  parse_items-IsAscending items [] out tt e,
  λ p. ground (arith, has-parse_items p items [] out e),
  λ p h. asks-in_range p items (ground (arith, has-parse_items p items [] out e)),
)
