-- ===== src/Netscan.antt =====
-- pi/netscan_controller.py: the port check of one host. Texts are taken in as their pieces: what
-- `ipaddress` reads in a host, and whether the two sides of a port item are numbers. Addresses are
-- numbers. The pool of threads completes the checks in any order.
pub mod Ports
pub mod Scan
mod Examples
use embedded_ai_harness.Prelude.{
  ℕ, zero, suc, ◌+◌, ◌-◌, Bool, true, false, not, ◌&&◌, ◌||◌, Option, none, some, List, [], ◌∷◌,
  leb, ltb, if◌then◌else◌, ◌==◌, length,
}

abbrev pub max_in_flight : ℕ
max_in_flight = 128

-- Milliseconds.
abbrev pub default_timeout : ℕ
default_timeout = 120_000

-- The network's first address, and how many it has.
pub record Net : Type 0 where
  pub first : ℕ
  pub size : ℕ

pub data Target : Type 0 where
  address : ℕ → Target
  not_an_address : Target
  outside : Target
  network_or_broadcast : Target
  itself : Target

-- The first argument is the address that `IPv4Address` reads in a text without a slash.
pub validate_target : Option ℕ → Net → ℕ → Target
validate_target none net self_ip = not_an_address
validate_target (some a) net self_ip =
    if not (leb net.first a && ltb a (net.first + net.size))
    then outside
    else if (a == net.first) || (a + 1 == net.first + net.size)
    then network_or_broadcast
    else if a == self_ip
    then itself
    else address a

-- An item of the port list: the number before the dash, if it is one, and the one after it where
-- there is a dash.
pub record Item : Type 0 where
  pub lo : Option ℕ
  pub hi : Option (Option ℕ)

-- The set of ports, in order.
pub add_port : ℕ → List ℕ → List ℕ
add_port p [] = p ∷ []
add_port p (q ∷ rest) =
    let more = add_port p rest in
    if ltb p q then p ∷ q ∷ rest else if p == q then q ∷ rest else q ∷ more

-- `ports.update(range(lo, lo + n))`
pub add_range : ℕ → ℕ → List ℕ → List ℕ
add_range zero lo ports = ports
add_range (suc n) lo ports = add_port lo (add_range n (lo + 1) ports)

-- The bounds of an item; `none` is the ValueError.
pub checked : ℕ → ℕ → Option (ℕ × ℕ)
checked lo hi = if leb 1 lo && leb lo hi && leb hi 65535 then some (lo, hi) else none

pub bounds_of : Option ℕ → Option (Option ℕ) → Option (ℕ × ℕ)
unfolding checked
bounds_of none hi = none
bounds_of (some lo) none = checked lo lo
bounds_of (some lo) (some none) = none
bounds_of (some lo) (some (some hi)) = checked lo hi

pub item_bounds : Item → Option (ℕ × ℕ)
unfolding bounds_of
item_bounds i = bounds_of i.lo i.hi

-- The loop of `parse_ports`, with the ports found so far.
pub parse_items : List Item → List ℕ → Option (List ℕ)
parse_items [] ports = some ports
parse_items (i ∷ rest) ports = elim (item_bounds i) [
  | none ↦ none
  | some b ↦ parse_items rest (add_range (b.1 + 1 - b.0) b.0 ports)
]

pub parse_ports : List Item → Option (List ℕ)
parse_ports items = parse_items items []

-- `None`, or a number of milliseconds
pub clamp_timeout : Option ℕ → Option ℕ
clamp_timeout none = some default_timeout
clamp_timeout (some t) = if leb 1000 t && leb t 600_000 then some t else none

-- The local variables of `scan`: the ports not yet submitted, those in flight, those found open in the
-- order of their completion, and the number of those done.
pub record Progress : Type 0 where
  pub pending : List ℕ
  pub in_flight : List ℕ
  pub open_ports : List ℕ
  pub scanned : ℕ

pub begin : List ℕ → Progress
begin ports = record { pending = ports; in_flight = []; open_ports = []; scanned = 0 }

submitted : List ℕ → Progress → Progress
submitted [] s = s
submitted (p ∷ rest) s =
    if ltb (length s.in_flight) max_in_flight
    then record s { pending = rest; in_flight = p ∷ s.in_flight }
    else s

-- One round of the inner loop, where the budget allows it.
pub submit : Progress → Progress
unfolding submitted
submit s = submitted s.pending s

pub without : ℕ → List ℕ → List ℕ
without p [] = []
without p (q ∷ rest) = let more = without p rest in if q == p then rest else q ∷ more

pub has : ℕ → List ℕ → Bool
has p [] = false
has p (q ∷ rest) = (q == p) || has p rest

-- The check of a port in flight is done: `accepts` says what it found.
pub finish : (ℕ → Bool) → ℕ → Progress → Progress
finish accepts p s =
    if has p s.in_flight
    then record s {
      in_flight = without p s.in_flight;
      open_ports = if accepts p then p ∷ s.open_ports else s.open_ports;
      scanned = s.scanned + 1;
    }
    else s

pub is_complete : List ℕ → Progress → Bool
is_complete ports s = s.scanned == length ports
