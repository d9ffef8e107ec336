-- ===== src/Netscan/Examples.antt =====
-- pi/netscan_controller.py: a list of ports, a target and a scan.
use embedded_ai_harness.Prelude.{ℕ, Bool, none, some, List, [], ◌∷◌, ◌==◌, ◌≡◌, refl}
use embedded_ai_harness.Netscan.{
  Net, Item, add_port, add_range, item_bounds, parse_items, parse_ports, Progress, begin, submit,
  finish,
}

abbrev ap_net : Net
ap_net = record { first = 3_232_236_544; size = 256 }

-- "80,22,80-81"
abbrev listed : List Item
listed =
    record { lo = some 80; hi = none }
    ∷ record { lo = some 22; hi = none }
    ∷ record { lo = some 80; hi = some (some 81) }
    ∷ []

parsed : parse_ports listed ≡ some (22 ∷ 80 ∷ 81 ∷ [])
unfolding parse_ports parse_items add_range add_port item_bounds
parsed = refl

-- 192.168.4.16 and 192.168.4.1
abbrev guest : ℕ
guest = 3_232_236_560

abbrev bench : ℕ
bench = 3_232_236_545

abbrev is_ssh : ℕ → Bool
is_ssh p = p == 22

abbrev scan_state : Progress
scan_state = finish is_ssh 22 (finish is_ssh 80 (submit (submit (begin (22 ∷ 80 ∷ [])))))
