-- ===== src/Netscan/Scan.antt =====
-- pi/netscan_controller.py: what a scan reports, in whatever order its checks are done.
use embedded_ai_harness.Prelude.{
  ℕ, suc, ◌+◌, ◌≤◌, Bool, true, false, List, [], ◌∷◌, ltb, if◌then◌else◌, ◌==◌, ◌≡◌, length, arith,
  refl, Bool-cases, inl, inr, ltb→lt, ==_iff,
}
use embedded_ai_harness.Netscan.{Progress, begin, submit, finish, has, without, is_complete}

-- The states that a scan of `ports` can be in.
pub data Reach (accepts : ℕ → Bool) (ports : List ℕ) : Progress → Type 0 where
  begun : Reach accepts ports (begin ports)
  submitting : {s : Progress} → Reach accepts ports s → Reach accepts ports (submit s)
  finishing :
      {s : Progress} (p : ℕ) → Reach accepts ports s → Reach accepts ports (finish accepts p s)

pub count : ℕ → List ℕ → ℕ
count p [] = 0
count p (q ∷ rest) = let more = count p rest in if q == p then suc more else more

-- Every port is still to be checked or was found to be open or closed.
abbrev IsAccounted : (ℕ → Bool) → List ℕ → Progress → Type 0
IsAccounted accepts ports s =
    (length s.in_flight ≤ 128)
    × (length s.pending + length s.in_flight + s.scanned ≡ length ports)
    × ((p : ℕ)
        → accepts p ≡ true
        → count p s.pending + count p s.in_flight + count p s.open_ports ≡ count p ports)
    × ((p : ℕ) → accepts p ≡ false → count p s.open_ports ≡ 0)

length-without : (p : ℕ) (xs : List ℕ) → has p xs ≡ true → suc (length (without p xs)) ≡ length xs
unfolding without has
length-without p [] h = ground arith
length-without p (x ∷ xs) h = ground (arith, length-without p xs)

count-without :
    (p q : ℕ) (xs : List ℕ)
    → has p xs ≡ true
    → count q (without p xs) + (if p == q then 1 else 0) ≡ count q xs
unfolding without has count
count-without p q [] h = ground arith
count-without p q (x ∷ xs) h = ground (arith, count-without p q xs)

begin-IsAccounted : (accepts : ℕ → Bool) (ports : List ℕ) → IsAccounted accepts ports (begin ports)
unfolding begin count
begin-IsAccounted accepts ports = (omega arith, omega arith, λ p a. omega arith, λ p a. refl)

submit-IsAccounted :
    (accepts : ℕ → Bool) (ports pending flying found : List ℕ) (n : ℕ)
    → let s : Progress = record {
      pending = pending;
      in_flight = flying;
      open_ports = found;
      scanned = n;
    } in
      IsAccounted accepts ports s → IsAccounted accepts ports (submit s)
unfolding submit count
submit-IsAccounted accepts ports [] flying found n h = h
submit-IsAccounted accepts ports (p ∷ rest) flying found n (small, total, opened, closed) =
    elim (Bool-cases (ltb (length flying) 128)) [
      | inl e ↦ rw e (
        omega (arith, ltb→lt (length flying) 128 e),
        omega (arith, total),
        λ q a. ground (arith, opened q a),
        closed,
      )
      | inr e ↦ rw e (small, total, opened, closed)
    ]

finish-IsAccounted :
    (accepts : ℕ → Bool) (ports : List ℕ) (p : ℕ) (s : Progress)
    → IsAccounted accepts ports s
    → IsAccounted accepts ports (finish accepts p s)
unfolding finish count
finish-IsAccounted accepts ports p s (small, total, opened, closed) =
    elim (Bool-cases (has p s.in_flight)) [
      | inl e ↦
          let shorter = length-without p s.in_flight e in
          rw e (
            omega (arith, shorter, small),
            omega (arith, shorter, total),
            λ q a. ground (arith, opened q a, count-without p q s.in_flight e),
            λ q a. ground (arith, closed q a),
          )
      | inr e ↦ rw e (small, total, opened, closed)
    ]

Reach-IsAccounted :
    {accepts : ℕ → Bool} {ports : List ℕ} {s : Progress}
    → Reach accepts ports s
    → IsAccounted accepts ports s
Reach-IsAccounted begun = begin-IsAccounted _ _
Reach-IsAccounted (submitting {s} r) =
    submit-IsAccounted _ _ s.pending s.in_flight s.open_ports s.scanned (Reach-IsAccounted r)
Reach-IsAccounted (finishing {s} p r) = finish-IsAccounted _ _ p s (Reach-IsAccounted r)

count-empty : (p : ℕ) (xs : List ℕ) → length xs ≡ 0 → count p xs ≡ 0
unfolding count
count-empty p [] h = refl
count-empty p (x ∷ xs) h = ground arith

-- In whatever order the checks are submitted and done, at most 128 are in flight, a port is reported
-- open no more often than it was asked for and only if it accepts, and a scan that says it is complete
-- reports exactly the ports that accept.
pub scan-IsComplete :
    {accepts : ℕ → Bool} {ports : List ℕ} {s : Progress}
    → Reach accepts ports s
    → (length s.in_flight ≤ 128)
      × ((p : ℕ) → count p s.open_ports ≤ (if accepts p then count p ports else 0))
      × (is_complete ports s ≡ true
          → (p : ℕ) → count p s.open_ports ≡ (if accepts p then count p ports else 0))
unfolding is_complete
scan-IsComplete {accepts} {ports} {s} r =
    let (small, total, opened, closed) = Reach-IsAccounted r in
    (
      small,
      λ p. ground (arith, opened p, closed p),
      λ e p.
          let done = (==_iff s.scanned (length ports)).0 e in
          ground (
            arith,
            opened p,
            closed p,
            count-empty p s.pending (omega (arith, total, done)),
            count-empty p s.in_flight (omega (arith, total, done)),
          ),
    )
