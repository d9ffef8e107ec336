-- ===== src/Sdr/Codewords.antt =====
-- pi/sdr_controller.py: the repeating codewords in the packets that a flex decoder gives. A row's digits are
-- their code points; a level is in hundredths of a decibel.
pub mod Shortest
use embedded_ai_harness.Prelude.{
  ℕ, zero, suc, ◌+◌, ◌-◌, ◌*◌, ◌/◌, min, Bool, true, false, not, ◌&&◌, ◌||◌, Option, none, some,
  List, [], ◌∷◌, ◌++◌, if◌then◌else◌, ltb, leb, ◌==◌, length, take, drop, keep, map,
}
use embedded_ai_harness.Prelude.Int.{ℤ, pos, negsuc, ltb_ℤ, minus}

abbrev pub Code : Type 0
Code = List ℕ

-- `unit * k`
pub times : ℕ → Code → Code
times zero unit = []
times (suc k) unit = unit ++ times k unit

-- `sum(a == b for a, b in zip(xs, ys))`
pub agreements : Code → Code → ℕ
agreements [] ys = 0
agreements (x ∷ xs) [] = 0
agreements (x ∷ xs) (y ∷ ys) = (if x == y then 1 else 0) + agreements xs ys

-- The first `period` digits, repeated, give at least 90% of the text.
pub is_repeat : Code → ℕ → Bool
unfolding times agreements
is_repeat sub period =
    let n = length sub in
    let rep = take n (times (n / period + 1) (take period sub)) in
    leb (90 * n) (100 * agreements rep sub)

-- The inner loop from `period` on, over so many periods.
pub scan_periods : ℕ → ℕ → Code → Code → Code
unfolding is_repeat
scan_periods zero period sub best = best
scan_periods (suc k) period sub best =
    let rest = scan_periods k (period + 1) sub best in
    if leb (length best) period
    then best
    else if is_repeat sub period
    then take period sub
    else rest

-- The outer loop from `start` on, over so many starts.
pub scan_starts : ℕ → ℕ → Code → Code → Code
scan_starts zero start hexstr best = best
scan_starts (suc k) start hexstr best =
    let sub = drop start hexstr in
    scan_starts k (start + 1) hexstr (scan_periods (length sub / 2 + 1 - 3) 3 sub best)

-- `_repeat_unit`
pub repeat_unit : Code → Code
repeat_unit hexstr = scan_starts (min 16 (length hexstr / 2)) 0 hexstr hexstr

-- A decoded packet: its level, if it is a number, and the `data` of its rows, where these are texts.
pub record Packet : Type 0 where
  pub rssi : Option ℤ
  pub rows : List (Option Code)

higher : Option ℤ → Option ℤ → Option ℤ
higher none b = b
higher (some a) none = some a
higher (some a) (some b) = some (if ltb_ℤ a b then b else a)

-- `max(rssis)`, where there are any
pub highest : List Packet → Option ℤ
unfolding higher
highest [] = none
highest (p ∷ ps) = higher p.rssi (highest ps)

-- Not `rssi < floor`, where both are there.
pub is_strong : Option ℤ → Option ℤ → Bool
is_strong none rssi = true
is_strong (some top) none = true
is_strong (some top) (some rssi) = not (ltb_ℤ rssi (minus top 600))

-- `set(unit) <= {c}`
pub is_all : ℕ → Code → Bool
is_all c [] = true
is_all c (d ∷ ds) = (d == c) && is_all c ds

pub same_code : Code → Code → Bool
same_code [] [] = true
same_code [] (y ∷ ys) = false
same_code (x ∷ xs) [] = false
same_code (x ∷ xs) (y ∷ ys) = (x == y) && same_code xs ys

-- What a row is counted as, if it is counted.
pub unit_of : Option Code → Option Code
unfolding is_all
unit_of none = none
unit_of (some digits) =
    let unit = repeat_unit digits in
    if ltb (length digits) 4 || ltb (length unit) 3 || is_all b'0' unit || is_all b'f' unit
    then none
    else some unit

abbrev pub Counts : Type 0
Counts = List (Code × ℕ)

pub count_one : Code → Counts → Counts
unfolding same_code
count_one unit [] = (unit, 1) ∷ []
count_one unit ((w, n) ∷ rest) =
    if same_code unit w then (w, n + 1) ∷ rest else (w, n) ∷ count_one unit rest

pub count_unit : Option Code → Counts → Counts
unfolding count_one
count_unit none counts = counts
count_unit (some unit) counts = count_one unit counts

pub count_rows : List (Option Code) → Counts → Counts
unfolding count_unit
count_rows [] counts = counts
count_rows (row ∷ rows) counts = count_rows rows (count_unit (unit_of row) counts)

pub count_packets : Option ℤ → List Packet → Counts → Counts
unfolding count_rows is_strong
count_packets top [] counts = counts
count_packets top (p ∷ ps) counts =
    count_packets top ps (if is_strong top p.rssi then count_rows p.rows counts else counts)

-- Sorted by their counts, the largest first, where equal ones stay in their order.
pub insert : Code × ℕ → Counts → Counts
insert (w, n) [] = (w, n) ∷ []
insert (w, n) ((v, m) ∷ rest) =
    if ltb n m then (v, m) ∷ insert (w, n) rest else (w, n) ∷ (v, m) ∷ rest

pub ranked : Counts → Counts
unfolding insert
ranked [] = []
ranked (x ∷ xs) = insert x (ranked xs)

-- `_dominant_codewords`
pub dominant_codewords : List Packet → Counts
unfolding highest count_packets ranked
dominant_codewords events = take 6 (ranked (count_packets (highest events) events []))
