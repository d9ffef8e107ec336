-- ===== src/Sdr/Console.antt =====
-- pi/sdr_controller.py: what the browser is given when it polls the ring buffer.
use embedded_ai_harness.Prelude.{
  ℕ, zero, suc, ◌+◌, ◌-◌, ◌≤◌, String, true, false, List, [], ◌∷◌, ◌++◌, ◌≡◌, inl, inr, refl, sym,
  ap, ◌∙◌, arith, keep, ltb, leb, length, push_all, drop, length-append, drop-drop, drop-append,
  push_all_lem, Bool-cases, subst,
}
use embedded_ai_harness.Sdr.{Receiver, Entry, live_events}
use embedded_ai_harness.Sdr.Steps.{read_line}
use embedded_ai_harness.Sdr.Ring.{Follows, Follows-append, Follows-drop, IsRing}

drop_all : (m : ℕ) → drop {A = Entry} m [] ≡ []
drop_all zero = refl
drop_all (suc m) = refl

-- The entries after `since` are the last ones.
keep-drop :
    (since n : ℕ) (es : List Entry)
    → Follows n es
    → keep (λ e. ltb since e.seq) es ≡ drop (since - n) es
unfolding keep
keep-drop since n [] h = sym (drop_all (since - n))
keep-drop since n (e ∷ es) h = elim (Bool-cases (leb since n)) [
  | inl le ↦
      let now : since - n ≡ 0 = ground arith in
      let next : since - suc n ≡ 0 = ground arith in
      let taken : ltb since e.seq ≡ true = ground (arith, h.0) in
      rw (now, taken) (ap (λ l. e ∷ l) (keep-drop since (suc n) es h.1 ∙ ap (λ i. drop i es) next))
  | inr gt ↦
      let now : since - n ≡ suc (since - suc n) = ground arith in
      let passed : ltb since e.seq ≡ false = ground (arith, h.0) in
      rw (now, passed) (keep-drop since (suc n) es h.1)
]

-- What the reader makes of the lines that it reads after `n`.
abbrev pub entries : ℕ → List String → List Entry
entries n [] = []
entries n (l ∷ ls) = record { seq = n + 1; line = l } ∷ entries (n + 1) ls

abbrev pub read_lines : List String → Receiver → Receiver
read_lines [] r = r
read_lines (l ∷ ls) r = read_lines ls (read_line l r)

length-entries : (n : ℕ) (ls : List String) → length (entries n ls) ≡ length ls
length-entries n [] = refl
length-entries n (l ∷ ls) = omega (arith, length-entries (n + 1) ls)

entries-Follows : (n : ℕ) (ls : List String) → Follows n (entries n ls)
entries-Follows n [] = tt
entries-Follows n (l ∷ ls) = (
  omega arith,
  subst (λ i. Follows i (entries (n + 1) ls)) (omega arith) (entries-Follows (n + 1) ls),
)

read_lines-push_all :
    (ls : List String) (r : Receiver)
    → (read_lines ls r).live_buf ≡ push_all 600 r.live_buf (entries r.live_seq ls)
unfolding read_line
read_lines-push_all [] r = refl
read_lines-push_all (l ∷ ls) r = read_lines-push_all ls (read_line l r)

-- A browser that has polled up to the last number, and polls again after the reader has read any lines, is
-- given exactly these lines, numbered on from there and in their order, each once: all of them, or the last
-- 600 where they are more.
pub live_events-read_lines :
    (ls : List String) (r : Receiver)
    → IsRing r
    → live_events r.live_seq (read_lines ls r) ≡ drop (length ls - 600) (entries r.live_seq ls)
unfolding live_events
live_events-read_lines ls r h =
    let new = entries r.live_seq ls in
    let count = length-entries r.live_seq ls in
    let n = length r.live_buf in
    let base = r.live_seq - n in
    let k = n + length new - 600 in
    let all = r.live_buf ++ new in
    let held : (read_lines ls r).live_buf ≡ drop k all =
      read_lines-push_all ls r ∙ push_all_lem 600 r.live_buf new h.count in
    let at =
      Follows-append base r.live_seq r.live_buf new (omega (arith, h.within)) h.numbered
        (entries-Follows r.live_seq ls) in
    let le : k ≤ length all = omega (arith, length-append r.live_buf new) in
    let m = r.live_seq - (base + k) in
    let sum : k + m ≡ n + (length ls - 600) = omega (arith, h.within, h.count, count) in
    ap (keep (λ e. ltb r.live_seq e.seq)) held
    ∙ keep-drop r.live_seq (base + k) (drop k all) (Follows-drop k base all le at)
    ∙ drop-drop m k all
    ∙ ap (λ i. drop i all) sum
    ∙ drop-append (length ls - 600) r.live_buf new
