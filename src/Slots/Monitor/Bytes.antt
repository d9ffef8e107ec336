-- ===== src/Slots/Monitor/Bytes.antt =====
-- pi/portal.py: the loop of `serial_monitor` over its buffer, and the same done byte by byte.
use mathlib.Core.List.{append_assoc, append-nil}
use embedded_ai_harness.Prelude.{
  ℕ, zero, suc, ◌≤◌, String, Bool, true, false, Option, none, some, List, [], ◌∷◌, ◌++◌,
  if◌then◌else◌, ◌==◌, length, ◌≡◌, refl, sym, ap, ◌∙◌, arith, if-either,
}
use embedded_ai_harness.Slots.Monitor.{
  Recv, piece, paused, failed, closed, Reader, Watch, Cut, begin_with, cut_line, with_line, is_some,
  drain, drain_cut,
}

-- What `recv` has returned up to its first error or the end.
abbrev pub received : List Recv → List ℕ
received [] = []
received (paused ∷ rs) = received rs
received (failed ∷ rs) = []
received (closed ∷ rs) = []
received (piece bs ∷ rs) = bs ++ received rs

ended : Watch → Watch → Watch
ended w rest = if is_some w.matched then w else rest

-- The output byte by byte, with the bytes of the line so far: at a newline the line is taken.
unfoldable pub read_bytes : Reader → List ℕ → List ℕ → List String → Watch
read_bytes rd [] cur lines = record { lines = lines; matched = none; buf = cur }
read_bytes rd (b ∷ bs) cur lines =
    let taken = with_line rd cur bs lines in
    let rest = read_bytes rd bs [] taken.lines in
    let longer = read_bytes rd bs (cur ++ b ∷ []) lines in
    if b == 10 then (if is_some taken.matched then taken else rest) else longer

after_cut : Reader → List ℕ → List ℕ → List String → Cut → Watch
after_cut rd bs cur lines none = record { lines = lines; matched = none; buf = cur ++ bs }
after_cut rd bs cur lines (some (raw, rest)) =
    let w = with_line rd (cur ++ raw) rest lines in
    let more = read_bytes rd rest [] w.lines in if is_some w.matched then w else more

after_begin :
    (rd : Reader) (b : ℕ) (bs cur : List ℕ) (lines : List String) (c : Cut)
    → after_cut rd bs (cur ++ b ∷ []) lines c ≡ after_cut rd (b ∷ bs) cur lines (begin_with b c)
unfolding after_cut begin_with
after_begin rd b bs cur lines none =
    ap (λ l. record { lines = lines; matched = none; buf = l }) (append_assoc cur (b ∷ []) bs)
after_begin rd b bs cur lines (some (raw, rest)) =
    ap
      (λ l.
        let w = with_line rd l rest lines in
        let more = read_bytes rd rest [] w.lines in if is_some w.matched then w else more)
      (append_assoc cur (b ∷ []) raw)

read_bytes-after_cut :
    (rd : Reader) (bs cur : List ℕ) (lines : List String)
    → read_bytes rd bs cur lines ≡ after_cut rd bs cur lines (cut_line bs)
unfolding read_bytes after_cut cut_line
read_bytes-after_cut rd [] cur lines =
    ap (λ l. record { lines = lines; matched = none; buf = l }) (sym (append-nil cur))
read_bytes-after_cut rd (b ∷ bs) cur lines =
    let finish : List ℕ → Watch = λ l.
      let w = with_line rd l bs lines in
      let more = read_bytes rd bs [] w.lines in if is_some w.matched then w else more in
    let longer = read_bytes rd bs (cur ++ b ∷ []) lines in
    elim (b == 10)
      as (λ t.
        (if t then finish cur else longer)
        ≡ after_cut rd (b ∷ bs) cur lines
            (if t then some ([], bs) else begin_with b (cut_line bs))) [
              | true ↦ ap finish (sym (append-nil cur))
              | false ↦
                  read_bytes-after_cut rd bs (cur ++ b ∷ []) lines
                  ∙ after_begin rd b bs cur lines (cut_line bs)
            ]

-- What is left after a line is shorter.
Shorter : List ℕ → Cut → Type 0
Shorter bs none = Unit
Shorter bs (some (raw, rest)) = suc (length rest) ≤ length bs

begin_with-Shorter :
    (b : ℕ) (bs : List ℕ) (c : Cut) → Shorter bs c → Shorter (b ∷ bs) (begin_with b c)
unfolding begin_with Shorter
begin_with-Shorter b bs none h = tt
begin_with-Shorter b bs (some (raw, rest)) h = omega (arith, h)

cut_line-Shorter : (bs : List ℕ) → Shorter bs (cut_line bs)
unfolding cut_line Shorter
cut_line-Shorter [] = tt
cut_line-Shorter (b ∷ bs) =
    if-either (Shorter (b ∷ bs)) (b == 10) _ _ (omega arith)
      (begin_with-Shorter b bs (cut_line bs) (cut_line-Shorter bs))

abbrev pub at : List ℕ → List String → Watch
at bs lines = record { lines = lines; matched = none; buf = bs }

else_cong :
    (c : Bool) (w x y : Watch) → (c ≡ false → x ≡ y) → (if c then w else x) ≡ (if c then w else y)
else_cong true w x y h = refl
else_cong false w x y h = h refl

is_none : (m : Option String) → is_some m ≡ false → m ≡ none
unfolding is_some
is_none none h = refl
is_none (some t) h = ground arith

pub unmatched : (w : Watch) → is_some w.matched ≡ false → w ≡ at w.buf w.lines
unmatched w h = ap (λ m. record { lines = w.lines; matched = m; buf = w.buf }) (is_none w.matched h)

drain_cut-after_cut :
    (rd : Reader) (n : ℕ) (bs : List ℕ) (lines : List String) (c : Cut)
    → ((rest : List ℕ) (more : List String)
        → suc (length rest) ≤ length bs
        → drain rd n (at rest more) ≡ read_bytes rd rest [] more)
    → Shorter bs c
    → drain_cut rd (drain rd n) (at bs lines) c ≡ after_cut rd bs [] lines c
unfolding drain_cut after_cut Shorter
drain_cut-after_cut rd n bs lines none ih h = refl
drain_cut-after_cut rd n bs lines (some (raw, rest)) ih h =
    let w = with_line rd raw rest lines in
    else_cong (is_some w.matched) w _ _ (λ e. ap (drain rd n) (unmatched w e) ∙ ih rest w.lines h)

-- As many rounds as there are bytes are enough.
pub drain-read_bytes :
    (rd : Reader) (n : ℕ) (bs : List ℕ) (lines : List String)
    → length bs ≤ n
    → drain rd n (at bs lines) ≡ read_bytes rd bs [] lines
unfolding drain read_bytes
drain-read_bytes rd zero [] lines le = refl
drain-read_bytes rd zero (b ∷ bs) lines le = ground arith
drain-read_bytes rd (suc n) bs lines le =
    drain_cut-after_cut rd n bs lines (cut_line bs)
      (λ rest more shorter. drain-read_bytes rd n rest more (omega (arith, shorter, le)))
      (cut_line-Shorter bs)
    ∙ sym (read_bytes-after_cut rd bs [] lines)
