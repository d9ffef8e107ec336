-- ===== src/Slots/Monitor/Pieces.antt =====
-- pi/portal.py: that `serial_monitor` does not depend on how the output is cut into pieces.
use mathlib.Core.List.{append_assoc, append-nil}
use embedded_ai_harness.Prelude.{
  ℕ, String, Bool, true, false, not, Option, some, List, [], ◌∷◌, ◌++◌, if◌then◌else◌, ◌==◌, length,
  ◌≡◌, refl, sym, ap, ◌∙◌, arith, Bool-cases, if-cases, if_true, if_false, All, All-append, inl,
  inr,
}
use embedded_ai_harness.Slots.{Slot}
use embedded_ai_harness.Slots.Usb.{texts}
use embedded_ai_harness.Slots.Hotplug.{settled}
use embedded_ai_harness.Slots.Monitor.{
  Recv, piece, paused, failed, closed, Reader, Watch, with_line, is_some, drain, watch,
  MonitorReply, refused, watched, answers, serial_monitor, on_port, attached,
}
use embedded_ai_harness.Slots.Monitor.Bytes.{received, read_bytes, at, unmatched, drain-read_bytes}

-- The part of the result that the caller sees.
abbrev view : Watch → List String × Option String
view w = (w.lines, w.matched)

-- The bytes `cs`, after what `r` has read.
abbrev go_on : Reader → List ℕ → Watch → List String × Option String
go_on rd cs r =
    let rest = read_bytes rd cs r.buf r.lines in view (if is_some r.matched then r else rest)

step-go_on :
    (rd : Reader) (cs : List ℕ) (m : Bool) (w w' rest rest' : Watch)
    → view w' ≡ view w
    → is_some w.matched ≡ m
    → view rest' ≡ go_on rd cs rest
    → view (if m then w' else rest') ≡ go_on rd cs (if m then w else rest)
step-go_on rd cs true w w' rest rest' v e h = v ∙ sym (ap view (if_true (is_some w.matched) w _ e))
step-go_on rd cs false w w' rest rest' v e h = h

read_bytes-append :
    (rd : Reader) (bs cs cur : List ℕ) (lines : List String)
    → view (read_bytes rd (bs ++ cs) cur lines) ≡ go_on rd cs (read_bytes rd bs cur lines)
unfolding read_bytes is_some with_line
read_bytes-append rd [] cs cur lines = refl
read_bytes-append rd (b ∷ bs) cs cur lines =
    let w = with_line rd cur bs lines in
    let w' = with_line rd cur (bs ++ cs) lines in
    let m = is_some w.matched in
    let rest = read_bytes rd bs [] w.lines in
    let rest' = read_bytes rd (bs ++ cs) [] w.lines in
    let longer = read_bytes rd bs (cur ++ b ∷ []) lines in
    let longer' = read_bytes rd (bs ++ cs) (cur ++ b ∷ []) lines in
    elim (b == 10)
      as (λ t.
        view (if t then (if m then w' else rest') else longer')
        ≡ go_on rd cs (if t then (if m then w else rest) else longer)) [
          | true ↦
              step-go_on rd cs m w w' rest rest' refl refl (read_bytes-append rd bs cs [] w.lines)
          | false ↦ read_bytes-append rd bs cs (cur ++ b ∷ []) lines
        ]

-- There is no newline in it.
abbrev IsOpen : List ℕ → Type 0
IsOpen cur = All (λ b. (b == 10) ≡ false) cur

read_bytes-open :
    (rd : Reader) (cur bs pre : List ℕ) (lines : List String)
    → IsOpen cur
    → read_bytes rd (cur ++ bs) pre lines ≡ read_bytes rd bs (pre ++ cur) lines
unfolding read_bytes
read_bytes-open rd [] bs pre lines h = ap (λ l. read_bytes rd bs l lines) (sym (append-nil pre))
read_bytes-open rd (b ∷ cur) bs pre lines h =
    if_false (b == 10) _ _ h.0
    ∙ read_bytes-open rd cur bs (pre ++ b ∷ []) lines h.1
    ∙ ap (λ l. read_bytes rd bs l lines) (append_assoc pre (b ∷ []) cur)

read_bytes-IsOpen :
    (rd : Reader) (bs cur : List ℕ) (lines : List String)
    → IsOpen cur
    → let r = read_bytes rd bs cur lines in is_some r.matched ≡ false → IsOpen r.buf
unfolding read_bytes
read_bytes-IsOpen rd [] cur lines h = λ e. h
read_bytes-IsOpen rd (b ∷ bs) cur lines h =
    let P : Watch → Type 0 = λ r. is_some r.matched ≡ false → IsOpen r.buf in
    let w = with_line rd cur bs lines in
    if-cases P (b == 10) _ _
      (λ _.
        if-cases P (is_some w.matched) w _ (λ m e. ground (arith, m, e))
          (λ _. read_bytes-IsOpen rd bs [] w.lines tt))
      (λ e.
        read_bytes-IsOpen rd bs (cur ++ b ∷ []) lines
          (All-append (λ c. (c == 10) ≡ false) cur (b ∷ []) h (e, tt)))

watch-go_on :
    (rd : Reader) (rs : List Recv) (cs : List ℕ) (r : Watch)
    → (is_some r.matched ≡ false → view (watch rd rs r) ≡ view (read_bytes rd cs r.buf r.lines))
    → let rest = watch rd rs r in view (if is_some r.matched then r else rest) ≡ go_on rd cs r
watch-go_on rd rs cs r h = elim (Bool-cases (is_some r.matched)) [
  | inl e ↦ ap view (if_true _ r _ e) ∙ sym (ap view (if_true _ r _ e))
  | inr e ↦ ap view (if_false _ r _ e) ∙ h e ∙ sym (ap view (if_false _ r _ e))
]

watch-read_bytes :
    (rd : Reader) (rs : List Recv) (cur : List ℕ) (lines : List String)
    → IsOpen cur
    → view (watch rd rs (at cur lines)) ≡ view (read_bytes rd (received rs) cur lines)
unfolding watch read_bytes
watch-read_bytes rd [] cur lines h = refl
watch-read_bytes rd (paused ∷ rs) cur lines h = watch-read_bytes rd rs cur lines h
watch-read_bytes rd (failed ∷ rs) cur lines h = refl
watch-read_bytes rd (closed ∷ rs) cur lines h = refl
watch-read_bytes rd (piece bs ∷ rs) cur lines h =
    let all = cur ++ bs in
    let r = read_bytes rd bs cur lines in
    let same : drain rd (length all) (at all lines) ≡ r =
      drain-read_bytes rd (length all) all lines (omega arith)
      ∙ read_bytes-open rd cur bs [] lines h in
    ap (λ w. let rest = watch rd rs w in view (if is_some w.matched then w else rest)) same
    ∙ watch-go_on rd rs (received rs) r (λ e.
      ap (λ w. view (watch rd rs w)) (unmatched r e)
      ∙ watch-read_bytes rd rs r.buf r.lines (read_bytes-IsOpen rd bs cur lines h e))
    ∙ sym (read_bytes-append rd bs (received rs) cur lines)

-- What `serial_monitor` answers depends only on the bytes that came, not on how they were cut into pieces or
-- on pauses between them, where the slot has a monitor port and a proxy: the lines and the match are those of
-- reading the bytes one by one up to the first line that matches, empty lines left out, and a last line without
-- its newline is not among them. The slot is left `idle`, or `absent` without its device.
pub serial_monitor-read_bytes :
    (rd : Reader) (rs : List Recv) (s : Slot) (port : ℕ)
    → s.monitor_port ≡ some port
    → (port == 0) ≡ false
    → s.running ≡ true
    → let r = read_bytes rd (received rs) [] [] in
      serial_monitor rd (answers rs) s ≡ (record s { state = settled s }, watched r.matched r.lines)
unfolding serial_monitor on_port attached
serial_monitor-read_bytes rd rs s port e some_ runs =
    let seen = watch-read_bytes rd rs [] [] tt in
    let none_ : Slot × MonitorReply =
      (s, refused (texts (s.label ∷ ": no monitor port configured" ∷ []))) in
    let down : Slot × MonitorReply = (s, refused (texts (s.label ∷ ": proxy not running" ∷ []))) in
    let reads = attached rd port (answers rs) s in
    ap (λ p. on_port rd (answers rs) p s) e
    ∙ if_false (port == 0) none_ (if not s.running then down else reads) some_
    ∙ if_false (not s.running) down reads (ap not runs)
    ∙ ap (λ v. (record s { state = settled s }, watched v.1 v.0)) seen
