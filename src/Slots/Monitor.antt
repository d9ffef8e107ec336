-- ===== src/Slots/Monitor.antt =====
-- pi/portal.py: `serial_monitor`, which reads a slot's serial output from the proxy's monitor port until a line
-- holds the pattern. What each `recv` returns before the deadline is a list; the text of a line, decoded and
-- stripped of its carriage return, and whether it holds the pattern are parameters.
pub mod Bytes
pub mod Pieces
mod Examples
use embedded_ai_harness.Prelude.{
  ℕ, zero, suc, String, Bool, true, false, not, ◌||◌, Option, none, some, List, [], ◌∷◌, ◌++◌,
  if◌then◌else◌, ◌==◌, length, str_eq,
}
use embedded_ai_harness.Slots.{Slot, SlotState, monitoring}
use embedded_ai_harness.Slots.Usb.{texts}
use embedded_ai_harness.Slots.Hotplug.{settled}
use embedded_ai_harness.Slots.Services.{number}

-- An answer of `recv`; a piece is not empty.
pub data Recv : Type 0 where
  piece : List ℕ → Recv
  paused : Recv
  failed : Recv
  closed : Recv

pub record Reader : Type 0 where
  pub text_of : List ℕ → String
  -- `pattern and pattern in text`
  pub is_match : String → Bool

pub record Watch : Type 0 where
  pub lines : List String
  pub matched : Option String
  pub buf : List ℕ

abbrev pub Cut : Type 0
Cut = Option (List ℕ × List ℕ)

pub begin_with : ℕ → Cut → Cut
begin_with b none = none
begin_with b (some (raw, rest)) = some (b ∷ raw, rest)

-- `buf.split(b"\n", 1)`, where there is a newline.
pub cut_line : List ℕ → Cut
unfolding begin_with
cut_line [] = none
cut_line (b ∷ bs) = if b == 10 then some ([], bs) else begin_with b (cut_line bs)

-- A line that has been cut off, with what follows it in the buffer.
pub with_line : Reader → List ℕ → List ℕ → List String → Watch
with_line rd raw rest lines =
    let text = rd.text_of raw in
    let more = if str_eq text "" then lines else lines ++ text ∷ [] in
    record {
      lines = more;
      matched = if str_eq text "" then none else if rd.is_match text then some text else none;
      buf = rest;
    }

pub is_some : Option String → Bool
is_some none = false
is_some (some t) = true

-- A round of the loop over the lines in the buffer, with what goes on after it.
pub drain_cut : Reader → (Watch → Watch) → Watch → Cut → Watch
unfolding with_line is_some
drain_cut rd go_on w none = w
drain_cut rd go_on w (some (raw, rest)) =
    let w' = with_line rd raw rest w.lines in if is_some w'.matched then w' else go_on w'

pub drain : Reader → ℕ → Watch → Watch
unfolding drain_cut cut_line
drain rd zero w = w
drain rd (suc n) w = drain_cut rd (drain rd n) w (cut_line w.buf)

-- The loop over the answers, which the deadline ends.
pub watch : Reader → List Recv → Watch → Watch
unfolding drain is_some
watch rd [] w = w
watch rd (paused ∷ rs) w = watch rd rs w
watch rd (failed ∷ rs) w = w
watch rd (closed ∷ rs) w = w
watch rd (piece bs ∷ rs) w =
    let all = w.buf ++ bs in
    let w' = drain rd (length all) (record w { buf = all }) in
    let rest = watch rd rs w' in if is_some w'.matched then w' else rest

pub data MonitorReply : Type 0 where
  refused : String → MonitorReply
  -- the line that matched, and the lines
  watched : Option String → List String → MonitorReply

abbrev pub nothing_yet : Watch
nothing_yet = record { lines = []; matched = none; buf = [] }

-- The connection to the monitor port, or the error's text.
pub data Connection : Type 0 where
  unreachable : String → Connection
  answers : List Recv → Connection

attached : Reader → ℕ → Connection → Slot → Slot × MonitorReply
unfolding watch
attached rd port (unreachable e) s =
    (s, refused (texts ("Cannot connect to monitor port " ∷ number port ∷ ": " ∷ e ∷ [])))
attached rd port (answers rs) s =
    let w = watch rd rs nothing_yet in
    let s1 : Slot = record s { state = monitoring } in
    (record s1 { state = settled s1 }, watched w.matched w.lines)

on_port : Reader → Connection → Option ℕ → Slot → Slot × MonitorReply
unfolding attached
on_port rd c none s = (s, refused (texts (s.label ∷ ": no monitor port configured" ∷ [])))
on_port rd c (some port) s =
    if port == 0
    then (s, refused (texts (s.label ∷ ": no monitor port configured" ∷ [])))
    else if not s.running
    then (s, refused (texts (s.label ∷ ": proxy not running" ∷ [])))
    else attached rd port c s

pub serial_monitor : Reader → Connection → Slot → Slot × MonitorReply
unfolding on_port
serial_monitor rd c s = on_port rd c s.monitor_port s
