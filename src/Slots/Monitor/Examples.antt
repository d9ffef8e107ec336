-- ===== src/Slots/Monitor/Examples.antt =====
-- pi/portal.py: `serial_monitor` at concrete inputs.
use embedded_ai_harness.Prelude.{
  true, some, List, [], ◌∷◌, ◌≡◌, refl, ◌==◌, length, str_eq, if◌then◌else◌,
}
use embedded_ai_harness.Slots.{Slot, sample_slot, idle}
use embedded_ai_harness.Slots.Monitor.{
  Recv, piece, paused, closed, Reader, watched, answers, serial_monitor, watch, with_line, drain,
  drain_cut, cut_line, begin_with, is_some, nothing_yet,
}
use embedded_ai_harness.Slots.Monitor.Bytes.{read_bytes, received}
use embedded_ai_harness.Slots.Monitor.Pieces.{serial_monitor-read_bytes}

-- Texts by their lengths.
abbrev reader : Reader
reader = record {
  text_of = λ bs. if length bs == 0 then "" else if length bs == 2 then "ok" else "boot";
  is_match = λ t. str_eq t "ok";
}

abbrev output : List Recv
output =
    piece (98 ∷ 111 ∷ [])
    ∷ paused
    ∷ piece (111 ∷ 116 ∷ 10 ∷ 10 ∷ 111 ∷ [])
    ∷ piece (107 ∷ 10 ∷ 33 ∷ [])
    ∷ closed
    ∷ []

watch-output :
    let w = watch reader output nothing_yet in
    (w.lines ≡ "boot" ∷ "ok" ∷ []) × (w.matched ≡ some "ok")
unfolding watch drain drain_cut cut_line begin_with with_line is_some
watch-output = (refl, refl)

abbrev running_slot : Slot
running_slot = record sample_slot { present = true; running = true; monitor_port = some 5001 }

serial_monitor-read_bytes_example :
    let r = read_bytes reader (received output) [] [] in
    serial_monitor reader (answers output) running_slot
    ≡ (record running_slot { state = idle }, watched r.matched r.lines)
serial_monitor-read_bytes_example =
    serial_monitor-read_bytes reader output running_slot 5001 refl refl refl
