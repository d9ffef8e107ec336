-- ===== src/Proxy/Examples.antt =====
-- pi/serial_proxy.py: a client that asks for a rate and for break, and sends a byte 255.
use embedded_ai_harness.Prelude.{ℕ, ◌≡◌, [], ◌∷◌, true, false, refl, arith, inl, List}
use embedded_ai_harness.Proxy.{handle_rfc2217}
use embedded_ai_harness.Proxy.Stream.{
  Item, chars, set_option, ask_do, encode, data_of, events_of, handle-encode,
}
use embedded_ai_harness.Proxy.Settings.{Settings, no_parity, from_client}
use embedded_ai_harness.Proxy.Settings.Options.{IsSane, IsBytes}
use embedded_ai_harness.Proxy.Settings.Safety.{from_client-IsSane}

abbrev port : Settings
port = record {
  baudrate = 115_200;
  bytesize = 8;
  parity = no_parity;
  stop_halves = 2;
  dtr = true;
  rts = false;
}

port-IsSane : IsSane port
port-IsSane = record {
  rate = omega arith;
  rate_fits = omega arith;
  size_low = omega arith;
  size_high = omega arith;
  stop = inl refl;
}

abbrev sent : List Item
sent = ask_do ∷ chars (65 ∷ 255 ∷ 240 ∷ []) ∷ set_option 5 (5 ∷ []) ∷ chars (66 ∷ []) ∷ []

handle-encode_example : handle_rfc2217 (encode sent) ≡ (data_of sent, events_of sent)
handle-encode_example = handle-encode sent (tt, (tt, ((omega arith, (omega arith, tt)), (tt, tt))))

abbrev size_9 : List ℕ
size_9 = 255 ∷ 250 ∷ 44 ∷ 2 ∷ 9 ∷ 255 ∷ 240 ∷ []

size_9-IsBytes : IsBytes size_9
size_9-IsBytes = (
  omega arith,
  (omega arith, (omega arith, (omega arith, (omega arith, (omega arith, (omega arith, tt)))))),
)

from_client-IsSane_example : IsSane (from_client size_9 port).1
from_client-IsSane_example = from_client-IsSane size_9 port size_9-IsBytes port-IsSane
