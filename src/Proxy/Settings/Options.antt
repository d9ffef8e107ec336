-- ===== src/Proxy/Settings/Options.antt =====
-- pi/serial_proxy.py: the settings that options can lead to, and what is acknowledged.
use embedded_ai_harness.Prelude.{
  ℕ, ◌/◌, ◌%◌, ◌≤◌, ◌<◌, ◌≡◌, List, [], ◌∷◌, if◌then◌else◌, ◌==◌, arith, if-either, All, ◌⊎◌,
}
use embedded_ai_harness.Proxy.{Event, send_will, send_do, option}
use embedded_ai_harness.Proxy.Settings.{
  Settings, from_bytes, to_bytes, apply, answer, set_baudrate, set_datasize, set_control,
  on_baudrate, on_datasize, on_parity, on_stopsize, on_control, com_port_message, stop_halves_of,
}

-- What a port can be set to: a rate above 0 that four bytes hold, 5 to 8 data bits, and 1, 1.5 or 2 stop bits.
pub record IsSane (s : Settings) : Type 0 where
  pub rate : 0 < s.baudrate
  pub rate_fits : s.baudrate < 4_294_967_296
  pub size_low : 5 ≤ s.bytesize
  pub size_high : s.bytesize ≤ 8
  pub stop : (s.stop_halves ≡ 2) ⊎ ((s.stop_halves ≡ 3) ⊎ (s.stop_halves ≡ 4))

abbrev pub IsBytes : List ℕ → Type 0
IsBytes = All (λ b. b < 256)

abbrev pub IsByteEvent : Event → Type 0
IsByteEvent (option subcmd bytes) = IsBytes bytes
IsByteEvent _ = Unit

-- Four bytes, written and read again.
from-to_bytes :
    (n : ℕ)
    → n < 4_294_967_296
    → from_bytes (n / 16777216 % 256) (n / 65536 % 256) (n / 256 % 256) (n % 256) ≡ n
unfolding from_bytes
from-to_bytes n h = omega arith

on_baudrate-IsSane :
    (bytes : List ℕ) (s : Settings) → IsBytes bytes → IsSane s → IsSane (on_baudrate bytes s).0
unfolding on_baudrate from_bytes set_baudrate
on_baudrate-IsSane [] s h k = k
on_baudrate-IsSane (a ∷ []) s h k = k
on_baudrate-IsSane (a ∷ b ∷ []) s h k = k
on_baudrate-IsSane (a ∷ b ∷ c ∷ []) s h k = k
on_baudrate-IsSane (a ∷ b ∷ c ∷ d ∷ rest) s h k = ground arith

on_datasize-IsSane : (bytes : List ℕ) (s : Settings) → IsSane s → IsSane (on_datasize bytes s).0
unfolding on_datasize set_datasize
on_datasize-IsSane [] s k = k
on_datasize-IsSane (n ∷ rest) s k = ground arith

on_stopsize-IsSane : (bytes : List ℕ) (s : Settings) → IsSane s → IsSane (on_stopsize bytes s).0
unfolding on_stopsize stop_halves_of
on_stopsize-IsSane [] s k = k
on_stopsize-IsSane (n ∷ rest) s k = ground arith

on_parity-IsSane : (bytes : List ℕ) (s : Settings) → IsSane s → IsSane (on_parity bytes s).0
unfolding on_parity
on_parity-IsSane [] s k = k
on_parity-IsSane (n ∷ rest) s k = ground arith

on_control-IsSane : (bytes : List ℕ) (s : Settings) → IsSane s → IsSane (on_control bytes s).0
unfolding on_control set_control
on_control-IsSane [] s k = k
on_control-IsSane (n ∷ rest) s k = ground arith

apply-IsSane :
    (subcmd : ℕ) (bytes : List ℕ) (s : Settings)
    → IsBytes bytes
    → IsSane s
    → IsSane (apply subcmd bytes s).0
unfolding apply
apply-IsSane subcmd bytes s h k =
    let P : Settings × List ℕ → Type 0 = λ r. IsSane r.0 in
    if-either P (subcmd == 1) _ _ (on_baudrate-IsSane bytes s h k) (
      if-either P (subcmd == 2) _ _ (on_datasize-IsSane bytes s k) (
        if-either P (subcmd == 3) _ _ (on_parity-IsSane bytes s k) (
          if-either P (subcmd == 4) _ _ (on_stopsize-IsSane bytes s k)
            (if-either P (subcmd == 5) _ _ (on_control-IsSane bytes s k) k))))

pub answer-IsSane : (e : Event) (s : Settings) → IsByteEvent e → IsSane s → IsSane (answer e s).0
unfolding answer
answer-IsSane send_will s h k = k
answer-IsSane send_do s h k = k
answer-IsSane (option subcmd bytes) s h k = apply-IsSane subcmd bytes s h k

-- A rate that a client asks for with its four bytes is set, and acknowledged with the same bytes; a rate
-- of 0 changes nothing, and is answered with the rate that is set.
answer-baudrate :
    (n : ℕ) (s : Settings)
    → n < 4_294_967_296
    → answer (option 1 (to_bytes n)) s ≡ (
        if n == 0
        then (s, com_port_message 101 (to_bytes s.baudrate))
        else (record s { baudrate = n }, com_port_message 101 (to_bytes n)))
unfolding answer apply on_baudrate set_baudrate to_bytes com_port_message
answer-baudrate n s h = rw (from-to_bytes n h) (ground arith)
