-- ===== src/Proxy/Settings.antt =====
-- pi/serial_proxy.py: what the proxy does with a COM-PORT-OPTION, and what it answers.
pub mod Options
pub mod Safety
use embedded_ai_harness.Prelude.{
  ℕ, ◌+◌, ◌*◌, ◌/◌, ◌%◌, Bool, true, false, not, ◌&&◌, Option, none, some, List, [], ◌∷◌, ◌++◌, leb,
  if◌then◌else◌, ◌==◌,
}
use embedded_ai_harness.Proxy.{Event, send_will, send_do, option, com_port_option, handle_rfc2217}

pub data Parity : Type 0 where
  no_parity odd even mark space : Parity

-- Stop bits in halves: 2, 3 or 4.
pub record Settings : Type 0 where
  pub baudrate : ℕ
  pub bytesize : ℕ
  pub parity : Parity
  pub stop_halves : ℕ
  pub dtr : Bool
  pub rts : Bool

-- `parity_map` and `parity_rmap`
parity_of : ℕ → Parity
parity_of n =
    if n == 2
    then odd
    else if n == 3
    then even
    else if n == 4
    then mark
    else if n == 5
    then space
    else no_parity

parity_code : Parity → ℕ
parity_code no_parity = 1
parity_code odd = 2
parity_code even = 3
parity_code mark = 4
parity_code space = 5

-- `stopbits_map`
pub stop_halves_of : ℕ → ℕ
stop_halves_of n = if n == 2 then 4 else if n == 3 then 3 else 2

-- `stopbits_rmap.get(int(stopbits), 1)`: one and a half is cut to one.
stop_code : ℕ → ℕ
stop_code halves = if halves / 2 == 2 then 2 else 1

-- `int.from_bytes(_, 'big')` of four bytes, and `to_bytes(4, 'big')`
pub from_bytes : ℕ → ℕ → ℕ → ℕ → ℕ
from_bytes a b c d = a * 16777216 + b * 65536 + c * 256 + d

pub to_bytes : ℕ → List ℕ
to_bytes n = n / 16777216 % 256 ∷ n / 65536 % 256 ∷ n / 256 % 256 ∷ n % 256 ∷ []

-- `data if data else bytes([0])`
abbrev or_zero : List ℕ → List ℕ
or_zero [] = 0 ∷ []
or_zero (b ∷ bs) = b ∷ bs

pub set_baudrate : ℕ → Settings → Settings
set_baudrate n s = if n == 0 then s else record s { baudrate = n }

pub set_datasize : ℕ → Settings → Settings
set_datasize n s = if leb 5 n && leb n 8 then record s { bytesize = n } else s

pub set_control : ℕ → Settings → Settings
set_control n s =
    if n == 8
    then record s { dtr = true }
    else if n == 9
    then record s { dtr = false }
    else if n == 11
    then record s { rts = true }
    else if n == 12
    then record s { rts = false }
    else s

-- The branches of `_handle_com_port_option`: the settings, and the data of the answer. An option with
-- too few bytes is answered like one that is not known.
pub on_baudrate : List ℕ → Settings → Settings × List ℕ
unfolding set_baudrate
on_baudrate (a ∷ b ∷ c ∷ d ∷ rest) s =
    let s' = set_baudrate (from_bytes a b c d) s in (s', to_bytes s'.baudrate)
on_baudrate bytes s = (s, or_zero bytes)

pub on_datasize : List ℕ → Settings → Settings × List ℕ
unfolding set_datasize
on_datasize [] s = (s, 0 ∷ [])
on_datasize (n ∷ rest) s = let s' = set_datasize n s in (s', s'.bytesize ∷ [])

pub on_parity : List ℕ → Settings → Settings × List ℕ
on_parity [] s = (s, 0 ∷ [])
on_parity (n ∷ rest) s = let p = parity_of n in (record s { parity = p }, parity_code p ∷ [])

pub on_stopsize : List ℕ → Settings → Settings × List ℕ
on_stopsize [] s = (s, 0 ∷ [])
on_stopsize (n ∷ rest) s =
    let h = stop_halves_of n in (record s { stop_halves = h }, stop_code h ∷ [])

pub on_control : List ℕ → Settings → Settings × List ℕ
unfolding set_control
on_control [] s = (s, 0 ∷ [])
on_control (n ∷ rest) s = (set_control n s, n ∷ [])

pub apply : ℕ → List ℕ → Settings → Settings × List ℕ
unfolding on_baudrate on_datasize on_parity on_stopsize on_control
apply subcmd bytes s =
    if subcmd == 1
    then on_baudrate bytes s
    else if subcmd == 2
    then on_datasize bytes s
    else if subcmd == 3
    then on_parity bytes s
    else if subcmd == 4
    then on_stopsize bytes s
    else if subcmd == 5
    then on_control bytes s
    else (s, or_zero bytes)

-- `_send_com_port_option`; a code that is no byte raises, and nothing is sent.
pub com_port_message : ℕ → List ℕ → List (List ℕ)
com_port_message code bytes =
    if leb code 255 then (255 ∷ 250 ∷ com_port_option ∷ code ∷ bytes ++ 255 ∷ 240 ∷ []) ∷ [] else []

-- `_handle_com_port_option`, and the answers to DO and WILL: the settings, and the messages sent.
pub answer : Event → Settings → Settings × List (List ℕ)
answer send_will s = (s, (255 ∷ 251 ∷ com_port_option ∷ []) ∷ [])
answer send_do s = (s, (255 ∷ 253 ∷ com_port_option ∷ []) ∷ [])
answer (option subcmd bytes) s =
    let (s', reply) = apply subcmd bytes s in (s', com_port_message (subcmd + 100) reply)

pub answer_all : List Event → Settings → Settings × List (List ℕ)
answer_all [] s = (s, [])
answer_all (e ∷ rest) s =
    let (s1, sent) = answer e s in let (s2, later) = answer_all rest s1 in (s2, sent ++ later)

-- What the main loop does with a piece of data from the client: the bytes written to the serial port,
-- the settings, and the messages to the client.
pub from_client : List ℕ → Settings → List ℕ × Settings × List (List ℕ)
from_client data_in s =
    let (raw, events) = handle_rfc2217 data_in in
    let (s', sent) = answer_all events s in (raw, s', sent)
