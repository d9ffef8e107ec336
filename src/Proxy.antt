-- ===== src/Proxy.antt =====
-- pi/serial_proxy.py: the RFC 2217 side of the serial proxy. Bytes are numbers. A call reads what one
-- `recv` returned; what it writes to the serial port, sends to the client and sets on the port are
-- values. The port takes every setting that is made, and the client's socket takes every message.
pub mod Settings
pub mod Rounds
pub mod Stream
mod Examples
use embedded_ai_harness.Prelude.{
  ℕ, zero, suc, ◌+◌, ◌*◌, ◌/◌, ◌%◌, Bool, true, false, not, ◌&&◌, ◌||◌, Option, none, some, List,
  [], ◌∷◌, ◌++◌, leb, ltb, if◌then◌else◌, ◌==◌, length,
}

abbrev iac : ℕ
iac = 255

abbrev pub com_port_option : ℕ
com_port_option = 44

-- What a command of the client asks for: an answer to DO or WILL COM-PORT-OPTION, or a subnegotiation
-- with its command and its data.
pub data Event : Type 0 where
  send_will : Event
  send_do : Event
  option : ℕ → List ℕ → Event

-- Whether IAC SE stands here, else what was found further on.
pub extended : Bool → ℕ → List ℕ → Option (List ℕ × List ℕ) → Option (List ℕ × List ℕ)
extended true a rest found = some ([], rest)
extended false a rest none = none
extended false a rest (some (before, after)) = some (a ∷ before, after)

-- The two bytes IAC SE, if they stand in the list: what comes before them and after them.
pub find_se : List ℕ → Option (List ℕ × List ℕ)
unfolding extended
find_se [] = none
find_se (a ∷ []) = none
find_se (a ∷ b ∷ rest) = extended ((a == iac) && (b == 240)) a rest (find_se (b ∷ rest))

-- One round of the loop: the bytes for the serial port, the events, and what is left to read.
pub record Round : Type 0 where
  pub out : List ℕ
  pub events : List Event
  pub rest : List ℕ

abbrev pub skipped : List ℕ → Round
skipped rest = record { out = []; events = []; rest = rest }

-- The subnegotiation between its head and IAC SE; without a byte there its command is 0.
abbrev option_of : List ℕ → Event
option_of [] = option 0 []
option_of (subcmd ∷ subdata) = option subcmd subdata

-- After IAC SB COM-PORT-OPTION: `body` is what follows, where no IAC SE was found it is read as data.
pub subnegotiated : List ℕ → Option (List ℕ × List ℕ) → Round
subnegotiated body none = skipped (com_port_option ∷ body)
subnegotiated body (some (before, after)) = record {
  out = [];
  events = option_of before ∷ [];
  rest = after;
}

-- After IAC SB
pub subnegotiation : List ℕ → Round
unfolding subnegotiated
subnegotiation [] = skipped []
subnegotiation (o ∷ body) =
    if o == com_port_option then subnegotiated body (find_se body) else skipped (o ∷ body)

-- After IAC and DO, DONT, WILL or WONT
pub negotiation : ℕ → List ℕ → Round
negotiation cmd [] = skipped []
negotiation cmd (opt ∷ rest) =
    if (cmd == 253) && (opt == com_port_option)
    then record { out = []; events = send_will ∷ []; rest = rest }
    else if (cmd == 251) && (opt == com_port_option)
    then record { out = []; events = send_do ∷ []; rest = rest }
    else skipped rest

-- After IAC
pub command : ℕ → List ℕ → Round
unfolding subnegotiation negotiation
command cmd rest =
    if cmd == iac
    then record { out = iac ∷ []; events = []; rest = rest }
    else if cmd == 250
    then subnegotiation rest
    else if leb 251 cmd && leb cmd 254
    then negotiation cmd rest
    else skipped rest

-- A byte that is not IAC, or an IAC at the end, is data.
pub round : ℕ → List ℕ → Round
unfolding command
round b [] = record { out = b ∷ []; events = []; rest = [] }
round b (cmd ∷ rest) =
    if b == iac then command cmd rest else record { out = b ∷ []; events = []; rest = cmd ∷ rest }

-- The loop, for at most as many rounds as the first argument says.
pub rounds : ℕ → List ℕ → List ℕ × List Event
rounds zero data_in = ([], [])
rounds (suc n) [] = ([], [])
rounds (suc n) (b ∷ t) =
    let r = round b t in let (out, events) = rounds n r.rest in (r.out ++ out, r.events ++ events)

-- Every round reads a byte, so that there are no more rounds than bytes.
pub handle_rfc2217 : List ℕ → List ℕ × List Event
handle_rfc2217 data_in = rounds (length data_in) data_in
