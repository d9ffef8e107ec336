-- ===== src/Sniffer.antt =====
-- pi/sniffer.py: the host name in a TLS ClientHello (`_extract_sni`). Bytes
-- are numbers; the position in the payload is the list of the bytes from there on.
pub mod Sni
pub mod Traffic
use embedded_ai_harness.Prelude.{
  ℕ, zero, suc, ◌+◌, ◌-◌, ◌*◌, Bool, true, false, ◌&&◌, Option, none, some, List, [], ◌∷◌, leb, ltb,
  if◌then◌else◌, ◌==◌, length, map, drop,
}

-- `payload[:n]`
pub take : ℕ → List ℕ → List ℕ
take zero xs = []
take (suc n) [] = []
take (suc n) (x ∷ xs) = x ∷ take n xs

-- `struct.unpack("!H", _)`
abbrev pub u16 : ℕ → ℕ → ℕ
u16 a b = a * 256 + b

-- decode("ascii", errors="replace"), as code points
abbrev pub ascii : ℕ → ℕ
ascii b = if ltb b 128 then b else 65_533

-- The name in the SNI extension, from its data on.
pub server_name : List ℕ → Option (List ℕ)
unfolding take
server_name (l ∷ m ∷ name_type ∷ a ∷ b ∷ rest) =
    if (name_type == 0) && leb (u16 a b) (length rest)
    then some (map ascii (take (u16 a b) rest))
    else none
server_name xs = none

-- The loop over the extensions, for at most `fuel` rounds; `left` is `ext_end - pos`.
pub extensions : ℕ → ℕ → List ℕ → Option (List ℕ)
unfolding server_name
extensions zero left xs = none
extensions (suc fuel) left (a ∷ b ∷ c ∷ d ∷ rest) =
    let later = extensions fuel (left - (4 + u16 c d)) (drop (u16 c d) rest) in
    if leb 4 left then (if u16 a b == 0 then server_name rest else later) else none
extensions (suc fuel) left xs = none

-- From the length of the extensions on; a round reads at least four bytes.
pub after_compression : List ℕ → Option (List ℕ)
unfolding extensions
after_compression (a ∷ b ∷ rest) = extensions (length rest) (u16 a b) rest
after_compression xs = none

-- From the compression methods on, from the cipher suites on, and from the session ID on.
pub after_ciphers : List ℕ → Option (List ℕ)
unfolding after_compression
after_ciphers [] = none
after_ciphers (n ∷ rest) = after_compression (drop n rest)

pub after_session : List ℕ → Option (List ℕ)
unfolding after_ciphers
after_session (a ∷ b ∷ rest) = after_ciphers (drop (u16 a b) rest)
after_session xs = none

pub after_random : List ℕ → Option (List ℕ)
unfolding after_session
after_random [] = none
after_random (n ∷ rest) = after_session (drop n rest)

-- From the handshake header on: its type, three bytes of length, the version and the random bytes.
pub handshake : List ℕ → Option (List ℕ)
unfolding after_random
handshake [] = none
handshake (t ∷ rest) = if t == 1 then after_random (drop 37 rest) else none

pub extract_sni : List ℕ → Option (List ℕ)
unfolding handshake
extract_sni (t ∷ a ∷ b ∷ c ∷ d ∷ rest) = if t == 22 then handshake rest else none
extract_sni xs = none
