-- ===== src/Proxy/Stream.antt =====
-- pi/serial_proxy.py: a client's stream of data and commands, and what the proxy makes of it.
use embedded_ai_harness.Prelude.{
  ℕ, ◌≡◌, ◌≢◌, some, List, [], ◌∷◌, ◌++◌, if◌then◌else◌, ◌==◌, arith, refl, ap, ◌∙◌, All,
  Option-cases, inl, inr, Bool-cases, ==_iff,
}
use embedded_ai_harness.Proxy.{
  Event, send_will, send_do, option, find_se, Round, subnegotiated, subnegotiation, negotiation,
  command, round, handle_rfc2217,
}
use embedded_ai_harness.Proxy.Rounds.{handle-round, handle-empty}

-- What a client sends: data, an option with its data, DO or WILL COM-PORT-OPTION.
pub data Item : Type 0 where
  chars : List ℕ → Item
  set_option : ℕ → List ℕ → Item
  ask_do : Item
  ask_will : Item

-- RFC 2217's encoding: in data an IAC is doubled.
escape : List ℕ → List ℕ
escape [] = []
escape (b ∷ rest) = let more = escape rest in if b == 255 then 255 ∷ 255 ∷ more else b ∷ more

pub encode : List Item → List ℕ
encode [] = []
encode (chars bs ∷ rest) = escape bs ++ encode rest
encode (set_option c p ∷ rest) = 255 ∷ 250 ∷ 44 ∷ c ∷ p ++ 255 ∷ 240 ∷ encode rest
encode (ask_do ∷ rest) = 255 ∷ 253 ∷ 44 ∷ encode rest
encode (ask_will ∷ rest) = 255 ∷ 251 ∷ 44 ∷ encode rest

pub data_of : List Item → List ℕ
data_of [] = []
data_of (chars bs ∷ rest) = bs ++ data_of rest
data_of (_ ∷ rest) = data_of rest

pub events_of : List Item → List Event
events_of [] = []
events_of (chars bs ∷ rest) = events_of rest
events_of (set_option c p ∷ rest) = option c p ∷ events_of rest
events_of (ask_do ∷ rest) = send_will ∷ events_of rest
events_of (ask_will ∷ rest) = send_do ∷ events_of rest

-- No byte of an option is an IAC.
abbrev pub IsPlain : Item → Type 0
IsPlain (set_option c p) = (c ≢ 255) × All (λ b. b ≢ 255) p
IsPlain _ = Unit

find_se-plain :
    (p rest : List ℕ) → All (λ b. b ≢ 255) p → find_se (p ++ 255 ∷ 240 ∷ rest) ≡ some (p, rest)
unfolding find_se
find_se-plain [] rest h = elim (Option-cases (find_se (240 ∷ rest))) [
  | inl e ↦ ground (arith, e)
  | inr (f, e) ↦ ground (arith, e)
]
find_se-plain (a ∷ []) rest h = ground (arith, find_se-plain [] rest tt)
find_se-plain (a ∷ b ∷ p) rest h = ground (arith, find_se-plain (b ∷ p) rest h.1)

-- A call whose first round is known.
handle-first :
    (b : ℕ) (t : List ℕ) (r : Round)
    → round b t ≡ r
    → handle_rfc2217 (b ∷ t)
      ≡ (r.out ++ (handle_rfc2217 r.rest).0, r.events ++ (handle_rfc2217 r.rest).1)
handle-first b t r e =
    handle-round b t
    ∙ ap (λ q. (q.out ++ (handle_rfc2217 q.rest).0, q.events ++ (handle_rfc2217 q.rest).1)) e

round-byte :
    (b : ℕ) (t : List ℕ) → b ≢ 255 → round b t ≡ record { out = b ∷ []; events = []; rest = t }
unfolding round
round-byte b [] h = refl
round-byte b (c ∷ t) h = ground arith

round-iac : (t : List ℕ) → round 255 (255 ∷ t) ≡ record { out = 255 ∷ []; events = []; rest = t }
unfolding round command
round-iac t = refl

round-option :
    (c : ℕ) (p rest : List ℕ)
    → c ≢ 255
    → All (λ b. b ≢ 255) p
    → round 255 (250 ∷ 44 ∷ c ∷ p ++ 255 ∷ 240 ∷ rest)
      ≡ record { out = []; events = option c p ∷ []; rest = rest }
unfolding round command subnegotiation subnegotiated
round-option c p rest h k = rw (find_se-plain (c ∷ p) rest (h, k)) refl

round-ask :
    (rest : List ℕ)
    → (round 255 (253 ∷ 44 ∷ rest) ≡ record { out = []; events = send_will ∷ []; rest = rest })
      × (round 255 (251 ∷ 44 ∷ rest) ≡ record { out = []; events = send_do ∷ []; rest = rest })
unfolding round command negotiation
round-ask rest = (refl, refl)

handle-escape :
    (bs rest : List ℕ)
    → handle_rfc2217 (escape bs ++ rest) ≡ (bs ++ (handle_rfc2217 rest).0, (handle_rfc2217 rest).1)
unfolding escape
handle-escape [] rest = refl
handle-escape (b ∷ bs) rest = elim (Bool-cases (b == 255)) [
  | inl e ↦
      let same = (==_iff b 255).0 e in
      rw
        (
          escape,
          e,
          handle-first 255 _ _ (round-iac (escape bs ++ rest)),
          handle-escape bs rest,
          same,
        )
        refl
  | inr e ↦
      rw
        (
          escape,
          e,
          handle-first b _ _ (round-byte b (escape bs ++ rest) (ground (arith, ==_iff b 255))),
          handle-escape bs rest,
        )
        refl
]

-- Whatever a client sends in one piece that is made of data with every IAC doubled, of COM-PORT options in
-- their subnegotiations, and of the offers DO and WILL of COM-PORT, in any order: the serial port gets
-- exactly the data, and the options and offers are understood one by one. Where no byte of an option is
-- an IAC.
pub handle-encode :
    (items : List Item)
    → All IsPlain items
    → handle_rfc2217 (encode items) ≡ (data_of items, events_of items)
unfolding encode data_of events_of
handle-encode [] h = handle-empty
handle-encode (chars bs ∷ rest) h = rw (handle-escape bs (encode rest), handle-encode rest h.1) refl
handle-encode (set_option c p ∷ rest) h =
    rw (handle-first 255 _ _ (round-option c p (encode rest) h.0.0 h.0.1), handle-encode rest h.1)
      refl
handle-encode (ask_do ∷ rest) h =
    rw (handle-first 255 _ _ (round-ask (encode rest)).0, handle-encode rest h.1) refl
handle-encode (ask_will ∷ rest) h =
    rw (handle-first 255 _ _ (round-ask (encode rest)).1, handle-encode rest h.1) refl
