-- ===== src/Proxy/Settings/Safety.antt =====
-- pi/serial_proxy.py: whatever bytes a client sends, the port's settings stay ones that it can have.
use embedded_ai_harness.Prelude.{
  ℕ, zero, suc, ◌<◌, ◌≡◌, Bool, true, false, ◌&&◌, Option, none, some, List, [], ◌∷◌, leb, ◌==◌,
  length, arith, refl, some-injective, subst, if-either, All, All-append,
}
use embedded_ai_harness.Proxy.{
  Event, find_se, extended, Round, subnegotiated, subnegotiation, negotiation, command, round,
  rounds, handle_rfc2217,
}
use embedded_ai_harness.Proxy.Settings.{Settings, answer, answer_all, from_client}
use embedded_ai_harness.Proxy.Settings.Options.{IsSane, IsBytes, IsByteEvent, answer-IsSane}

extended-IsBytes :
    (c : Bool) (a : ℕ) (rest : List ℕ) (o : Option (List ℕ × List ℕ)) (f : List ℕ × List ℕ)
    → a < 256
    → IsBytes rest
    → ((g : List ℕ × List ℕ) → o ≡ some g → IsBytes g.0 × IsBytes g.1)
    → extended c a rest o ≡ some f
    → IsBytes f.0 × IsBytes f.1
unfolding extended
extended-IsBytes true a rest o f h k l e =
    subst (λ f. IsBytes f.0 × IsBytes f.1) (some-injective _ _ e) (tt, k)
extended-IsBytes false a rest none f h k l e = ground (arith, e)
extended-IsBytes false a rest (some g) f h k l e =
    let (before, after) = l g refl in
    subst (λ f. IsBytes f.0 × IsBytes f.1) (some-injective _ _ e) ((h, before), after)

find_se-IsBytes :
    (xs : List ℕ) (f : List ℕ × List ℕ)
    → IsBytes xs
    → find_se xs ≡ some f
    → IsBytes f.0 × IsBytes f.1
unfolding find_se
find_se-IsBytes [] f h e = ground arith
find_se-IsBytes (a ∷ []) f h e = ground arith
find_se-IsBytes (a ∷ b ∷ rest) f h e =
    extended-IsBytes ((a == 255) && (b == 240)) a rest (find_se (b ∷ rest)) f h.0 h.1.1
      (λ g s. find_se-IsBytes (b ∷ rest) g h.1 s) e

-- A round that reads bytes leaves bytes, and its options hold bytes.
abbrev IsByteRound : Round → Type 0
IsByteRound r = All IsByteEvent r.events × IsBytes r.rest

subnegotiated-IsBytes :
    (body : List ℕ) (f : Option (List ℕ × List ℕ))
    → IsBytes body
    → ((g : List ℕ × List ℕ) → f ≡ some g → IsBytes g.0 × IsBytes g.1)
    → IsByteRound (subnegotiated body f)
unfolding subnegotiated
subnegotiated-IsBytes body none h l = (tt, (omega arith, h))
subnegotiated-IsBytes body (some ([], after)) h l = ((tt, tt), (l ([], after) refl).1)
subnegotiated-IsBytes body (some (c ∷ before, after)) h l =
    let (b, a) = l (c ∷ before, after) refl in ((b.1, tt), a)

subnegotiation-IsBytes : (xs : List ℕ) → IsBytes xs → IsByteRound (subnegotiation xs)
unfolding subnegotiation
subnegotiation-IsBytes [] h = (tt, tt)
subnegotiation-IsBytes (o ∷ body) h =
    if-either IsByteRound (o == 44) _ _
      (subnegotiated-IsBytes body (find_se body) h.1 (λ g e. find_se-IsBytes body g h.1 e)) (tt, h)

negotiation-IsBytes : (cmd : ℕ) (xs : List ℕ) → IsBytes xs → IsByteRound (negotiation cmd xs)
unfolding negotiation
negotiation-IsBytes cmd [] h = (tt, tt)
negotiation-IsBytes cmd (o ∷ rest) h =
    if-either IsByteRound ((cmd == 253) && (o == 44)) _ _ ((tt, tt), h.1)
      (if-either IsByteRound ((cmd == 251) && (o == 44)) _ _ ((tt, tt), h.1) (tt, h.1))

command-IsBytes : (cmd : ℕ) (xs : List ℕ) → IsBytes xs → IsByteRound (command cmd xs)
unfolding command
command-IsBytes cmd xs h =
    if-either IsByteRound (cmd == 255) _ _ (tt, h)
      (if-either IsByteRound (cmd == 250) _ _ (subnegotiation-IsBytes xs h) (
        if-either IsByteRound (leb 251 cmd && leb cmd 254) _ _ (negotiation-IsBytes cmd xs h)
          (tt, h)))

round-IsBytes : (b : ℕ) (t : List ℕ) → IsBytes t → IsByteRound (round b t)
unfolding round
round-IsBytes b [] h = (tt, tt)
round-IsBytes b (cmd ∷ rest) h =
    if-either IsByteRound (b == 255) _ _ (command-IsBytes cmd rest h.1) (tt, h)

rounds-IsBytes : (n : ℕ) (xs : List ℕ) → IsBytes xs → All IsByteEvent (rounds n xs).1
unfolding rounds
rounds-IsBytes zero xs h = tt
rounds-IsBytes (suc n) [] h = tt
rounds-IsBytes (suc n) (b ∷ t) h =
    let (events, rest) = round-IsBytes b t h.1 in
    All-append IsByteEvent (round b t).events (rounds n (round b t).rest).1 events
      (rounds-IsBytes n (round b t).rest rest)

answer_all-IsSane :
    (es : List Event) (s : Settings) → All IsByteEvent es → IsSane s → IsSane (answer_all es s).0
unfolding answer_all
answer_all-IsSane [] s h k = k
answer_all-IsSane (e ∷ rest) s h k =
    answer_all-IsSane rest (answer e s).0 h.1 (answer-IsSane e s h.0 k)

-- Whatever bytes a client sends, well-formed or not: the port's settings stay ones that it can have, a
-- rate above 0 that four bytes hold, 5 to 8 data bits, and 1, 1.5 or 2 stop bits.
pub from_client-IsSane :
    (bytes : List ℕ) (s : Settings) → IsBytes bytes → IsSane s → IsSane (from_client bytes s).1
unfolding from_client handle_rfc2217
from_client-IsSane bytes s h k =
    answer_all-IsSane (rounds (length bytes) bytes).1 s (rounds-IsBytes (length bytes) bytes h) k
