-- ===== src/Proxy/Rounds.antt =====
-- pi/serial_proxy.py: that a call reads its bytes to the end, round by round.
use embedded_ai_harness.Prelude.{
  ℕ, zero, suc, ◌≤◌, ◌≡◌, Option, none, some, List, [], ◌∷◌, ◌++◌, length, arith, refl,
  Option-cases, inl, inr,
}
use embedded_ai_harness.Proxy.{
  find_se, subnegotiated, subnegotiation, negotiation, command, round, rounds, handle_rfc2217,
}

find_se-shorter : (xs : List ℕ) (f : List ℕ × List ℕ) → find_se xs ≡ some f → length f.1 ≤ length xs
unfolding find_se
find_se-shorter [] f e = ground arith
find_se-shorter (a ∷ []) f e = ground arith
find_se-shorter (a ∷ b ∷ rest) f e = elim (Option-cases (find_se (b ∷ rest))) [
  | inl n ↦ ground (arith, n)
  | inr (g, s) ↦ ground (arith, s, find_se-shorter (b ∷ rest) g s)
]

subnegotiated-shorter :
    (body : List ℕ) (f : Option (List ℕ × List ℕ))
    → find_se body ≡ f
    → length (subnegotiated body f).rest ≤ suc (length body)
unfolding subnegotiated
subnegotiated-shorter body none e = omega arith
subnegotiated-shorter body (some f) e = omega (arith, find_se-shorter body f e)

subnegotiation-shorter : (xs : List ℕ) → length (subnegotiation xs).rest ≤ length xs
unfolding subnegotiation
subnegotiation-shorter [] = omega arith
subnegotiation-shorter (o ∷ body) = ground (arith, subnegotiated-shorter body (find_se body) refl)

negotiation-shorter : (cmd : ℕ) (xs : List ℕ) → length (negotiation cmd xs).rest ≤ length xs
unfolding negotiation
negotiation-shorter cmd [] = omega arith
negotiation-shorter cmd (o ∷ rest) = ground arith

-- Every round reads at least one byte.
round-shorter : (b : ℕ) (t : List ℕ) → length (round b t).rest ≤ length t
unfolding round command
round-shorter b [] = omega arith
round-shorter b (cmd ∷ rest) =
    ground (arith, subnegotiation-shorter rest, negotiation-shorter cmd rest)

rounds-enough : (n m : ℕ) (xs : List ℕ) → length xs ≤ n → length xs ≤ m → rounds n xs ≡ rounds m xs
unfolding rounds
rounds-enough zero zero xs h k = refl
rounds-enough zero (suc m) [] h k = refl
rounds-enough zero (suc m) (b ∷ t) h k = ground arith
rounds-enough (suc n) zero [] h k = refl
rounds-enough (suc n) zero (b ∷ t) h k = ground arith
rounds-enough (suc n) (suc m) [] h k = refl
rounds-enough (suc n) (suc m) (b ∷ t) h k =
    let less = round-shorter b t in
    rw (rounds-enough n m (round b t).rest (omega (arith, less)) (omega (arith, less))) refl

-- One round, and then the call on what is left.
pub handle-round :
    (b : ℕ) (t : List ℕ)
    → let r = round b t in
      let (out, events) = handle_rfc2217 r.rest in
      handle_rfc2217 (b ∷ t) ≡ (r.out ++ out, r.events ++ events)
unfolding handle_rfc2217 rounds
handle-round b t =
    rw
      (rounds-enough (length t) (length (round b t).rest) (round b t).rest (round-shorter b t)
        (omega arith))
      refl

pub handle-empty : handle_rfc2217 [] ≡ ([], [])
unfolding handle_rfc2217 rounds
handle-empty = refl
