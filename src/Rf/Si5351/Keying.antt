-- ===== src/Rf/Si5351/Keying.antt =====
-- pi/si5351.py: `output_enable`, which keys a carrier through the bits of register 3.
use embedded_ai_harness.Prelude.{
  ℕ, ◌+◌, ◌<◌, ◌≡◌, Bool, true, false, arith, if◌then◌else◌, ◌==◌, zero, suc, ◌||◌, List, ◌∙◌, refl,
}
use embedded_ai_harness.Rf.Si5351.{
  Chip, Result, bit, gate, read, output_enable, ok, init, close, write_all,
}
use embedded_ai_harness.Rf.Si5351.Registers.{write_lem, write_all_lem, IsAnswering, final}

-- The call raised nothing, all outputs are disabled, and the three channels are powered down.
abbrev pub IsSilent : Chip × Result {0} Unit → Type 0
IsSilent (c, r) =
    (r ≡ ok tt)
    × (c.register 3 ≡ 255)
    × (c.register 16 ≡ 128)
    × (c.register 17 ≡ 128)
    × (c.register 18 ≡ 128)

-- A predicate on the bits of a byte, checked bit by bit.
module _ {ℓ} (P : ℕ → Type ℓ) where
  abbrev EachBit : Type ℓ
  EachBit = P 0 × P 1 × P 2 × P 3 × P 4 × P 5 × P 6 × P 7

  EachBit-at : (j : ℕ) → j < 8 → EachBit → P j
  EachBit-at zero h p = p.0
  EachBit-at (suc zero) h p = p.1
  EachBit-at (suc (suc zero)) h p = p.2
  EachBit-at (suc (suc (suc zero))) h p = p.3
  EachBit-at (suc (suc (suc (suc zero)))) h p = p.4
  EachBit-at (suc (suc (suc (suc (suc zero))))) h p = p.5
  EachBit-at (suc (suc (suc (suc (suc (suc zero)))))) h p = p.6
  EachBit-at (suc (suc (suc (suc (suc (suc (suc zero))))))) h p = p.7
  EachBit-at (suc (suc (suc (suc (suc (suc (suc (suc j)))))))) h p = ground arith

-- The bit `j` of the register that `gate` writes: the channel's own is set or cleared, the others stay.
abbrev IsGated : ℕ → Bool → ℕ → ℕ → Type 0
IsGated channel enabled cur j =
    bit (gate channel enabled cur) j
    ≡ (if j == channel then (if enabled then 0 else 1) else bit cur j)

gate-IsGated :
    (channel cur : ℕ) (enabled : Bool)
    → channel < 3
    → cur < 256
    → (gate channel enabled cur < 256) × EachBit (IsGated channel enabled cur)
unfolding gate
gate-IsGated zero cur true h l = ground arith
gate-IsGated (suc zero) cur true h l = ground arith
gate-IsGated (suc (suc zero)) cur true h l = ground arith
gate-IsGated zero cur false h l = ground arith
gate-IsGated (suc zero) cur false h l = ground arith
gate-IsGated (suc (suc zero)) cur false h l = ground arith
gate-IsGated (suc (suc (suc n))) cur enabled h l = omega arith

-- Keying one output switches its own bit and leaves every other output as it was, where the bus
-- acknowledges the read and one of the three attempts at the write.
pub output_enable_lem :
    (acks : ℕ → Bool) (channel j : ℕ) (enabled : Bool) (c : Chip)
    → channel < 3
    → j < 8
    → c.register 3 < 256
    → acks c.attempts ≡ true
    → (acks (c.attempts + 1) || (acks (c.attempts + 1 + 1) || acks (c.attempts + 1 + 1 + 1))) ≡ true
    → let (c', r) = output_enable acks channel enabled c in
      (r ≡ ok tt)
      × (bit (c'.register 3) j
          ≡ (if j == channel then (if enabled then 0 else 1) else bit (c.register 3) j))
unfolding output_enable read
output_enable_lem acks channel j enabled c h k l answered ack =
    let c1 : Chip = record c { attempts = c.attempts + 1 } in
    let (small, each) = gate-IsGated channel (c.register 3) enabled h l in
    let (done, _, stored) = write_lem acks 3 (gate channel enabled (c.register 3)) c1 in
    let own = EachBit-at (IsGated channel enabled (c.register 3)) j k each in
    ground (arith, done, stored 3, own)

silent :
    (acks : ℕ → Bool) (ws : List (ℕ × ℕ)) (c : Chip)
    → IsAnswering acks
    → ((old : ℕ → ℕ)
        → (final ws 3 (old 3) ≡ 255)
          × (final ws 16 (old 16) ≡ 128)
          × (final ws 17 (old 17) ≡ 128)
          × (final ws 18 (old 18) ≡ 128))
    → IsSilent (write_all acks ws c)
silent acks ws c h f =
    let (done, at) = write_all_lem acks ws c h in
    let (a, b, d, e) = f c.register in (done, at 3 ∙ a, at 16 ∙ b, at 17 ∙ d, at 18 ∙ e)

-- On a bus that never fails three times in a row, `init` and `close` raise nothing and leave every
-- output disabled and the three channels powered down.
pub init_close_lem :
    (acks : ℕ → Bool) (c : Chip)
    → IsAnswering acks
    → IsSilent (init acks c) × IsSilent (close acks c)
unfolding init close final
init_close_lem acks c h = (
  silent acks _ c h (λ old. (refl, refl, refl, refl)),
  silent acks _ c h (λ old. (refl, refl, refl, refl)),
)
