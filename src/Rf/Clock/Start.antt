-- ===== src/Rf/Clock/Start.antt =====
-- pi/gpclk.py: what `start` and `stop` leave in the clock block and at the pin.
use native.Mathlib.Nat.{mod-lt}
use native.Mathlib.Omega.{div_any}
use embedded_ai_harness.Prelude.{
  ℕ, zero, suc, ◌+◌, ◌*◌, ◌/◌, ◌%◌, ◌≤◌, ◌<◌, ◌≡◌, ◌≢◌, Bool, true, false, List, [], ◌∷◌, ◌++◌,
  if◌then◌else◌, ◌==◌, arith, round_div, refl, ap, ◌⊎◌, inl, inr,
}
use embedded_ai_harness.Rf.Clock.{
  Clock, Action, clk_write, clk_read, set_alt0, set_input, started, await_idle, stop_clock_hw,
  start, stop, key_off, clk_passwd,
}

-- The clock block's words, and whether the clock is connected to the pin.
pub record Block : Type 0 where
  pub word : ℕ → ℕ
  pub is_connected : Bool

pub observe : Action → Block → Block
observe (clk_write reg value) b = record b { word = λ r. if r == reg then value else b.word r }
observe (clk_read reg) b = b
observe (set_alt0 pin) b = record b { is_connected = true }
observe (set_input pin) b = record b { is_connected = false }

pub observe_all : List Action → Block → Block
observe_all [] b = b
observe_all (a ∷ rest) b = observe_all rest (observe a b)

observe_all-append :
    (xs ys : List Action) (b : Block) → observe_all (xs ++ ys) b ≡ observe_all ys (observe_all xs b)
unfolding observe_all
observe_all-append [] ys b = refl
observe_all-append (x ∷ xs) ys b = observe_all-append xs ys (observe x b)

observe_all-await_idle :
    (n : ℕ) (busy : ℕ → Bool) (c : Clock) (b : Block) → observe_all (await_idle n busy c) b ≡ b
unfolding observe_all observe await_idle
observe_all-await_idle zero busy c b = refl
observe_all-await_idle (suc n) busy c b = ground (arith, observe_all-await_idle n busy c b)

round_div-cases :
    (n d : ℕ)
    → 0 < d
    → ((round_div n d ≡ n / d) × (2 * (n % d) ≤ d))
      ⊎ ((round_div n d ≡ n / d + 1) × (d ≤ 2 * (n % d)))
unfolding round_div
round_div-cases n d h = ground arith

round_div_close :
    (n d : ℕ)
    → 0 < d
    → (2 * (d * round_div n d) ≤ 2 * n + d) × (2 * n ≤ 2 * (d * round_div n d) + d)
round_div_close n d h = elim (round_div-cases n d h) [
  | inl (e, le) ↦ rw e (omega (arith, div_any n d), omega (arith, div_any n d))
  | inr (e, le) ↦
      rw e (omega (arith, div_any n d, mod-lt n h), omega (arith, div_any n d, mod-lt n h))
]

-- The words of a start, with its wait.
observe_all-start :
    (busy : ℕ → Bool) (word : ℕ) (c : Clock) (b : Block)
    → c.ctl ≢ c.div
    → let b' =
        observe_all
          (stop_clock_hw busy c
            ++ clk_write c.div word ∷ clk_write c.ctl (clk_passwd + 16 + 6) ∷ key_off c ∷ [])
          b in
      (b'.word c.div ≡ word) × (b'.word c.ctl ≡ clk_passwd + 22) × (b'.is_connected ≡ false)
unfolding observe_all observe key_off stop_clock_hw
observe_all-start busy word c b apart =
    rw (observe_all-append (await_idle 100 busy c), observe_all-await_idle 100 busy c)
      (ground arith)

start-accepted :
    (busy : ℕ → Bool) (freq d : ℕ) (c : Clock)
    → (start busy freq c).2 ≡ started d
    → (0 < freq)
      × (round_div 500_000_000 freq ≡ d)
      × (2 ≤ d)
      × (d ≤ 4095)
      × ((start busy freq c).0.divider ≡ d)
      × ((start busy freq c).1
          ≡ stop_clock_hw busy c
            ++ clk_write c.div (clk_passwd + d * 4096)
              ∷ clk_write c.ctl (clk_passwd + 16 + 6)
              ∷ key_off c
              ∷ [])
unfolding start
start-accepted busy freq d c h = ground arith

-- A start that the driver accepts, whatever the clock did before and however long it stays busy: the
-- divider is from 2 to 4095 and the closest to PLLD_FREQ / freq_hz; its word holds the password and
-- the divider and fits in 32 bits; the clock is enabled on PLLD; and the pin is disconnected.
pub start_lem :
    (busy : ℕ → Bool) (freq d : ℕ) (c : Clock) (b : Block)
    → c.ctl ≢ c.div
    → (start busy freq c).2 ≡ started d
    → let b' = observe_all (start busy freq c).1 b in
      ((start busy freq c).0.divider ≡ d)
      × (2 ≤ d)
      × (d ≤ 4095)
      × (2 * (freq * d) ≤ 1_000_000_000 + freq)
      × (1_000_000_000 ≤ 2 * (freq * d) + freq)
      × (b'.word c.div ≡ clk_passwd + d * 4096)
      × (b'.word c.div < 4_294_967_296)
      × (b'.word c.ctl ≡ clk_passwd + 22)
      × (b'.is_connected ≡ false)
start_lem busy freq d c b apart h =
    let (some_freq, e, low, high, kept, actions) = start-accepted busy freq d c h in
    let (over, under) = round_div_close 500_000_000 freq some_freq in
    let (word, ctl, off) = observe_all-start busy (clk_passwd + d * 4096) c b apart in
    rw actions (
      kept,
      low,
      high,
      omega (arith, over, ap (λ x. freq * x) e),
      omega (arith, under, ap (λ x. freq * x) e),
      word,
      rw word (omega arith),
      ctl,
      off,
    )

-- Stopping kills the clock and leaves the pin disconnected.
pub stop_lem :
    (busy : ℕ → Bool) (c : Clock) (b : Block)
    → let b' = observe_all (stop busy c).1 b in
      ((stop busy c).0.running ≡ false)
      × (b'.word c.ctl ≡ clk_passwd + 32)
      × (b'.is_connected ≡ false)
unfolding stop observe_all observe key_off stop_clock_hw
stop_lem busy c b = rw (observe_all-await_idle 100 busy c) (ground arith)
