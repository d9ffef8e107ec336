-- ===== src/Rf/Generator/Invariant.antt =====
-- pi/signal_generator.py: what holds after any sequence of calls, and what a retuned carrier does.
use embedded_ai_harness.Prelude.{
  ℕ, Bool, true, false, not, ◌&&◌, Option, none, some, ◌==◌, ◌≡◌, arith, refl, ap, ◌∙◌, sym,
}
use embedded_ai_harness.Rf.Generator.{
  Kind, gpclk, si5351, Backend, Generator, Env, State, Answer, ok, raised, Line, set_line, stop,
  start, set_frequency, set_attenuation, set_atten, retune, retuned, rekeyed, rechannel,
  tune_backend, tuned_to, is_keying, step, Operation, starting, stopping, retuning, attenuating,
  keyer_done, attenuation_set, is_same, Morse, attenuate, closes,
}
use embedded_ai_harness.Rf.Generator.Carrier.{
  IsCovered, Covered, covers, owns, IsSilent, IsStarted, start-IsStarted, stop_locked-IsSilent,
  attenuate-line,
}

-- The states that calls lead to from one in which no output carries a signal, where the bus does not fail in a
-- closing; each call has its own surroundings.
pub data Reach : Generator → Type 0 where
  at_start : {g : Generator} → IsSilent g.line → Reach g
  after :
      {g : Generator} (env : Env) (o : Operation)
      → env.bus closes ≡ true
      → Reach g
      → Reach (step env o g)

silent-Covered : (b : Option Backend) (line : Line) → IsSilent line → Covered b line
silent-Covered b line quiet k t e = ground (arith, quiet k t)

IsStarted-IsCovered :
    (m : Option Morse) (r : Generator × Answer State) → IsStarted m r → IsCovered r.0
IsStarted-IsCovered m (g, raised e) h = silent-Covered g.backend g.line h
IsStarted-IsCovered m (g, ok s) (_, _, (b, at, _, _, lines)) =
    rw at (λ k t e. one_line b k t (ground (arith, lines k t)))
  where
    one_line :
        (b : Backend) (k : Kind) (t : ℕ)
        → (is_same b.kind k && (b.target == t)) ≡ true
        → owns b k t ≡ true
    one_line b gpclk t h = h
    one_line b si5351 t h = ground arith

rechannel-owns :
    (channel : Option ℕ) (kind : Kind) (p f : ℕ) (k : Kind) (t : ℕ)
    → let b : Backend = record { kind = kind; target = p; freq = f } in
      owns (rechannel channel b) k t ≡ owns b k t
unfolding rechannel
rechannel-owns channel gpclk p f k t = refl
rechannel-owns channel si5351 p f gpclk t = refl
rechannel-owns channel si5351 p f si5351 t = refl

rekeyed-owns :
    (keyer : Option Bool) (kind : Kind) (p f : ℕ) (line : Line) (k : Kind) (t : ℕ)
    → let b : Backend = record { kind = kind; target = p; freq = f } in
      (line k t ≡ true → owns b k t ≡ true)
      → rekeyed b keyer (set_line kind p false line) k t ≡ true
      → owns b k t ≡ true
unfolding rekeyed set_line
rekeyed-owns keyer gpclk p f line gpclk t h e = ground arith
rekeyed-owns keyer gpclk p f line si5351 t h e = ground arith
rekeyed-owns keyer si5351 p f line gpclk t h e = ground arith
rekeyed-owns keyer si5351 p f line si5351 t h e = refl

retuned-IsCovered :
    (b : Backend) (g : Generator) (answer : Option ℕ)
    → Covered (some b) g.line
    → IsCovered (retuned b g (tuned_to b g.line answer)).0
unfolding retuned tuned_to
retuned-IsCovered b g none h k t e = h k t e
retuned-IsCovered b g (some f) h k t e = rekeyed-owns g.keyer b.kind b.target f g.line k t (h k t) e

retune-IsCovered :
    (env : Env) (freq : ℕ) (channel : Option ℕ) (g : Generator) (b : Option Backend)
    → g.backend ≡ b
    → Covered b g.line
    → IsCovered (retune env freq channel g b).0
unfolding retune tune_backend
retune-IsCovered env freq channel g none at h = rw at h
retune-IsCovered env freq channel g (some b) at h =
    let b' = rechannel channel b in
    retuned-IsCovered b' g (env.tune b'.kind b'.target freq)
      (λ k t e. rechannel-owns channel b.kind b.target b.freq k t ∙ h k t e)

attenuation_set-IsCovered :
    (r : Generator × Answer {0} Unit) → IsCovered r.0 → IsCovered (attenuation_set r).0
unfolding attenuation_set
attenuation_set-IsCovered (g, raised e) h = h
attenuation_set-IsCovered (g, ok _) h = h

step-IsCovered :
    (env : Env) (o : Operation) (g : Generator)
    → env.bus closes ≡ true
    → IsCovered g
    → IsCovered (step env o g)
unfolding step set_frequency set_attenuation set_atten stop
step-IsCovered env (starting r) g shut h =
    IsStarted-IsCovered r.morse (start env r g) (start-IsStarted env r g shut h)
step-IsCovered env stopping g shut h = silent-Covered _ _ (stop_locked-IsSilent env g shut h)
step-IsCovered env (retuning freq channel) g shut h =
    retune-IsCovered env freq channel g g.backend refl h
step-IsCovered env (attenuating db) g shut h =
    let (line, at) = attenuate-line db g.attenuator g in
    attenuation_set-IsCovered (attenuate db g.attenuator g)
      (λ k t e. ap (λ b. covers b k t) at ∙ h k t (sym (ap (λ l. l k t) line) ∙ e))
step-IsCovered env keyer_done g shut h = h

Reach-IsCovered : {g : Generator} → Reach g → IsCovered g
Reach-IsCovered (at_start quiet) = silent-Covered _ _ quiet
Reach-IsCovered (after {g} env o shut r) = step-IsCovered env o g shut (Reach-IsCovered r)

-- After any sequence of calls in which the bus does not fail while a backend is closed, whatever it does else: only
-- outputs of the current backend carry a signal, so that a stop whose closing does not fail either silences
-- every output, and no carrier is left behind.
pub Reach-IsSilent :
    {g : Generator} (env : Env)
    → env.bus closes ≡ true
    → Reach g
    → IsCovered g × IsSilent (stop env g).0.line
unfolding stop
Reach-IsSilent env shut r = let h = Reach-IsCovered r in (h, stop_locked-IsSilent env _ shut h)

rekeyed-line :
    (keyer : Option Bool) (kind : Kind) (p f : ℕ) (line : Line)
    → let b : Backend = record { kind = kind; target = p; freq = f } in
      rekeyed b keyer (set_line kind p false line) kind p
      ≡ (is_same kind gpclk && not (is_keying keyer))
unfolding rekeyed set_line
rekeyed-line keyer gpclk p f line = ground arith
rekeyed-line keyer si5351 p f line = ground arith

-- A carrier that is retuned: the GPCLK's output carries a signal again unless a keyer is keying it, and
-- the Si5351's output is left off; the state stays as it was but for the frequency.
pub set_frequency-line :
    (env : Env) (freq actual : ℕ) (channel : Option ℕ) (g : Generator) (b : Backend)
    → g.backend ≡ some b
    → let b' = rechannel channel b in
      env.tune b'.kind b'.target freq ≡ some actual
      → let (g', r) = set_frequency env freq channel g in
        (r ≡ ok (record g.state { freq_hz = actual }))
        × (g'.line b'.kind b'.target ≡ (is_same b'.kind gpclk && not (is_keying g.keyer)))
unfolding set_frequency retune retuned tune_backend tuned_to
set_frequency-line env freq actual channel g b at answer =
    let b' = rechannel channel b in
    rw (at, retune, answer) (refl, rekeyed-line g.keyer b'.kind b'.target actual g.line)
