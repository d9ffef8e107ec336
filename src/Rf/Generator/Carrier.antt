-- ===== src/Rf/Generator/Carrier.antt =====
-- pi/signal_generator.py: which outputs carry a signal.
use embedded_ai_harness.Prelude.{
  ℕ, Bool, true, false, not, ◌&&◌, ◌||◌, Option, none, some, ◌==◌, ◌≡◌, arith, refl, str_eq, leb,
  ap, ◌∙◌, Bool-cases, if-either, if◌then◌else◌, inl, inr,
}
use embedded_ai_harness.Prelude.Int.{ℤ}
use embedded_ai_harness.Rf.Attenuator.{
  Attenuator, Outcome, attenuation, not_initialized, out_of_range, set_db,
}
use embedded_ai_harness.Rf.Generator.{
  Kind, gpclk, si5351, Backend, Generator, Env, Request, State, Answer, ok, raised, Line, set_line,
  mute_si5351, stop_keyer, close_current, report, after_atten, tuned, made, made_line, chosen,
  attenuated, attenuate, tuned_to, is_set, close_backend, stop_locked, start, set_atten,
  start_atten, start_keyer, choose_backend, make_backend, tune_backend, retarget, is_same, Morse,
  closes, stops, keyer_stops, keys, inits, on_bus, tried,
}

-- The output `t` of a kind belongs to the backend; to an Si5351 belong all of its channels.
abbrev pub owns : Backend → Kind → ℕ → Bool
owns b gpclk t = is_same b.kind gpclk && (b.target == t)
owns b si5351 t = is_same b.kind si5351

abbrev pub covers : Option Backend → Kind → ℕ → Bool
covers none k t = false
covers (some b) k t = owns b k t

-- Only outputs of the current backend carry a signal.
abbrev pub Covered : Option Backend → Line → Type 0
Covered b line = (k : Kind) (t : ℕ) → line k t ≡ true → covers b k t ≡ true

abbrev pub IsCovered : Generator → Type 0
IsCovered g = Covered g.backend g.line

abbrev pub IsSilent : Line → Type 0
IsSilent line = (k : Kind) (t : ℕ) → line k t ≡ false

-- What a call that may fail comes to on one output.
tried_lem :
    (c : Bool) (after before : Line) (k : Kind) (t : ℕ)
    → tried c after before k t ≡ (if c then after k t else before k t)
tried_lem true after before k t = refl
tried_lem false after before k t = refl

close_backend-owns :
    (env : Env) (kind : Kind) (p f : ℕ) (line : Line) (k : Kind) (t : ℕ)
    → env.bus closes ≡ true
    → let b : Backend = record { kind = kind; target = p; freq = f } in
      (line k t ≡ true → owns b k t ≡ true) → close_backend env b line k t ≡ false
unfolding close_backend set_line mute_si5351
close_backend-owns env gpclk p f line gpclk t shut h = ground arith
close_backend-owns env gpclk p f line si5351 t shut h = ground arith
close_backend-owns env si5351 p f line gpclk t shut h =
    rw shut (tried_lem (env.bus stops) _ line gpclk t ∙ ground arith)
close_backend-owns env si5351 p f line si5351 t shut h = rw shut refl

stop_keyer-less :
    (env : Env) (alive : Option Bool) (b : Option Backend) (line : Line) (k : Kind) (t : ℕ)
    → stop_keyer env alive b line k t ≡ true
    → line k t ≡ true
unfolding stop_keyer set_line
stop_keyer-less env none b line k t h = h
stop_keyer-less env (some alive) none line k t h = h
stop_keyer-less env (some alive) (some b) line k t h = ground (
  arith,
  tried_lem (on_bus env b.kind keyer_stops) (set_line b.kind b.target false line) line k t,
)

close_current-IsSilent :
    (env : Env) (b : Option Backend) (line : Line)
    → env.bus closes ≡ true
    → Covered b line
    → IsSilent (close_current env b line)
unfolding close_current
close_current-IsSilent env none line shut h k t = ground (arith, h k t)
close_current-IsSilent env (some b) line shut h k t =
    close_backend-owns env b.kind b.target b.freq line k t shut (h k t)

-- Where only the current backend's outputs carry a signal and the bus does not fail in its closing, stopping
-- silences every output.
pub stop_locked-IsSilent :
    (env : Env) (g : Generator)
    → env.bus closes ≡ true
    → IsCovered g
    → IsSilent (stop_locked env g).line
unfolding stop_locked
stop_locked-IsSilent env g shut h =
    close_current-IsSilent env g.backend (stop_keyer env g.keyer g.backend g.line) shut
      (λ k t e. h k t (stop_keyer-less env g.keyer g.backend g.line k t e))

-- What `start` returned: on an error no output carries a signal; else the state describes the backend,
-- whose output alone carries one, unless it is left to the keyer.
abbrev pub IsStarted : Option Morse → Generator × Answer State → Type 0
IsStarted m (g, raised e) = IsSilent g.line
IsStarted m (g, ok s) =
    (g.state ≡ s)
    × (s.active ≡ true)
    × ((b : Backend) × (g.backend ≡ some b)
        × (s.backend ≡ some b.kind)
        × (s.freq_hz ≡ b.freq)
        × ((k : Kind) (t : ℕ)
            → g.line k t ≡ (not (is_set m) && (is_same b.kind k && (b.target == t)))))

lit :
    (b : Backend) (line : Line) (k : Kind) (t : ℕ)
    → line k t ≡ false
    → set_line b.kind b.target true line k t ≡ (is_same b.kind k && (b.target == t))
unfolding set_line
lit b line k t h = ground arith

dark :
    (b : Backend) (line : Line) (k : Kind) (t : ℕ)
    → line k t ≡ false
    → set_line b.kind b.target false line k t ≡ false
unfolding set_line
dark b line k t h = ground arith

start_keyer-IsStarted :
    (env : Env) (b : Backend) (m : Option Morse) (g : Generator)
    → g.backend ≡ some b
    → IsSilent g.line
    → IsStarted m (report b (start_keyer env b m g))
unfolding report start_keyer set_line
start_keyer-IsStarted env b none g at quiet =
    let P : Generator × Answer {0} Unit → Type 0 = λ r. IsStarted none (report b r) in
    if-either P (on_bus env b.kind keys) _ _
      (refl, refl, (b, at, refl, refl, λ k t. lit b g.line k t (quiet k t))) quiet
start_keyer-IsStarted env b (some m) g at quiet =
    elim (Bool-cases (str_eq m.message "" || str_eq (env.strip m.message) "")) [
      | inl e ↦ rw e quiet
      | inr e ↦ elim (Bool-cases (leb 1 m.wpm && leb m.wpm 60)) [
        | inl e' ↦
            rw (e, e') (refl, refl, (b, at, refl, refl, λ k t. dark b g.line k t (quiet k t)))
        | inr e' ↦ rw (e, e') quiet
      ]
    ]

attenuated-line :
    (g : Generator) (r : Attenuator × Outcome)
    → ((attenuated g r).0.line ≡ g.line) × ((attenuated g r).0.backend ≡ g.backend)
unfolding attenuated
attenuated-line g (a, attenuation n) = (refl, refl)
attenuated-line g (a, not_initialized) = (refl, refl)
attenuated-line g (a, out_of_range) = (refl, refl)

pub attenuate-line :
    (db : ℤ) (a : Option Attenuator) (g : Generator)
    → ((attenuate db a g).0.line ≡ g.line) × ((attenuate db a g).0.backend ≡ g.backend)
unfolding attenuate
attenuate-line db none g = (refl, refl)
attenuate-line db (some a) g = let (a', _, outcome) = set_db a db in attenuated-line g (a', outcome)

start_atten-line :
    (db : Option ℤ) (g : Generator)
    → ((start_atten db g).0.line ≡ g.line) × ((start_atten db g).0.backend ≡ g.backend)
unfolding start_atten set_atten
start_atten-line none g = (refl, refl)
start_atten-line (some db) g = attenuate-line db g.attenuator g

after_atten-IsStarted :
    (env : Env) (b : Backend) (m : Option Morse) (g : Generator) (a : Answer {0} Unit)
    → g.backend ≡ some b
    → IsSilent g.line
    → IsStarted m (after_atten env b m (g, a))
unfolding after_atten
after_atten-IsStarted env b m g (raised e) at quiet = quiet
after_atten-IsStarted env b m g (ok _) at quiet = start_keyer-IsStarted env b m g at quiet

mute-IsSilent : (line : Line) → IsSilent line → IsSilent (mute_si5351 line)
unfolding mute_si5351
mute-IsSilent line quiet gpclk t = quiet gpclk t
mute-IsSilent line quiet si5351 t = refl

-- What is silent stays so, whether the calls succeed or not.
close_kind-IsSilent :
    (env : Env) (kind : Kind) (p f : ℕ) (line : Line)
    → IsSilent line
    → IsSilent (close_backend env (record { kind = kind; target = p; freq = f }) line)
unfolding close_backend
close_kind-IsSilent env gpclk p f line quiet k t =
    dark (record { kind = gpclk; target = p; freq = f }) line k t (quiet k t)
close_kind-IsSilent env si5351 p f line quiet k t =
    let b : Backend = record { kind = si5351; target = p; freq = f } in
    let stopped = tried (env.bus stops) (set_line si5351 p false line) line in
    let still : IsSilent stopped =
      if-either IsSilent (env.bus stops) _ line (λ k t. dark b line k t (quiet k t)) quiet in
    if-either IsSilent (env.bus closes) _ stopped (mute-IsSilent stopped still) still k t

tuned-IsStarted :
    (env : Env) (r : Request) (b : Backend) (g : Generator) (line : Line) (answer : Option ℕ)
    → IsSilent line
    → IsStarted r.morse (tuned env r b g (tuned_to b line answer))
unfolding tuned tuned_to
tuned-IsStarted env r b g line none quiet =
    close_kind-IsSilent env b.kind b.target b.freq line quiet
tuned-IsStarted env r b g line (some actual) quiet =
    let b' : Backend = record b { freq = actual } in
    let g' : Generator = record g {
      line = set_line b.kind b.target false line;
      backend = some b';
    } in
    let (same_line, same_backend) = start_atten-line r.atten_db g' in
    let (g'', a) = start_atten r.atten_db g' in
    after_atten-IsStarted env b' r.morse g'' a same_backend
      (λ k t. ap (λ l. l k t) same_line ∙ dark b line k t (quiet k t))

made_line-IsSilent : (k : Kind) (line : Line) → IsSilent line → IsSilent (made_line k line)
unfolding made_line
made_line-IsSilent gpclk line quiet k t = quiet k t
made_line-IsSilent si5351 line quiet k t = mute-IsSilent line quiet k t

made-IsStarted :
    (env : Env) (r : Request) (g : Generator) (b : Answer Backend)
    → IsSilent g.line
    → IsStarted r.morse (made env r g b)
unfolding made tune_backend
made-IsStarted env r g (raised e) quiet = quiet
made-IsStarted env r g (ok b) quiet =
    let b' = retarget r.channel b in
    if-either (IsStarted r.morse) (on_bus env b.kind inits) _ _
      (tuned-IsStarted env r b' g (made_line b.kind g.line) (env.tune b'.kind b'.target r.freq_hz)
        (made_line-IsSilent b.kind g.line quiet))
      quiet

chosen-IsStarted :
    (env : Env) (r : Request) (g : Generator) (k : Answer Kind)
    → IsSilent g.line
    → IsStarted r.morse (chosen env r g k)
unfolding chosen
chosen-IsStarted env r g (raised e) quiet = quiet
chosen-IsStarted env r g (ok k) quiet =
    made-IsStarted env r g (make_backend env k r.pin r.channel) quiet

-- Starting a carrier, from any state in which only the current backend's outputs carry a signal, and where the bus
-- does not fail while the old backend is closed, whatever it does else: where the start fails, no output
-- carries a signal; where it succeeds, the reported state is active and describes the new backend, and that
-- backend's output alone carries a signal, unless a message keys it.
pub start-IsStarted :
    (env : Env) (r : Request) (g : Generator)
    → env.bus closes ≡ true
    → IsCovered g
    → IsStarted r.morse (start env r g)
unfolding start
start-IsStarted env r g shut h =
    chosen-IsStarted env r (stop_locked env g) (choose_backend env r.backend)
      (stop_locked-IsSilent env g shut h)
