-- ===== src/Operator/Clicks.antt =====
-- pi/portal.py: which answer a test gets.
use embedded_ai_harness.Prelude.{
  ℕ, String, Bool, true, false, Option, none, some, List, [], ◌∷◌, if◌then◌else◌, ◌==◌, eq_iff, ◌≡◌,
  ◌≢◌, refl, arith,
}
use embedded_ai_harness.Operator.{Prompt, ask, wake, click, status, Result, waiting}

-- What others do while a test waits.
pub data Act : Type 0 where
  clicking : Bool → Act
  asking : String → Act

pub perform : Act → Prompt → Prompt
perform (clicking b) p = (click b p).0
perform (asking m) p = (ask m p).0

pub perform_all : List Act → Prompt → Prompt
perform_all [] p = p
perform_all (a ∷ rest) p = perform_all rest (perform a p)

-- The first click, if there is one.
unfoldable pub first_click : List Act → Option Bool
first_click [] = none
first_click (clicking b ∷ rest) = some b
first_click (asking m ∷ rest) = first_click rest

-- Once a click has come, nothing changes the answer.
perform_all-answered :
    (acts : List Act) (p : Prompt) (e : ℕ)
    → p.event ≡ some e
    → p.is_set e ≡ true
    → perform_all acts p ≡ p
unfolding perform_all perform click ask
perform_all-answered [] p e at set = refl
perform_all-answered (clicking b ∷ rest) p e at set =
    ground (arith, perform_all-answered rest p e at set)
perform_all-answered (asking m ∷ rest) p e at set =
    ground (arith, perform_all-answered rest p e at set)

-- What a test is told: the first click, or that the wait timed out.
abbrev pub outcome : Option Bool → Result
outcome none = record { confirmed = false; timeout = true }
outcome (some b) = record { confirmed = b; timeout = false }

wake-waiting :
    (acts : List Act) (p : Prompt) (e : ℕ)
    → p.event ≡ some e
    → p.is_set e ≡ false
    → let p' = perform_all acts p in (wake (p'.is_set e) p').1 ≡ outcome (first_click acts)
unfolding perform_all perform click ask wake first_click
wake-waiting [] p e at unset = ground arith
wake-waiting (clicking b ∷ rest) p e at unset =
    let p1 : Prompt = record p {
      confirmed = b;
      is_set = λ e'. if e' == e then true else p.is_set e';
    } in
    ground (arith, perform_all-answered rest p1 e at)
wake-waiting (asking m ∷ rest) p e at unset = ground (arith, wake-waiting rest p e at unset)

ask-free :
    (message : String) (p : Prompt)
    → message ≢ ""
    → p.event ≡ none
    → ((ask message p).1 ≡ waiting p.next_event)
      × (status (ask message p).0 ≡ some message)
      × ((ask message p).0.event ≡ some p.next_event)
      × ((ask message p).0.is_set p.next_event ≡ false)
unfolding ask status
ask-free message p some_text free = ground (arith, eq_iff message "")

-- A test that asks while no request is open gets the first click of the operator as its answer, whatever
-- is clicked or asked after it and whatever other tests ask meanwhile; without a click it is told of the
-- timeout, as not confirmed. Where no `bench_reset` comes between.
pub wake-ask :
    (message : String) (acts : List Act) (p : Prompt)
    → message ≢ ""
    → p.event ≡ none
    → let p' = perform_all acts (ask message p).0 in
      ((ask message p).1 ≡ waiting p.next_event)
      × (status (ask message p).0 ≡ some message)
      × ((wake (p'.is_set p.next_event) p').1 ≡ outcome (first_click acts))
      × (status (wake (p'.is_set p.next_event) p').0 ≡ none)
unfolding status wake
wake-ask message acts p some_text free =
    let (waits, shown, at, unset) = ask-free message p some_text free in
    (waits, shown, wake-waiting acts (ask message p).0 p.next_event at unset, refl)
