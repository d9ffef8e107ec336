-- ===== src/Operator.antt =====
-- pi/portal.py: the request that a test makes of the operator, who answers it in the browser. The
-- blocking handler is two steps, `ask` and `wake`, for the lock is free while it waits. An event
-- object is known by a number, and `is_set` says which ones are set.
pub mod Clicks
mod Examples
use embedded_ai_harness.Prelude.{
  ℕ, ◌+◌, String, Bool, true, false, not, ◌&&◌, ◌||◌, Option, none, some, List, [], ◌∷◌,
  if◌then◌else◌, ◌==◌, str_eq,
}

pub record Prompt : Type 0 where
  pub event : Option ℕ
  pub is_set : ℕ → Bool
  pub confirmed : Bool
  pub message : Option String
  pub next_event : ℕ

pub data Answer : Type 0 where
  missing_message : Answer
  another_pending : Answer
  waiting : ℕ → Answer
  no_pending : Answer
  done : Answer

pub record Result : Type 0 where
  pub confirmed : Bool
  pub timeout : Bool

-- the first half of `_handle_human_interaction`
asked : String → Option ℕ → Prompt → Prompt × Answer
asked message (some e) p = (p, another_pending)
asked message none p = (
  record {
    event = some p.next_event;
    is_set = λ e. if e == p.next_event then false else p.is_set e;
    confirmed = false;
    message = some message;
    next_event = p.next_event + 1;
  },
  waiting p.next_event,
)

pub ask : String → Prompt → Prompt × Answer
unfolding asked
ask message p = if str_eq message "" then (p, missing_message) else asked message p.event p

-- its second half, when the wait is over; `responded` is what `wait` returned
pub wake : Bool → Prompt → Prompt × Result
wake responded p = (
  record p { event = none; message = none },
  record { confirmed = responded && p.confirmed; timeout = not responded },
)

-- `_handle_human_done` and `_handle_human_cancel`
answered : Bool → Option ℕ → Prompt → Prompt × Answer
answered confirmed none p = (p, no_pending)
answered confirmed (some e) p = if p.is_set e then (p, no_pending) else (
  record p { confirmed = confirmed; is_set = λ e'. if e' == e then true else p.is_set e' },
  done,
)

pub click : Bool → Prompt → Prompt × Answer
unfolding answered
click confirmed p = answered confirmed p.event p

abbrev is_open : Option ℕ → (ℕ → Bool) → Bool
is_open none is_set = false
is_open (some e) is_set = not (is_set e)

-- `_handle_human_status`: the message that is shown
pub status : Prompt → Option String
status p = if is_open p.event p.is_set then p.message else none

abbrev set_event : Option ℕ → (ℕ → Bool) → ℕ → Bool
set_event none is_set e = is_set e
set_event (some e') is_set e = if e == e' then true else is_set e

-- what `bench_reset` does to the prompt
cleared : Option String → Prompt → Prompt
cleared none p = p
cleared (some m) p = record p {
  message = none;
  confirmed = false;
  event = none;
  is_set = set_event p.event p.is_set;
}

pub reset : Prompt → Prompt
unfolding cleared
reset p = cleared p.message p
