-- ===== src/Rf/Morse.antt =====
-- pi/morse.py: the keyer. Times are counted in dits, `1.2 / wpm` seconds. A message is given as its
-- words, and a word as its characters in capitals. Each test of the stop event takes the next element
-- of a list, and finds it unset when the list is used up.
pub mod Silence
mod Examples
use embedded_ai_harness.Prelude.{
  ℕ, zero, suc, String, Bool, true, false, not, ◌&&◌, ◌||◌, Option, none, some, List, [], ◌∷◌, ◌++◌,
  leb, if◌then◌else◌,
}
use embedded_ai_harness.Prelude.Dict.{Dict, get}

pub data Symbol : Type 0 where
  dit : Symbol
  dah : Symbol

pub morse_table : Dict (List Symbol)
morse_table =
    ("A", dit ∷ dah ∷ [])
    ∷ ("B", dah ∷ dit ∷ dit ∷ dit ∷ [])
    ∷ ("C", dah ∷ dit ∷ dah ∷ dit ∷ [])
    ∷ ("D", dah ∷ dit ∷ dit ∷ [])
    ∷ ("E", dit ∷ [])
    ∷ ("F", dit ∷ dit ∷ dah ∷ dit ∷ [])
    ∷ ("G", dah ∷ dah ∷ dit ∷ [])
    ∷ ("H", dit ∷ dit ∷ dit ∷ dit ∷ [])
    ∷ ("I", dit ∷ dit ∷ [])
    ∷ ("J", dit ∷ dah ∷ dah ∷ dah ∷ [])
    ∷ ("K", dah ∷ dit ∷ dah ∷ [])
    ∷ ("L", dit ∷ dah ∷ dit ∷ dit ∷ [])
    ∷ ("M", dah ∷ dah ∷ [])
    ∷ ("N", dah ∷ dit ∷ [])
    ∷ ("O", dah ∷ dah ∷ dah ∷ [])
    ∷ ("P", dit ∷ dah ∷ dah ∷ dit ∷ [])
    ∷ ("Q", dah ∷ dah ∷ dit ∷ dah ∷ [])
    ∷ ("R", dit ∷ dah ∷ dit ∷ [])
    ∷ ("S", dit ∷ dit ∷ dit ∷ [])
    ∷ ("T", dah ∷ [])
    ∷ ("U", dit ∷ dit ∷ dah ∷ [])
    ∷ ("V", dit ∷ dit ∷ dit ∷ dah ∷ [])
    ∷ ("W", dit ∷ dah ∷ dah ∷ [])
    ∷ ("X", dah ∷ dit ∷ dit ∷ dah ∷ [])
    ∷ ("Y", dah ∷ dit ∷ dah ∷ dah ∷ [])
    ∷ ("Z", dah ∷ dah ∷ dit ∷ dit ∷ [])
    ∷ ("0", dah ∷ dah ∷ dah ∷ dah ∷ dah ∷ [])
    ∷ ("1", dit ∷ dah ∷ dah ∷ dah ∷ dah ∷ [])
    ∷ ("2", dit ∷ dit ∷ dah ∷ dah ∷ dah ∷ [])
    ∷ ("3", dit ∷ dit ∷ dit ∷ dah ∷ dah ∷ [])
    ∷ ("4", dit ∷ dit ∷ dit ∷ dit ∷ dah ∷ [])
    ∷ ("5", dit ∷ dit ∷ dit ∷ dit ∷ dit ∷ [])
    ∷ ("6", dah ∷ dit ∷ dit ∷ dit ∷ dit ∷ [])
    ∷ ("7", dah ∷ dah ∷ dit ∷ dit ∷ dit ∷ [])
    ∷ ("8", dah ∷ dah ∷ dah ∷ dit ∷ dit ∷ [])
    ∷ ("9", dah ∷ dah ∷ dah ∷ dah ∷ dit ∷ [])
    ∷ ("/", dah ∷ dit ∷ dit ∷ dah ∷ dit ∷ [])
    ∷ ("=", dah ∷ dit ∷ dit ∷ dit ∷ dah ∷ [])
    ∷ ("?", dit ∷ dit ∷ dah ∷ dah ∷ dit ∷ dit ∷ [])
    ∷ (".", dit ∷ dah ∷ dit ∷ dah ∷ dit ∷ dah ∷ [])
    ∷ (",", dah ∷ dah ∷ dit ∷ dit ∷ dah ∷ dah ∷ [])
    ∷ []

pub data Action : Type 0 where
  key_on : Action
  key_off : Action
  wait : ℕ → Action

-- The tests of the stop event still to come, what was done, and whether it ended early.
pub record Played : Type 0 where
  pub stops : List Bool
  pub actions : List Action
  pub is_stopped : Bool

abbrev pub duration : Symbol → ℕ
duration dit = 1
duration dah = 3

-- `if i < len(xs) - 1: wait(n)`
abbrev pub gap {ℓ} : {A : Type ℓ} → ℕ → List A → List Action
gap n [] = []
gap n (x ∷ rest) = wait n ∷ []

-- A test of the stop event, then the given actions and what follows them.
pub unless_stopped : List Bool → List Action → (List Bool → Played) → Played
unless_stopped (true ∷ stops) actions next = record {
  stops = stops;
  actions = [];
  is_stopped = true;
}
unless_stopped (false ∷ stops) actions next =
    let r = next stops in record r { actions = actions ++ r.actions }
unless_stopped [] actions next = let r = next [] in record r { actions = actions ++ r.actions }

-- The symbols of a character, and then what comes after it.
pub play_code : List Symbol → List Bool → (List Bool → Played) → Played
play_code [] stops after = after stops
play_code (s ∷ rest) stops after =
    unless_stopped stops (key_on ∷ wait (duration s) ∷ key_off ∷ gap 1 rest)
      (λ stops'. play_code rest stops' after)

abbrev pub then_wait : List Action → Played → Played
then_wait pause r = record r { actions = pause ++ r.actions }

-- A character that the table lacks is passed over, with the pause that follows it.
pub play_char : Option (List Symbol) → List Action → List Bool → (List Bool → Played) → Played
play_char none pause stops after = after stops
play_char (some code) pause stops after = play_code code stops (λ s. then_wait pause (after s))

pub play_word : List String → List Bool → (List Bool → Played) → Played
play_word [] stops after = after stops
play_word (c ∷ rest) stops after =
    unless_stopped stops []
      (λ s. play_char (get c morse_table) (gap 3 rest) s (λ s'. play_word rest s' after))

-- `_play_once`
pub play_once : List (List String) → List Bool → Played
play_once [] stops = record { stops = stops; actions = []; is_stopped = false }
play_once (w ∷ rest) stops =
    unless_stopped stops [] (λ s. play_word w s (λ s'. then_wait (gap 7 rest) (play_once rest s')))

-- `start` refuses an empty message and a speed outside 1 to 60 words a minute.
pub is_playable : List (List String) → ℕ → Bool
is_playable [] wpm = false
is_playable (w ∷ rest) wpm = leb 1 wpm && leb wpm 60

-- What follows a pass that was not stopped: the end, or a pause and the next round.
next_round : Bool → List Action → Played → List Action
next_round repeat later r =
    if r.is_stopped || not repeat then r.actions else r.actions ++ wait 7 ∷ later

-- `_run`, for at most as many rounds as the first argument says; the last action is the `finally`.
pub run : ℕ → List (List String) → Bool → List Bool → List Action
unfolding next_round
run zero words repeat stops = key_off ∷ []
run (suc n) words repeat (true ∷ stops) = key_off ∷ []
run (suc n) words repeat (false ∷ stops) =
    let r = play_once words stops in
    let later = run n words repeat r.stops in
    next_round repeat later r ++ (if r.is_stopped || not repeat then key_off ∷ [] else [])
run (suc n) words repeat [] =
    let r = play_once words [] in
    let later = run n words repeat r.stops in
    next_round repeat later r ++ (if r.is_stopped || not repeat then key_off ∷ [] else [])
