-- ===== src/Rf/Morse/Silence.antt =====
-- pi/morse.py: the key is up whenever a pass ends.
use embedded_ai_harness.Prelude.{
  ℕ, String, Bool, true, false, Option, none, some, List, [], ◌∷◌, ◌++◌, ◌≡◌, refl, ◌∙◌, ap,
}
use embedded_ai_harness.Prelude.Dict.{get}
use embedded_ai_harness.Rf.Morse.{
  Action, key_on, key_off, wait, Symbol, Played, gap, duration, unless_stopped, play_code,
  play_word, play_once, morse_table, play_char, then_wait,
}

-- Whether the key is down after the actions.
pub is_down : List Action → Bool → Bool
is_down [] b = b
is_down (key_on ∷ rest) b = is_down rest true
is_down (key_off ∷ rest) b = is_down rest false
is_down (wait n ∷ rest) b = is_down rest b

abbrev IsUp : List Action → Type 0
IsUp xs = is_down xs false ≡ false

is_down-append : (xs ys : List Action) (b : Bool) → is_down (xs ++ ys) b ≡ is_down ys (is_down xs b)
unfolding is_down
is_down-append [] ys b = refl
is_down-append (key_on ∷ xs) ys b = is_down-append xs ys true
is_down-append (key_off ∷ xs) ys b = is_down-append xs ys false
is_down-append (wait n ∷ xs) ys b = is_down-append xs ys b

IsUp-append : (xs ys : List Action) → IsUp xs → IsUp ys → IsUp (xs ++ ys)
IsUp-append xs ys h k = is_down-append xs ys false ∙ ap (is_down ys) h ∙ k

IsUp-gap : {A : Type 0} (n : ℕ) (xs : List A) → IsUp (gap n xs)
unfolding is_down
IsUp-gap n [] = refl
IsUp-gap n (x ∷ xs) = refl

unless_stopped-IsUp :
    (stops : List Bool) (actions : List Action) (next : List Bool → Played)
    → IsUp actions
    → ((s : List Bool) → IsUp (next s).actions)
    → IsUp (unless_stopped stops actions next).actions
unfolding unless_stopped is_down
unless_stopped-IsUp (true ∷ stops) actions next h k = refl
unless_stopped-IsUp (false ∷ stops) actions next h k = IsUp-append actions _ h (k stops)
unless_stopped-IsUp [] actions next h k = IsUp-append actions _ h (k [])

play_code-IsUp :
    (code : List Symbol) (stops : List Bool) (after : List Bool → Played)
    → ((s : List Bool) → IsUp (after s).actions)
    → IsUp (play_code code stops after).actions
unfolding play_code is_down
play_code-IsUp [] stops after k = k stops
play_code-IsUp (s ∷ rest) stops after k =
    unless_stopped-IsUp stops (key_on ∷ wait (duration s) ∷ key_off ∷ gap 1 rest)
      (λ s'. play_code rest s' after) (IsUp-gap 1 rest) (λ s'. play_code-IsUp rest s' after k)

play_char-IsUp :
    (code : Option (List Symbol)) (pause : List Action) (stops : List Bool)
    (after : List Bool → Played)
    → IsUp pause
    → ((s : List Bool) → IsUp (after s).actions)
    → IsUp (play_char code pause stops after).actions
unfolding play_char
play_char-IsUp none pause stops after h k = k stops
play_char-IsUp (some code) pause stops after h k =
    play_code-IsUp code stops (λ s. then_wait pause (after s))
      (λ s. IsUp-append pause (after s).actions h (k s))

play_word-IsUp :
    (word : List String) (stops : List Bool) (after : List Bool → Played)
    → ((s : List Bool) → IsUp (after s).actions)
    → IsUp (play_word word stops after).actions
unfolding play_word is_down
play_word-IsUp [] stops after k = k stops
play_word-IsUp (c ∷ rest) stops after k =
    unless_stopped-IsUp stops []
      (λ s. play_char (get c morse_table) (gap 3 rest) s (λ s'. play_word rest s' after)) refl
      (λ s.
        play_char-IsUp (get c morse_table) (gap 3 rest) s (λ s'. play_word rest s' after)
          (IsUp-gap 3 rest) (λ s'. play_word-IsUp rest s' after k))

-- Wherever the stop event cuts a pass of a message short, and where none does: a pass that begins with
-- the key up ends with the key up.
pub play_once-IsUp :
    (words : List (List String)) (stops : List Bool)
    → is_down (play_once words stops).actions false ≡ false
unfolding play_once is_down
play_once-IsUp [] stops = refl
play_once-IsUp (w ∷ rest) stops =
    unless_stopped-IsUp stops []
      (λ s. play_word w s (λ s'. then_wait (gap 7 rest) (play_once rest s'))) refl
      (λ s.
        play_word-IsUp w s (λ s'. then_wait (gap 7 rest) (play_once rest s'))
          (λ s'.
            IsUp-append (gap 7 rest) (play_once rest s').actions (IsUp-gap 7 rest)
              (play_once-IsUp rest s')))
