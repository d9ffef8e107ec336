-- ===== src/Slots/Recovery/Requests.antt =====
-- pi/portal.py `_handle_gpio_set`: pins that a client of the portal drives. A pin's calls are those of the
-- recovery.
use embedded_ai_harness.Prelude.{
  ℕ, ◌≡◌, ◌≢◌, refl, ap, ◌∙◌, Bool, true, false, not, ◌&&◌, Option, none, some, List, [], ◌∷◌,
  if◌then◌else◌, if-cases, leb, arith,
}
use embedded_ai_harness.Slots.Recovery.{Pins, Level, Host, gpio_set}
use embedded_ai_harness.Slots.Recovery.Boot.{gpio_set-other}

-- The values of the body: `pin`, a number or something else; `value`, which may be one of 0, 1 and "z".
pub data Pin : Type 0 where
  number : ℕ → Pin
  no_number : Pin

pub data Value : Type 0 where
  level : Level → Value
  no_level : Value

pub data Answer : Type 0 where
  empty_body missing not_allowed bad_value failed done : Answer

-- GPIO_ALLOWED
unfoldable pub is_allowed : ℕ → Bool
is_allowed pin = leb 16 pin && leb pin 27

abbrev answered : Pins × Bool → Pins × Answer
answered (b, false) = (b, failed)
answered (b, true) = (b, done)

driven_to : Host → ℕ → Value → Pins → Pins × Answer
unfolding gpio_set
driven_to host pin no_level b = (b, bad_value)
driven_to host pin (level l) b = answered (gpio_set host pin l b)

checked : Host → Pin → Value → Pins → Pins × Answer
unfolding driven_to is_allowed
checked host no_number v b = (b, not_allowed)
checked host (number pin) v b =
    if not (is_allowed pin) then (b, not_allowed) else driven_to host pin v b

with_both : Host → Option Pin → Option Value → Pins → Pins × Answer
unfolding checked
with_both host (some p) (some v) b = checked host p v b
with_both host p v b = (b, missing)

-- `none` is an empty body.
handle_gpio_set : Host → Option (Option Pin × Option Value) → Pins → Pins × Answer
unfolding with_both
handle_gpio_set host none b = (b, empty_body)
handle_gpio_set host (some (p, v)) b = with_both host p v b

pub handle_all : Host → List (Option (Option Pin × Option Value)) → Pins → Pins
unfolding handle_gpio_set
handle_all host [] b = b
handle_all host (body ∷ rest) b = handle_all host rest (handle_gpio_set host body b).0

answered-line : (b : Pins) (ok : Bool) (pin : ℕ) → (answered (b, ok)).0.line pin ≡ b.line pin
answered-line b false pin = refl
answered-line b true pin = refl

driven_to-other :
    (host : Host) (pin other : ℕ) (v : Value) (b : Pins)
    → pin ≢ other
    → (driven_to host pin v b).0.line other ≡ b.line other
unfolding driven_to
driven_to-other host pin other no_level b h = refl
driven_to-other host pin other (level l) b h =
    let (b', ok) = gpio_set host pin l b in
    answered-line b' ok other ∙ gpio_set-other host pin other l b h

clash : (p pin : ℕ) → not (is_allowed p) ≡ false → is_allowed pin ≡ false → p ≡ pin → ⊥
clash p pin e h same = ground (arith, e, h, ap is_allowed same)

handle_gpio_set-other :
    (host : Host) (body : Option (Option Pin × Option Value)) (b : Pins) (pin : ℕ)
    → is_allowed pin ≡ false
    → (handle_gpio_set host body b).0.line pin ≡ b.line pin
unfolding handle_gpio_set with_both checked
handle_gpio_set-other host none b pin h = refl
handle_gpio_set-other host (some (none, v)) b pin h = refl
handle_gpio_set-other host (some (some p, none)) b pin h = refl
handle_gpio_set-other host (some (some no_number, some v)) b pin h = refl
handle_gpio_set-other host (some (some (number p), some v)) b pin h =
    let P : Pins × Answer → Type 0 = λ (b', a). b'.line pin ≡ b.line pin in
    if-cases P (not (is_allowed p)) _ _ (λ e. refl)
      (λ e. driven_to-other host p pin v b (λ same. clash p pin e h same))

-- Whatever bodies `_handle_gpio_set` is given, one after the other, and whichever calls fail: a pin outside the
-- allowed ones, 16 to 27, is as it was.
pub handle_all-forbidden :
    (host : Host) (bodies : List (Option (Option Pin × Option Value))) (b : Pins) (pin : ℕ)
    → is_allowed pin ≡ false
    → (handle_all host bodies b).line pin ≡ b.line pin
unfolding handle_all
handle_all-forbidden host [] b pin h = refl
handle_all-forbidden host (body ∷ rest) b pin h =
    handle_all-forbidden host rest (handle_gpio_set host body b).0 pin h
    ∙ handle_gpio_set-other host body b pin h
