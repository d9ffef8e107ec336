-- ===== src/Slots/Usb.antt =====
-- pi/portal.py: the name under which the kernel knows the USB device of a slot.
use Prim.Native.Char.{code}
use Prim.Native.String.{◌++◌ as str_append}
use text.Mathlib.Text.{starts_with}
use embedded_ai_harness.Prelude.{
  ℕ, zero, suc, ◌+◌, ◌-◌, ◌*◌, ◌≡◌, refl, String, Bool, ◌&&◌, Option, none, some, List, [], ◌∷◌,
  leb, ◌==◌, str_eq, if◌then◌else◌,
}
use embedded_ai_harness.Slots.{Slot}
use embedded_ai_harness.Slots.Config.{decimal}

abbrev skip : ℕ → String → String
skip zero s = s
skip (suc n) String.[] = ""
skip (suc n) (String.◌∷◌ c s) = skip n s

-- What follows the last "usb-" of a text.
unfoldable pub after_last_usb : String → Option String
after_last_usb String.[] = none
after_last_usb (String.◌∷◌ c s) = elim (after_last_usb s) [
  | some t ↦ some t
  | none ↦ if starts_with (String.◌∷◌ c s) "usb-" then some (skip 3 s) else none
]

-- A text up to its first colon, and what follows that colon, if there is one.
pub cut_colon : String → String × Option String
cut_colon String.[] = ("", none)
cut_colon (String.◌∷◌ c s) =
    let (a, rest) = cut_colon s in if code c == b':' then ("", some s) else (String.◌∷◌ c a, rest)

abbrev is_digit : ℕ → Bool
is_digit c = leb b'0' c && leb c b'9'

-- `int(text)` on plain decimal digits; `none` is the ValueError.
pub parse_digits : ℕ → String → Option ℕ
parse_digits acc String.[] = some acc
parse_digits acc (String.◌∷◌ c s) =
    let rest = parse_digits (acc * 10 + (code c - b'0')) s in
    if is_digit (code c) then rest else none

pub parse_int : String → Option ℕ
unfolding parse_digits
parse_int s = if str_eq s "" then none else parse_digits 0 s

-- f"{bus + 1}-{port_path}"
pub device_name : ℕ → String → String
unfolding decimal
device_name bus path = str_append (decimal (suc (suc bus)) (suc bus)) (str_append "-" path)

unfoldable pub slot_key_to_usb_device : String → Option String
unfolding after_last_usb cut_colon parse_int device_name
slot_key_to_usb_device slot_key = elim (after_last_usb slot_key) [
  | none ↦ none
  | some tail ↦
      let (bus, rest) = cut_colon tail in
      elim rest [
        | none ↦ none
        | some r ↦ elim (parse_int bus) [
          | none ↦ none
          | some n ↦ some (device_name n (cut_colon r).0)
        ]
      ]
]

-- `devnode or ""`
abbrev pub or_empty : Option String → String
or_empty none = ""
or_empty (some d) = d

-- `udev d` is what udevadm says of the devnode `d`; `_usb_device_from_devnode("")` is None.
unfoldable pub usb_device_for_slot : (String → Option String) → Slot → Option String
usb_device_for_slot udev slot =
    let d = or_empty slot.devnode in
    elim (slot_key_to_usb_device slot.slot_key) [
      | some u ↦ some u
      | none ↦ if str_eq d "" then none else udev d
    ]

from_id_path : slot_key_to_usb_device "platform-3f980000.usb-usb-0:1.1.2:1.0" ≡ some "1-1.1.2"
unfolding slot_key_to_usb_device
from_id_path = refl

from_fixed_key : slot_key_to_usb_device "_fixed_SLOT2" ≡ none
unfolding slot_key_to_usb_device
from_fixed_key = refl

-- A text put together, as an f-string does.
abbrev pub texts : List String → String
texts [] = ""
texts (t ∷ ts) = str_append t (texts ts)
