-- ===== src/Firmware/Examples.antt =====
-- pi/portal.py: the theorems on the firmware repository at concrete inputs. Texts are short names.
use embedded_ai_harness.Prelude.{none, [], ◌∷◌, ◌≡◌, refl}
use embedded_ai_harness.Mirror.{Text}
use embedded_ai_harness.Firmware.{Files, read, delete, deleted, has_dots, is_empty}
use embedded_ai_harness.Firmware.Paths.{delete-absolute}

-- "/fw", "p" and "a.bin"
abbrev root : Text
root = 47 ∷ 102 ∷ 119 ∷ []

abbrev project : Text
project = 112 ∷ []

abbrev image : Text
image = 97 ∷ 46 ∷ 98 ∷ 105 ∷ 110 ∷ []

-- "etc"
abbrev outside : Text
outside = 101 ∷ 116 ∷ 99 ∷ []

abbrev system : Files
system = (47 ∷ outside, 7 ∷ []) ∷ []

delete-absolute_example :
    let (files, r) = delete root project (47 ∷ outside) system in
    (r ≡ deleted) × (read (47 ∷ outside) files ≡ none)
unfolding is_empty has_dots read
delete-absolute_example = delete-absolute root project outside (7 ∷ []) system refl refl refl
