-- ===== src/Mirror/Examples.antt =====
-- pi/tls_mirror_controller.py: the firmware "b" of the project "a", asked for with a query.
use embedded_ai_harness.Prelude.{◌≡◌, refl, true, some, [], ◌∷◌, ◌++◌}
use embedded_ai_harness.Mirror.{
  Text, Mirror, firmware, before_query, split, equals, has, is_allowed, ends_open, join, from_parts,
  resolve_firmware_path, do_get,
}
use embedded_ai_harness.Mirror.Paths.{IsBelow, do_get-IsBelow}

abbrev mirror : Mirror
mirror = record { running = true; firmware_dir = 47 ∷ 115 ∷ [] }

-- "/firmware/a/b?v"
abbrev url : Text
url = 47 ∷ firmware ++ 47 ∷ 97 ∷ 47 ∷ 98 ∷ 63 ∷ 118 ∷ []

-- "/s/a/b"
abbrev path : Text
path = 47 ∷ 115 ∷ 47 ∷ 97 ∷ 47 ∷ 98 ∷ []

resolved_url : do_get (λ p. true) mirror url ≡ some path
unfolding do_get resolve_firmware_path from_parts split before_query is_allowed equals has join
    ends_open
resolved_url = refl

do_get-IsBelow_example : IsBelow mirror.firmware_dir path
do_get-IsBelow_example = do_get-IsBelow (λ p. true) mirror url path resolved_url
