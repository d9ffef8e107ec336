-- ===== src/Firmware/Multipart/Examples.antt =====
-- pi/portal.py: a part of a multipart body.
use embedded_ai_harness.Prelude.{some, [], ◌∷◌, ◌++◌, ◌≡◌, refl}
use embedded_ai_harness.Firmware.Multipart.{parse_part, crlf2, cut, after, is_space}
use embedded_ai_harness.Firmware.Multipart.Ends.{parse_part-ends}

-- A header section "h", and a file of the bytes 7, 8, 10 and 32.
parse_part-ends_example :
    parse_part (13 ∷ 10 ∷ 104 ∷ ([] ++ (crlf2 ++ (7 ∷ [] ++ 8 ∷ (10 ∷ 32 ∷ [] ++ 13 ∷ 10 ∷ [])))))
    ≡ some (104 ∷ [], 7 ∷ [] ++ 8 ∷ [])
unfolding cut after is_space
parse_part-ends_example =
    parse_part-ends 104 8 [] (7 ∷ []) (10 ∷ 32 ∷ []) refl refl refl (refl, (refl, tt))
