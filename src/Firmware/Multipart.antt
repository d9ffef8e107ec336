-- ===== src/Firmware/Multipart.antt =====
-- pi/portal.py: how a part of a multipart body is taken apart, the same in `_handle_firmware_upload` and in
-- `_parse_multipart`. Bytes are numbers.
pub mod Ends
mod Examples
use embedded_ai_harness.Prelude.{
  ℕ, Bool, true, false, not, ◌&&◌, ◌||◌, Option, none, some, List, [], ◌∷◌, ◌++◌, if◌then◌else◌,
  ◌==◌,
}

abbrev pub Bytes : Type 0
Bytes = List ℕ

-- What `bytes.strip()` strips.
pub is_space : ℕ → Bool
is_space b = b == 32 || b == 9 || b == 10 || b == 13 || b == 11 || b == 12

pub lstrip : Bytes → Bytes
unfolding is_space
lstrip [] = []
lstrip (b ∷ bs) = let rest = lstrip bs in if is_space b then rest else b ∷ bs

pub put_front : ℕ → Bytes → Bytes
unfolding is_space
put_front b [] = if is_space b then [] else b ∷ []
put_front b (c ∷ cs) = b ∷ c ∷ cs

pub rstrip : Bytes → Bytes
unfolding put_front
rstrip [] = []
rstrip (b ∷ bs) = put_front b (rstrip bs)

-- What follows the separator at the start.
pub after : Bytes → Bytes → Option Bytes
after [] bs = some bs
after (s ∷ ss) [] = none
after (s ∷ ss) (b ∷ bs) = let rest = after ss bs in if s == b then rest else none

abbrev pub Cut : Type 0
Cut = Option (Bytes × Bytes)

abbrev pub begin_with : ℕ → Cut → Cut
begin_with b none = none
begin_with b (some (front, rest)) = some (b ∷ front, rest)

abbrev pub here_or : Option Bytes → Cut → Cut
here_or (some rest) later = some ([], rest)
here_or none later = later

-- `bs.split(sep, 1)`, where `sep` is in it; it is not empty.
pub cut : Bytes → Bytes → Cut
unfolding after
cut sep [] = none
cut sep (b ∷ bs) = here_or (after sep (b ∷ bs)) (begin_with b (cut sep bs))

abbrev or_else : Cut → Cut → Cut
or_else none c = c
or_else (some p) c = some p

abbrev pub crlf2 : Bytes
crlf2 = 13 ∷ 10 ∷ 13 ∷ 10 ∷ []

-- `content[:-2]`, if it ends with "\r\n"
pub drop_crlf : Bytes → Bytes
drop_crlf [] = []
drop_crlf (a ∷ []) = a ∷ []
drop_crlf (a ∷ b ∷ []) = if a == 13 && b == 10 then [] else a ∷ b ∷ []
drop_crlf (a ∷ b ∷ c ∷ rest) = a ∷ drop_crlf (b ∷ c ∷ rest)

-- `not part or part == b"--"`
is_blank : Bytes → Bool
is_blank [] = true
is_blank (a ∷ b ∷ []) = a == 45 && b == 45
is_blank _ = false

abbrev pub with_content : Cut → Cut
with_content none = none
with_content (some (front, content)) = some (front, drop_crlf content)

-- The header section and the content of a part, as it stands between two boundaries; none where it is passed over.
pub parse_part : Bytes → Cut
unfolding lstrip rstrip is_blank cut drop_crlf
parse_part part =
    let p = rstrip (lstrip part) in
    if is_blank p then none else with_content (or_else (cut crlf2 p) (cut (10 ∷ 10 ∷ []) p))
