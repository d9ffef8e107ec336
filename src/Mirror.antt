-- ===== src/Mirror.antt =====
-- pi/tls_mirror_controller.py: which file of the firmware directory a URL names, and the server's start and
-- stop. A text is the list of its code points; 47 is a slash. Certificates, sockets and threads are left out.
pub mod Paths
mod Examples
use embedded_ai_harness.Prelude.{
  ℕ, Bool, true, false, not, ◌&&◌, ◌||◌, Option, none, some, List, [], ◌∷◌, ◌++◌, if◌then◌else◌,
  ◌==◌,
}

abbrev pub Text : Type 0
Text = List ℕ

-- `url_path.split("?", 1)[0]`
pub before_query : Text → Text
before_query [] = []
before_query (c ∷ rest) = let more = before_query rest in if c == 63 then [] else c ∷ more

abbrev pub onto_first : ℕ → List Text → List Text
onto_first c [] = (c ∷ []) ∷ []
onto_first c (s ∷ ss) = (c ∷ s) ∷ ss

-- `path.split("/")`
unfoldable pub split : Text → List Text
split [] = [] ∷ []
split (c ∷ rest) = let more = split rest in if c == 47 then [] ∷ more else onto_first c more

unfoldable pub equals : Text → Text → Bool
equals [] [] = true
equals [] (b ∷ bs) = false
equals (a ∷ as') [] = false
equals (a ∷ as') (b ∷ bs) = (a == b) && equals as' bs

unfoldable pub has : ℕ → Text → Bool
has c [] = false
has c (x ∷ xs) = (x == c) || has c xs

abbrev pub is_empty : Text → Bool
is_empty [] = true
is_empty (c ∷ cs) = false

-- The test of a segment: not empty, not "." or "..", without a backslash and without a NUL.
pub is_allowed : Text → Bool
unfolding equals has
is_allowed seg =
    not
      (is_empty seg || equals seg (46 ∷ []) || equals seg (46 ∷ 46 ∷ []) || has 92 seg || has 0 seg)

abbrev pub firmware : Text
firmware = 102 ∷ 105 ∷ 114 ∷ 109 ∷ 119 ∷ 97 ∷ 114 ∷ 101 ∷ []

unfoldable pub ends_open : Text → Bool
ends_open [] = true
ends_open (c ∷ []) = c == 47
ends_open (c ∷ d ∷ rest) = ends_open (d ∷ rest)

-- os.path.join, for a second part that does not begin with a slash.
unfoldable pub join : Text → Text → Text
unfolding ends_open
join dir part = if ends_open dir then dir ++ part else dir ++ 47 ∷ part

pub from_parts : Text → List Text → Option Text
unfolding is_allowed equals join
from_parts dir ([] ∷ head ∷ project ∷ filename ∷ []) =
    if equals head firmware && (is_allowed project && is_allowed filename)
    then some (join (join dir project) filename)
    else none
from_parts dir parts = none

pub resolve_firmware_path : Text → Text → Option Text
unfolding from_parts split before_query
resolve_firmware_path firmware_dir url_path =
    from_parts firmware_dir (split (before_query url_path))

-- `_httpd` and `_firmware_dir`.
pub record Mirror : Type 0 where
  pub running : Bool
  pub firmware_dir : Text

-- `start`; it raises, and changes at most the directory, where the certificate or the port fails.
pub start : Bool → Bool → Text → Mirror → Mirror
start has_cert binds dir m =
    if m.running
    then m
    else if not has_cert
    then m
    else if not binds
    then record m { firmware_dir = dir }
    else record { running = true; firmware_dir = dir }

-- `stop`: the state, and whether it was running.
pub stop : Mirror → Mirror × Bool
stop m = (record m { running = false }, m.running)

needs_new_cert : Bool → Bool → Bool
needs_new_cert cert_exists key_exists = not (cert_exists && key_exists)

-- What `do_GET` serves: the file of the path, where it is a file.
abbrev served : (Text → Bool) → Option Text → Option Text
served is_file none = none
served is_file (some path) = if is_file path then some path else none

pub do_get : (Text → Bool) → Mirror → Text → Option Text
unfolding resolve_firmware_path
do_get is_file m url = served is_file (resolve_firmware_path m.firmware_dir url)
