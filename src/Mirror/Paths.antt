-- ===== src/Mirror/Paths.antt =====
-- pi/tls_mirror_controller.py: no URL leads out of the firmware directory.
use embedded_ai_harness.Prelude.{
  ℕ, ◌≡◌, ◌≢◌, refl, subst, ap, Bool, true, false, ◌&&◌, Option, none, some, List, [], ◌∷◌,
  if-cases, ◌==◌, ==_iff, arith, All,
}
use embedded_ai_harness.Mirror.{
  Text, before_query, onto_first, split, equals, has, is_empty, is_allowed, firmware, join,
  from_parts, resolve_firmware_path, Mirror, served, do_get,
}

abbrev HasNoSlash : Text → Type 0
HasNoSlash = All (λ c. c ≢ 47)

onto_first-HasNoSlash :
    (c : ℕ) (ss : List Text) → c ≢ 47 → All HasNoSlash ss → All HasNoSlash (onto_first c ss)
onto_first-HasNoSlash c [] h k = ((h, tt), tt)
onto_first-HasNoSlash c (s ∷ ss) h k = ((h, k.0), k.1)

split-HasNoSlash : (path : Text) → All HasNoSlash (split path)
unfolding split
split-HasNoSlash [] = (tt, tt)
split-HasNoSlash (c ∷ rest) =
    if-cases (All HasNoSlash) (c == 47) _ _ (λ e. (tt, split-HasNoSlash rest))
      (λ e.
        onto_first-HasNoSlash c (split rest) (ground (arith, e, ==_iff c 47))
          (split-HasNoSlash rest))

-- A name of an entry of a directory: not empty, not "." and not "..", and without slash, backslash and NUL.
pub record IsName (t : Text) : Type 0 where
  pub some_text : t ≢ []
  pub no_dot : t ≢ 46 ∷ []
  pub no_dots : t ≢ 46 ∷ 46 ∷ []
  pub no_slash : HasNoSlash t
  pub no_backslash : All (λ c. c ≢ 92) t
  pub no_nul : All (λ c. c ≢ 0) t

-- A path two levels below the directory.
abbrev pub IsBelow : Text → Text → Type 0
IsBelow dir path =
    (project : Text) × ((filename : Text) × (path ≡ join (join dir project) filename)
      × IsName project
      × IsName filename)

equals_refl : (t : Text) → equals t t ≡ true
unfolding equals
equals_refl [] = refl
equals_refl (c ∷ t) = ground (arith, equals_refl t)

equals-differs : (t u : Text) → equals t u ≡ false → t ≢ u
equals-differs t u h e = ground (arith, h, subst (λ v. equals t v ≡ true) e (equals_refl t))

has-free : (c : ℕ) (t : Text) → has c t ≡ false → All (λ x. x ≢ c) t
unfolding has
has-free c [] h = tt
has-free c (x ∷ t) h = (ground (arith, h), has-free c t (ground (arith, h)))

is_empty-differs : (t : Text) → is_empty t ≡ false → t ≢ []
is_empty-differs t h e = ground (arith, h, ap is_empty e)

is_allowed-IsName : (t : Text) → is_allowed t ≡ true → HasNoSlash t → IsName t
unfolding is_allowed
is_allowed-IsName t h slash = record {
  some_text = is_empty-differs t (ground (arith, h));
  no_dot = equals-differs t (46 ∷ []) (ground (arith, h));
  no_dots = equals-differs t (46 ∷ 46 ∷ []) (ground (arith, h));
  no_slash = slash;
  no_backslash = has-free 92 t (ground (arith, h));
  no_nul = has-free 0 t (ground (arith, h));
}

abbrev IsConfined : Text → Option Text → Type 0
IsConfined dir none = Unit
IsConfined dir (some path) = IsBelow dir path

both : (a b c : Bool) → (a && (b && c)) ≡ true → (b ≡ true) × (c ≡ true)
both true true true h = (refl, refl)
both true true false h = absurd (ground (arith, h))
both true false c h = absurd (ground (arith, h))
both false b c h = absurd (ground (arith, h))

from_parts-IsConfined :
    (dir : Text) (parts : List Text) → All HasNoSlash parts → IsConfined dir (from_parts dir parts)
unfolding from_parts
from_parts-IsConfined dir ([] ∷ head ∷ project ∷ filename ∷ []) h =
    if-cases (IsConfined dir) (equals head firmware && (is_allowed project && is_allowed filename))
      _ _
      (λ e.
        let ok = both (equals head firmware) (is_allowed project) (is_allowed filename) e in
        (
          project,
          (
            filename,
            refl,
            is_allowed-IsName project ok.0 h.1.1.0,
            is_allowed-IsName filename ok.1 h.1.1.1.0,
          ),
        ))
      (λ e. tt)
from_parts-IsConfined dir [] h = tt
from_parts-IsConfined dir ([] ∷ []) h = tt
from_parts-IsConfined dir ([] ∷ a ∷ []) h = tt
from_parts-IsConfined dir ([] ∷ a ∷ b ∷ []) h = tt
from_parts-IsConfined dir ([] ∷ a ∷ b ∷ c ∷ d ∷ rest) h = tt
from_parts-IsConfined dir ((x ∷ xs) ∷ rest) h = tt

served-IsConfined :
    (dir : Text) (is_file : Text → Bool) (o : Option Text)
    → IsConfined dir o
    → IsConfined dir (served is_file o)
served-IsConfined dir is_file none h = tt
served-IsConfined dir is_file (some path) h =
    if-cases (IsConfined dir) (is_file path) _ _ (λ e. h) (λ e. tt)

-- Whatever URL is asked for: a file that is served stands two levels below the firmware directory, by two names
-- without a slash that are not empty, not "." and not "..", and have neither a backslash nor a NUL.
pub do_get-IsBelow :
    (is_file : Text → Bool) (m : Mirror) (url path : Text)
    → do_get is_file m url ≡ some path
    → IsBelow m.firmware_dir path
unfolding do_get resolve_firmware_path
do_get-IsBelow is_file m url path e = subst (IsConfined m.firmware_dir) e (
    served-IsConfined m.firmware_dir is_file _ (
      from_parts-IsConfined m.firmware_dir (split (before_query url))
        (split-HasNoSlash (before_query url))))
