-- ===== src/Slots/Lease/Tokens.antt =====
-- pi/portal.py `slot_by_token`: which lease a token names.
use embedded_ai_harness.Prelude.{
  String, ◌≡◌, ◌≢◌, inl, inr, none, some, Option-cases, [], ◌∷◌, arith, eq_iff,
}
use embedded_ai_harness.Prelude.Dict.{Dict, IsUnique, get}
use embedded_ai_harness.Slots.Lease.{Grant, by_token}

-- No two leases have one token.
abbrev pub TokensDiffer : Dict Grant → Type 0
TokensDiffer m =
    (l k : String) (g h : Grant) → get l m ≡ some g → get k m ≡ some h → g.token ≡ h.token → l ≡ k

pub by_token_sound :
    (t l : String) (g : Grant) (m : Dict Grant)
    → IsUnique m
    → by_token t m ≡ some (l, g)
    → (get l m ≡ some g) × (g.token ≡ t)
unfolding by_token get
by_token_sound t l g [] u h = ground arith
by_token_sound t l g ((k, f) ∷ m) u h =
    ground (arith, eq_iff f.token t, eq_iff k l, by_token_sound t l g m u.1)

pub by_token-ne-none :
    (l : String) (g : Grant) (m : Dict Grant) → get l m ≡ some g → by_token g.token m ≢ none
unfolding by_token get
by_token-ne-none l g [] h = ground arith
by_token-ne-none l g ((k, f) ∷ m) h =
    ground (arith, eq_iff f.token g.token, eq_iff k l, by_token-ne-none l g m)

-- In a table of distinct keys and tokens the token of a lease names that lease.
pub by_token_lem :
    (l : String) (g : Grant) (m : Dict Grant)
    → IsUnique m
    → TokensDiffer m
    → get l m ≡ some g
    → by_token g.token m ≡ some (l, g)
by_token_lem l g m u d h = elim (Option-cases (by_token g.token m)) [
  | inl missing ↦ absurd (by_token-ne-none l g m h missing)
  | inr (found, e) ↦
      let both = by_token_sound g.token found.0 found.1 m u e in
      ground (arith, d l found.0 g found.1 h both.0)
]
