-- ===== src/Prelude/Dict.antt =====
-- A Python dictionary with text keys, in insertion order: a write to a present key keeps its place,
-- a new key goes to the end.
use Prim.Native.String.{String}
use mathlib.Core.Path.{◌≡◌, refl, subst}
use mathlib.Core.Logic.{inl, inr}
use mathlib.Core.Option.{Option, none, some, some-injective}
use mathlib.Core.List.{List, [], ◌∷◌}
use native.Mathlib.Omega.{arith}
use text.Mathlib.Text.{◌==◌}
use text.Mathlib.TextEquality.{eq_iff}
use embedded_ai_harness.Prelude.Tests.{if◌then◌else◌, Bool-cases}
use embedded_ai_harness.Prelude.Lists.{All}

abbrev pub Dict {ℓ} : Type ℓ → Type ℓ
Dict V = List (String × V)

module _ {ℓ} {V : Type ℓ} where
  unfoldable pub get : String → Dict V → Option V
  get k [] = none
  get k ((j, v) ∷ m) = if j == k then some v else get k m

  unfoldable pub put : String → V → Dict V → Dict V
  put k v [] = (k, v) ∷ []
  put k v ((j, w) ∷ m) = if j == k then (k, v) ∷ m else (j, w) ∷ put k v m

  unfoldable pub pop : String → Dict V → Dict V
  pop k [] = []
  pop k ((j, v) ∷ m) = let rest = pop k m in if j == k then rest else (j, v) ∷ rest

  pub get-put :
      (k j : String) (v : V) (m : Dict V) → get j (put k v m) ≡ (if k == j then some v else get j m)
  unfolding get put
  get-put k j v [] = refl
  get-put k j v ((i, w) ∷ m) = ground (arith, eq_iff k j, eq_iff i k, eq_iff i j, get-put k j v m)

  pub get-pop : (k j : String) (m : Dict V) → get j (pop k m) ≡ (if k == j then none else get j m)
  unfolding get pop
  get-pop k j [] = ground arith
  get-pop k j ((i, w) ∷ m) = ground (arith, eq_iff k j, eq_iff i k, eq_iff i j, get-pop k j m)

  -- No key stands twice.
  abbrev pub IsUnique : Dict V → Type ℓ
  IsUnique [] = Unit
  IsUnique ((j, v) ∷ m) = (get j m ≡ none) × IsUnique m

  pub put-IsUnique : (k : String) (v : V) (m : Dict V) → IsUnique m → IsUnique (put k v m)
  unfolding get put
  put-IsUnique k v [] h = ground arith
  put-IsUnique k v ((j, w) ∷ m) h =
      ground (arith, eq_iff j k, eq_iff k j, get-put k j v m, put-IsUnique k v m h.1)

  pub pop-IsUnique : (k : String) (m : Dict V) → IsUnique m → IsUnique (pop k m)
  unfolding get pop
  pop-IsUnique k [] h = tt
  pop-IsUnique k ((j, v) ∷ m) h = ground (arith, get-pop k j m, pop-IsUnique k m h.1)

  -- Taking out a key that a fresh write put in gives the dictionary back.
  pub pop-put : (k : String) (v : V) (m : Dict V) → get k m ≡ none → pop k (put k v m) ≡ m
  unfolding get put pop
  pop-put k v [] h = ground (arith, eq_iff k k)
  pop-put k v ((j, w) ∷ m) h = ground (arith, pop-put k v m)

-- What all values of a dictionary have.
module _ {ℓ κ} {V : Type ℓ} (P : V → Type κ) where
  abbrev pub Values : Dict V → Type κ
  Values d = All (λ kv. P kv.1) d

  pub put-Values : (k : String) (v : V) (d : Dict V) → P v → Values d → Values (put k v d)
  unfolding put
  put-Values k v [] c h = (c, tt)
  put-Values k v ((j, w) ∷ d) c h = elim (Bool-cases (j == k)) [
    | inl e ↦ rw e (c, h.1)
    | inr e ↦ rw e (h.0, put-Values k v d c h.1)
  ]

  pub get-Values : (k : String) (v : V) (d : Dict V) → Values d → get k d ≡ some v → P v
  unfolding get
  get-Values k v [] h e = absurd (ground (arith, e))
  get-Values k v ((j, w) ∷ d) h e = elim (Bool-cases (j == k)) [
    | inl same ↦ subst P (some-injective w v (rw same at e)) h.0
    | inr other ↦ get-Values k v d h.1 (rw other at e)
  ]
