-- ===== src/Progress/Results.antt =====
-- pi/portal.py: that the session keeps every result, in order.
use embedded_ai_harness.Prelude.{
  false, Option, none, some, List, [], ◌∷◌, ◌++◌, ◌≡◌, arith, refl, All, ap, sym, ◌∙◌,
}
use embedded_ai_harness.Progress.{Session, Update, update, amend, started, recorded}

module _ {A : Type 0} where
  abbrev pub results : List (Update A) → List A
  results [] = []
  results (u ∷ rest) = elim u.result [ none ↦ results rest | some r ↦ r ∷ results rest ]

  pub update_all : List (Update A) → Option (Session A) → Option (Session A)
  update_all [] s = s
  update_all (u ∷ rest) s = update_all rest (update (some u) s).0

  -- An update of a session that runs: it neither ends it nor starts another.
  abbrev pub IsPlain : Update A → Type 0
  IsPlain u = (u.ends ≡ false) × (u.spec ≡ none)

  abbrev pub completed_of : Option (Session A) → List A
  completed_of none = []
  completed_of (some s) = s.completed

  update-plain :
      (u : Update A) (s : Session A) → IsPlain u → (update (some u) (some s)).0 ≡ some (amend u s)
  unfolding update started
  update-plain u s h = ground (arith, h)

  append_one : (xs : List A) (a : A) (ys : List A) → (xs ++ a ∷ []) ++ ys ≡ xs ++ a ∷ ys
  append_one [] a ys = refl
  append_one (x ∷ xs) a ys = ap (λ l. x ∷ l) (append_one xs a ys)

  append_none : (xs : List A) → xs ++ [] ≡ xs
  append_none [] = refl
  append_none (x ∷ xs) = ap (λ l. x ∷ l) (append_none xs)

  -- What a result adds to those that are there.
  recorded-completed :
      (r : Option A) (s : Session A) (ys : List A)
      → (recorded r s).completed ++ ys ≡ s.completed ++ (elim r [ none ↦ ys | some a ↦ a ∷ ys ])
  unfolding recorded
  recorded-completed none s ys = refl
  recorded-completed (some a) s ys = append_one s.completed a ys

  amend-completed :
      (u : Update A) (s : Session A) (ys : List A)
      → (amend u s).completed ++ ys ≡ s.completed ++ (elim u.result [ none ↦ ys | some a ↦ a ∷ ys ])
  unfolding amend
  amend-completed u s ys = recorded-completed u.result _ ys

  -- However many updates come while a session runs, it holds the results that it had and those of the
  -- updates, each once and in the order in which they came.
  pub update_all-completed :
      (us : List (Update A)) (s : Session A)
      → All IsPlain us
      → completed_of (update_all us (some s)) ≡ s.completed ++ results us
  unfolding update_all
  update_all-completed [] s h = sym (append_none s.completed)
  update_all-completed (u ∷ rest) s h =
      rw (update-plain u s h.0)
        (update_all-completed rest (amend u s) h.1 ∙ amend-completed u s (results rest))
