-- ===== src/Prelude/Lists.antt =====
-- Lists measured by native numbers, under the library's names, and predicates on their members.
use Prim.Native.Nat.{ℕ, zero, suc, ◌+◌, ◌-◌, ◌≤◌}
use mathlib.Core.Path.{◌≡◌, refl, sym, ap, ◌∙◌}
use mathlib.Core.List.{List, map, [], ◌∷◌, ◌++◌, append_assoc, append-nil}
use mathlib.Core.Logic.{◌⊎◌, inl, inr}
use mathlib.Core.Bool.{Bool, true, false}
use native.Mathlib.Nat.{zero-add, suc-add}
use native.Mathlib.Omega.{arith}
use embedded_ai_harness.Prelude.Tests.{if◌then◌else◌, if-cases}

module _ {ℓ} {A : Type ℓ} where
  abbrev pub length : List A → ℕ
  length [] = 0
  length (x ∷ xs) = suc (length xs)

  abbrev pub drop : ℕ → List A → List A
  drop zero xs = xs
  drop (suc n) [] = []
  drop (suc n) (x ∷ xs) = drop n xs

  abbrev pub take : ℕ → List A → List A
  take zero xs = []
  take (suc n) [] = []
  take (suc n) (x ∷ xs) = x ∷ take n xs

  -- `deque(maxlen = n).append(x)`: the oldest entries go.
  abbrev pub push : ℕ → List A → A → List A
  push n xs x = drop (length xs + 1 - n) (xs ++ x ∷ [])

  -- `[x for x in xs if p(x)]`
  unfoldable pub keep : (A → Bool) → List A → List A
  keep p [] = []
  keep p (x ∷ xs) = let rest = keep p xs in if p x then x ∷ rest else rest

  abbrev pub All {κ} : (A → Type κ) → List A → Type κ
  All P [] = Unit
  All P (x ∷ xs) = P x × All P xs

  pub length-append : (xs ys : List A) → length (xs ++ ys) ≡ length xs + length ys
  length-append [] ys = omega arith
  length-append (x ∷ xs) ys = omega (arith, length-append xs ys)

  -- The entries appended in turn.
  abbrev pub push_all : ℕ → List A → List A → List A
  push_all n xs [] = xs
  push_all n xs (y ∷ ys) = push_all n (push n xs y) ys

  pub length-drop : (n : ℕ) (xs : List A) → length (drop n xs) ≡ length xs - n
  length-drop zero xs = omega arith
  length-drop (suc n) [] = omega arith
  length-drop (suc n) (x ∷ xs) = omega (arith, length-drop n xs)

  pub length-take : (n : ℕ) (xs : List A) → n ≤ length xs → length (take n xs) ≡ n
  length-take zero xs h = refl
  length-take (suc n) [] h = omega (arith, h)
  length-take (suc n) (x ∷ xs) h = ap suc (length-take n xs (omega (arith, h)))

  pub drop-drop : (m n : ℕ) (xs : List A) → drop m (drop n xs) ≡ drop (n + m) xs
  drop-drop m zero xs = simp zero-add
  drop-drop zero (suc n) [] = simp suc-add
  drop-drop (suc m) (suc n) [] = simp suc-add
  drop-drop m (suc n) (x ∷ xs) = rw suc-add (drop-drop m n xs)

  pub append-drop : (n : ℕ) (xs ys : List A) → n ≤ length xs → drop n xs ++ ys ≡ drop n (xs ++ ys)
  append-drop zero xs ys h = refl
  append-drop (suc n) [] ys h = ground arith
  append-drop (suc n) (x ∷ xs) ys h = append-drop n xs ys (omega (arith, h))

  pub drop-append : (n : ℕ) (xs ys : List A) → drop (length xs + n) (xs ++ ys) ≡ drop n ys
  drop-append n [] ys = rw zero-add refl
  drop-append n (x ∷ xs) ys = rw suc-add (drop-append n xs ys)

  -- A bounded buffer holds the last entries.
  pub push_all_lem :
      (n : ℕ) (xs ys : List A)
      → length xs ≤ n
      → push_all n xs ys ≡ drop (length xs + length ys - n) (xs ++ ys)
  push_all_lem n xs [] h =
      let e : length xs + 0 - n ≡ 0 = omega (arith, h) in
      sym (ap (λ k. drop k (xs ++ [])) e ∙ append-nil xs)
  push_all_lem n xs (y ∷ ys) h =
      let j = length xs + 1 - n in
      let count = length-append xs (y ∷ []) in
      let rest = length-drop j (xs ++ y ∷ []) in
      let m = length (drop j (xs ++ y ∷ [])) + length ys - n in
      let sum : j + m ≡ length xs + length (y ∷ ys) - n = omega (arith, h, count, rest) in
      push_all_lem n (push n xs y) ys (omega (arith, h, count, rest))
      ∙ ap (drop m) (append-drop j (xs ++ y ∷ []) ys (omega (arith, h, count)))
      ∙ drop-drop m j (xs ++ y ∷ [] ++ ys)
      ∙ ap (λ k. drop k (xs ++ y ∷ [] ++ ys)) sum
      ∙ ap (drop (length xs + length (y ∷ ys) - n)) (append_assoc xs (y ∷ []) ys)

  pub length-keep : (p : A → Bool) (xs : List A) → length (keep p xs) ≤ length xs
  unfolding keep
  length-keep p [] = omega arith
  length-keep p (x ∷ xs) = ground (arith, length-keep p xs)

module _ {ℓ κ} {A : Type ℓ} (P : A → Type κ) where
  pub All-append : (xs ys : List A) → All P xs → All P ys → All P (xs ++ ys)
  All-append [] ys h k = k
  All-append (x ∷ xs) ys h k = (h.0, All-append xs ys h.1 k)

-- `x` stands in the list.
module _ {A : Type 0} where
  abbrev pub In : A → List A → Type 0
  In x [] = ⊥
  In x (y ∷ ys) = (x ≡ y) ⊎ In x ys

module _ {A : Type 0} (p : A → Bool) where
  pub In-keep : (x : A) (xs : List A) → In x (keep p xs) → In x xs × (p x ≡ true)
  unfolding keep
  In-keep x [] = λ h. elim h [ ]
  In-keep x (y ∷ ys) =
      if-cases (λ l. In x l → In x (y ∷ ys) × (p x ≡ true)) (p y) _ _
        (λ e h. elim h [
          | inl same ↦ (inl same, ap p same ∙ e)
          | inr later ↦ let (at, q) = In-keep x ys later in (inr at, q)
        ])
        (λ e h. let (at, q) = In-keep x ys h in (inr at, q))

  pub All-keep : (Q : A → Type 0) (xs : List A) → All Q (keep p xs) → All (λ x. p x ≡ true → Q x) xs
  unfolding keep
  All-keep Q [] = λ h. tt
  All-keep Q (y ∷ ys) =
      if-cases (λ l. All Q l → All (λ x. p x ≡ true → Q x) (y ∷ ys)) (p y) _ _
        (λ e h. (λ _. h.0, All-keep Q ys h.1)) (λ e h. (λ q. ground arith, All-keep Q ys h))

  pub keep_nil : (xs : List A) → keep p xs ≡ [] → All (λ x. p x ≡ false) xs
  unfolding keep
  keep_nil [] = λ h. tt
  keep_nil (y ∷ ys) =
      if-cases (λ l. l ≡ [] → All (λ x. p x ≡ false) (y ∷ ys)) (p y) _ _ (λ e h. ground arith)
        (λ e h. (e, keep_nil ys h))

pub All-map :
    {A B : Type 0} (f : B → A) (P : A → Type 0) (Q : B → Type 0) (gs : List B)
    → ((g : B) → P (f g) → Q g)
    → All P (map f gs)
    → All Q gs
All-map f P Q [] k h = tt
All-map f P Q (g ∷ gs) k h = (k g h.0, All-map f P Q gs k h.1)
