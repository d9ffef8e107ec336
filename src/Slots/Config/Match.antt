-- ===== src/Slots/Config/Match.antt =====
-- pi/portal.py `_find_fixed_slot_for_key`: which configured slot a USB path belongs to.
use Prim.Native.String.{count}
use embedded_ai_harness.Prelude.{
  ℕ, ◌≤◌, ◌≡◌, ◌⊎◌, refl, String, true, false, Option, none, some, List, [], ◌∷◌, arith, In, All,
  sym, ap, ◌∙◌, Bool-cases, inl, inr, leb,
}
use embedded_ai_harness.Prelude.Dict.{Dict}
use embedded_ai_harness.Slots.{Slot}
use embedded_ai_harness.Slots.Config.{
  SlotPrefix, Globals, with_text, insert_by_length, longest_first, applies, first_match, type_error,
  result, find_fixed_slot_for_key,
}

abbrev Entry : Type 0
Entry = String × SlotPrefix

abbrev AtMost : ℕ → List Entry → Type 0
AtMost n xs = All (λ x. count x.0 ≤ n) xs

-- Longest first.
abbrev IsSorted : List Entry → Type 0
IsSorted [] = Unit
IsSorted (x ∷ xs) = AtMost (count x.0) xs × IsSorted xs

AtMost-weaken : (m n : ℕ) (xs : List Entry) → m ≤ n → AtMost m xs → AtMost n xs
AtMost-weaken m n [] le h = tt
AtMost-weaken m n (x ∷ xs) le h = (omega arith, AtMost-weaken m n xs le h.1)

AtMost-In : (n : ℕ) (y : Entry) (xs : List Entry) → AtMost n xs → In y xs → count y.0 ≤ n
AtMost-In n y [] h m = absurd m
AtMost-In n y (x ∷ xs) h (inl e) = rw e h.0
AtMost-In n y (x ∷ xs) h (inr m) = AtMost-In n y xs h.1 m

insert-AtMost :
    (n : ℕ) (x : Entry) (xs : List Entry)
    → count x.0 ≤ n
    → AtMost n xs
    → AtMost n (insert_by_length x xs)
unfolding insert_by_length
insert-AtMost n x [] le h = (le, tt)
insert-AtMost n x (y ∷ ys) le h = elim (Bool-cases (leb (count y.0) (count x.0))) [
  | inl e ↦ rw e (le, h)
  | inr e ↦ rw e (h.0, insert-AtMost n x ys le h.1)
]

insert-IsSorted : (x : Entry) (xs : List Entry) → IsSorted xs → IsSorted (insert_by_length x xs)
unfolding insert_by_length
insert-IsSorted x [] s = (tt, tt)
insert-IsSorted x (y ∷ ys) s = elim (Bool-cases (leb (count y.0) (count x.0))) [
  | inl e ↦
      let le : count y.0 ≤ count x.0 = ground (arith, e) in
      rw e ((le, AtMost-weaken (count y.0) (count x.0) ys le s.0), s)
  | inr e ↦ rw e (insert-AtMost (count y.0) x ys (ground (arith, e)) s.0, insert-IsSorted x ys s.1)
]

longest_first-IsSorted : (xs : List Entry) → IsSorted (longest_first xs)
unfolding longest_first
longest_first-IsSorted [] = tt
longest_first-IsSorted (x ∷ xs) = insert-IsSorted x (longest_first xs) (longest_first-IsSorted xs)

In-regroup :
    (y x z : Entry) (zs : List Entry) → (y ≡ x) ⊎ In y (z ∷ zs) → (y ≡ z) ⊎ ((y ≡ x) ⊎ In y zs)
In-regroup y x z zs (inl new) = inr (inl new)
In-regroup y x z zs (inr (inl head)) = inl head
In-regroup y x z zs (inr (inr later)) = inr (inr later)

In-insert : (y x : Entry) (xs : List Entry) → (y ≡ x) ⊎ In y xs → In y (insert_by_length x xs)
unfolding insert_by_length
In-insert y x [] m = m
In-insert y x (z ∷ zs) m = elim (Bool-cases (leb (count z.0) (count x.0))) [
  | inl e ↦ rw e m
  | inr e ↦ rw e (elim (In-regroup y x z zs m) [
    | inl head ↦ inl head
    | inr later ↦ inr (In-insert y x zs later)
  ])
]

insert-In : (y x : Entry) (xs : List Entry) → In y (insert_by_length x xs) → (y ≡ x) ⊎ In y xs
unfolding insert_by_length
insert-In y x [] m = m
insert-In y x (z ∷ zs) m = elim (Bool-cases (leb (count z.0) (count x.0))) [
  | inl e ↦ rw e at m
  | inr e ↦
      let m' : (y ≡ z) ⊎ In y (insert_by_length x zs) = rw e at m in
      elim m' [
        | inl head ↦ inr (inl head)
        | inr later ↦ elim (insert-In y x zs later) [ inl new ↦ inl new | inr old ↦ inr (inr old) ]
      ]
]

In-longest_first : (y : Entry) (xs : List Entry) → In y xs → In y (longest_first xs)
unfolding longest_first
In-longest_first y [] m = m
In-longest_first y (x ∷ xs) (inl e) = In-insert y x (longest_first xs) (inl e)
In-longest_first y (x ∷ xs) (inr m) =
    In-insert y x (longest_first xs) (inr (In-longest_first y xs m))

longest_first-In : (y : Entry) (xs : List Entry) → In y (longest_first xs) → In y xs
unfolding longest_first
longest_first-In y [] m = m
longest_first-In y (x ∷ xs) m = elim (insert-In y x (longest_first xs) m) [
  | inl e ↦ inl e
  | inr m' ↦ inr (longest_first-In y xs m')
]

-- `k` is the slot of a longest prefix among those of `ps` that apply to the USB path.
pub record IsBest (slots : Dict Slot) (slot_key : String) (ps : List Entry) (k : String)
    : Type 0 where
  pub chosen : Entry
  pub listed : In chosen ps
  pub fits : applies slots slot_key chosen ≡ true
  pub is_its_slot : (chosen.1).placeholder_key ≡ k
  pub longest : (y : Entry) → In y ps → applies slots slot_key y ≡ true → count y.0 ≤ count chosen.0

module _ (slots : Dict Slot) (slot_key : String) where
  first_match-IsBest :
      (xs : List Entry) (k : String)
      → IsSorted xs
      → first_match slots slot_key xs ≡ some k
      → IsBest slots slot_key xs k
  unfolding first_match
  first_match-IsBest [] k s h = absurd (ground (arith, h))
  first_match-IsBest (x ∷ xs) k s h = elim (Bool-cases (applies slots slot_key x)) [
    | inl e ↦ record {
      chosen = x;
      listed = inl refl;
      fits = e;
      is_its_slot = ground (arith, e);
      longest = λ y m a. elim m [
        | inl same ↦ rw same (omega arith)
        | inr later ↦ AtMost-In (count x.0) y xs s.0 later
      ];
    }
    | inr e ↦
        let best = first_match-IsBest xs k s.1 (rw e at h) in
        record {
          chosen = best.chosen;
          listed = inr best.listed;
          fits = best.fits;
          is_its_slot = best.is_its_slot;
          longest = λ y m a. elim m [
            | inl same ↦ absurd (cc (e, a, ap (applies slots slot_key) same))
            | inr later ↦ best.longest y later a
          ];
        }
  ]

  first_match-none :
      (xs : List Entry)
      → first_match slots slot_key xs ≡ none
      → (y : Entry) → In y xs
      → applies slots slot_key y ≡ false
  unfolding first_match
  first_match-none [] h y m = absurd m
  first_match-none (x ∷ xs) h y m = elim (Bool-cases (applies slots slot_key x)) [
    | inl e ↦ absurd (ground (arith, e))
    | inr e ↦ elim m [
      | inl same ↦ ap (applies slots slot_key) same ∙ e
      | inr later ↦ first_match-none xs (rw e at h) y later
    ]
  ]

-- Where every configured prefix has a text, the lookup answers with a slot exactly of a longest prefix
-- that occurs in the USB path and whose slot exists, and with none exactly where no prefix does.
pub find_fixed_slot-longest :
    (slot_key : String) (g : Globals) (ps : List (String × SlotPrefix))
    → with_text g.slot_prefixes ≡ some ps
    → (o : Option String) × (find_fixed_slot_for_key slot_key g ≡ result o)
      × ((k : String) → o ≡ some k → IsBest g.slots slot_key ps k)
      × (o ≡ none → (y : String × SlotPrefix) → In y ps → applies g.slots slot_key y ≡ false)
unfolding find_fixed_slot_for_key
find_fixed_slot-longest slot_key g ps e = (
  first_match g.slots slot_key (longest_first ps),
  rw (e, find_fixed_slot_for_key),
  λ k h.
      let best =
        first_match-IsBest g.slots slot_key (longest_first ps) k (longest_first-IsSorted ps) h in
      record {
        chosen = best.chosen;
        listed = longest_first-In best.chosen ps best.listed;
        fits = best.fits;
        is_its_slot = best.is_its_slot;
        longest = λ y m a. best.longest y (In-longest_first y ps m) a;
      },
  λ h y m. first_match-none g.slots slot_key (longest_first ps) h y (In-longest_first y ps m),
)

with_text-crash :
    (sp : SlotPrefix) (sps : List SlotPrefix) → In sp sps → sp.prefix ≡ none → with_text sps ≡ none
unfolding with_text
with_text-crash sp [] m h = absurd m
with_text-crash sp (x ∷ xs) (inl e) h =
    rw (ap (λ (y : SlotPrefix). y.prefix) (sym e) ∙ h, with_text)
with_text-crash sp (x ∷ xs) (inr m) h = ground (arith, with_text-crash sp xs m h)

-- One configured slot without a `usb_prefix` makes the lookup raise a TypeError for every USB path.
pub find_fixed_slot-crash :
    (slot_key : String) (g : Globals) (sp : SlotPrefix)
    → In sp g.slot_prefixes
    → sp.prefix ≡ none
    → find_fixed_slot_for_key slot_key g ≡ type_error
unfolding find_fixed_slot_for_key
find_fixed_slot-crash slot_key g sp m h =
    rw (with_text-crash sp g.slot_prefixes m h, find_fixed_slot_for_key)
