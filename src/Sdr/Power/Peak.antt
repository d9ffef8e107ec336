-- ===== src/Sdr/Power/Peak.antt =====
-- pi/sdr_controller.py: which bins `power` counts, and which of them the peak is.
use embedded_ai_harness.Prelude.{
  ℕ, ◌+◌, ◌*◌, String, Bool, false, not, ◌||◌, Option, none, some, List, [], ◌∷◌, ◌++◌, All, In,
  ◌≡◌, inl, inr, refl, sym, ap, ◌∙◌, arith, if-cases, Bool-cases, keep, ltb, ◌==◌,
}
use embedded_ai_harness.Prelude.Int.{ℤ, ltb_ℤ, ltb_ℤ_irrefl, ltb_ℤ_trans, ltb_ℤ_asym}
use embedded_ai_harness.Sdr.Power.{
  Floats, Bin, Levels, is_notched, raise_peak, add_bin, bin_of, scan_columns, columns_of, scan_row,
  scan_rows, nothing,
}

-- No bin is higher than the peak, which is one of them; without a peak there is no bin.
abbrev pub IsTop : Option Bin → List Bin → Type 0
IsTop none bs = bs ≡ []
IsTop (some top) bs = In top bs × All (λ b. ltb_ℤ top.db b.db ≡ false) bs

-- A frequency that is not within the notch; a notch of 0 is none.
pub is_outside : ℕ → ℕ → Bin → Bool
is_outside freq_hz notch_hz b =
    (notch_hz == 0)
    || (ltb (b.freq + 100 * notch_hz) (100 * freq_hz)
        || ltb (100 * freq_hz + 100 * notch_hz) b.freq)

abbrev reading : ℕ → Option ℤ → List Bin
reading f none = []
reading f (some db) = record { freq = f; db = db } ∷ []

-- What the levels of a row say, from the i-th on: those that are no numbers are left out.
pub readings_from : Floats → ℕ → ℕ → ℕ → List String → List Bin
readings_from fl low step i [] = []
readings_from fl low step i (v ∷ vs) =
    reading (low + i * step) (fl.decibel v) ++ readings_from fl low step (i + 1) vs

abbrev readings_at : Floats → Option ℕ → Option ℕ → List String → List Bin
readings_at fl (some low) (some step) vs = readings_from fl low step 0 vs
readings_at fl low step vs = []

abbrev readings_row : Floats → List String → List Bin
readings_row fl (a ∷ b ∷ low ∷ c ∷ step ∷ d ∷ v ∷ vs) =
    readings_at fl (fl.hertz low) (fl.hertz step) (v ∷ vs)
readings_row fl parts = []

-- The levels of all rows, with their frequencies.
pub readings : Floats → List (List String) → List Bin
unfolding readings_from
readings fl [] = []
readings fl (r ∷ rs) = readings_row fl r ++ readings fl rs

-- The first list, reversed, before the second.
pub rev_onto : List Bin → List Bin → List Bin
rev_onto [] acc = acc
rev_onto (b ∷ bs) acc = rev_onto bs (b ∷ acc)

rev_onto-keep :
    (p : Bin → Bool) (xs ys acc : List Bin)
    → rev_onto (keep p (xs ++ ys)) acc ≡ rev_onto (keep p ys) (rev_onto (keep p xs) acc)
unfolding rev_onto keep
rev_onto-keep p [] ys acc = refl
rev_onto-keep p (x ∷ xs) ys acc = elim (Bool-cases (p x)) [
  | inl e ↦ simp e (rev_onto-keep p xs ys (x ∷ acc))
  | inr e ↦ simp e (rev_onto-keep p xs ys acc)
]

-- Exactly the readings outside the notch are counted, the latest first, and the peak is the highest.
pub record IsMeasured (freq_hz notch_hz : ℕ) (read : List Bin) (l : Levels) : Type 0 where
  pub counted : l.bins ≡ rev_onto (keep (is_outside freq_hz notch_hz) read) []
  pub top : IsTop l.peak l.bins

All-below :
    (b top : Bin) (bs : List Bin)
    → ltb_ℤ b.db top.db ≡ false
    → All (λ c. ltb_ℤ top.db c.db ≡ false) bs
    → All (λ c. ltb_ℤ b.db c.db ≡ false) bs
All-below b top [] e h = tt
All-below b top (c ∷ bs) e h = (ltb_ℤ_trans c.db top.db b.db h.0 e, All-below b top bs e h.1)

raise_peak-IsTop :
    (b : Bin) (peak : Option Bin) (bs : List Bin)
    → IsTop peak bs
    → IsTop (raise_peak b peak) (b ∷ bs)
unfolding raise_peak
raise_peak-IsTop b none bs h = (inl refl, (ltb_ℤ_irrefl b.db, none_left bs h))
  where
    none_left : (cs : List Bin) → cs ≡ [] → All (λ c. ltb_ℤ b.db c.db ≡ false) cs
    none_left [] e = tt
    none_left (c ∷ cs) e = ground arith
raise_peak-IsTop b (some top) bs h =
    if-cases (λ p. IsTop p (b ∷ bs)) (ltb_ℤ top.db b.db) (some b) (some top)
      (λ e. (inl refl, (ltb_ℤ_irrefl b.db, All-below b top bs (ltb_ℤ_asym top.db b.db e) h.1)))
      (λ e. (inr h.0, (e, h.1)))

module _ (fl : Floats) (freq_hz notch_hz : ℕ) where
  outside-notched :
      (b : Bin) → is_outside freq_hz notch_hz b ≡ not (is_notched freq_hz notch_hz b.freq)
  unfolding is_outside is_notched
  outside-notched b = ground arith

  -- Readings that are counted on top of what has been counted, which keep the peak the highest.
  abbrev Counts : List Bin → Levels → Levels → Type 0
  Counts read l l' =
      (l'.bins ≡ rev_onto (keep (is_outside freq_hz notch_hz) read) l.bins)
      × (IsTop l.peak l.bins → IsTop l'.peak l'.bins)

  then-Counts :
      (xs ys : List Bin) (l l1 l2 : Levels)
      → Counts xs l l1
      → Counts ys l1 l2
      → Counts (xs ++ ys) l l2
  then-Counts xs ys l l1 l2 h k = (
    k.0
        ∙ ap (rev_onto (keep (is_outside freq_hz notch_hz) ys)) h.0
        ∙ sym (rev_onto-keep (is_outside freq_hz notch_hz) xs ys l.bins),
    λ t. k.1 (h.1 t),
  )

  bin_of-Counts :
      (v : Option ℤ) (f : ℕ) (l : Levels)
      → Counts (reading f v) l (bin_of v (is_notched freq_hz notch_hz f) f l)
  unfolding bin_of add_bin rev_onto keep
  bin_of-Counts none f l = (refl, λ t. t)
  bin_of-Counts (some db) f l =
      let b : Bin = record { freq = f; db = db } in
      elim (Bool-cases (is_notched freq_hz notch_hz f)) [
        | inl e ↦ rw (outside-notched b, e) (refl, λ t. t)
        | inr e ↦ rw (outside-notched b, e) (refl, λ t. raise_peak-IsTop b l.peak l.bins t)
      ]

  scan_columns-Counts :
      (low step i f : ℕ) (vs : List String) (l : Levels)
      → f ≡ low + i * step
      → Counts (readings_from fl low step i vs) l (scan_columns fl freq_hz notch_hz f step vs l)
  unfolding scan_columns readings_from rev_onto keep
  scan_columns-Counts low step i f [] l e = (refl, λ t. t)
  scan_columns-Counts low step i f (v ∷ vs) l e =
      let l1 = bin_of (fl.decibel v) (is_notched freq_hz notch_hz f) f l in
      let one : Counts (reading (low + i * step) (fl.decibel v)) l l1 =
        rw⁻¹ e (bin_of-Counts (fl.decibel v) f l) in
      then-Counts (reading (low + i * step) (fl.decibel v)) (readings_from fl low step (i + 1) vs) l
        l1 (scan_columns fl freq_hz notch_hz (f + step) step vs l1) one
        (scan_columns-Counts low step (i + 1) (f + step) vs l1 (omega (arith, e)))

  columns_of-Counts :
      (low step : Option ℕ) (vs : List String) (l : Levels)
      → Counts (readings_at fl low step vs) l (columns_of fl freq_hz notch_hz low step vs l)
  unfolding columns_of rev_onto keep
  columns_of-Counts none step vs l = (refl, λ t. t)
  columns_of-Counts (some low) none vs l = (refl, λ t. t)
  columns_of-Counts (some low) (some step) vs l =
      scan_columns-Counts low step 0 low vs l (omega arith)

  scan_row-Counts :
      (r : List String) (l : Levels)
      → Counts (readings_row fl r) l (scan_row fl freq_hz notch_hz r l)
  unfolding scan_row rev_onto keep
  scan_row-Counts [] l = (refl, λ t. t)
  scan_row-Counts (a ∷ []) l = (refl, λ t. t)
  scan_row-Counts (a ∷ b ∷ []) l = (refl, λ t. t)
  scan_row-Counts (a ∷ b ∷ low ∷ []) l = (refl, λ t. t)
  scan_row-Counts (a ∷ b ∷ low ∷ c ∷ []) l = (refl, λ t. t)
  scan_row-Counts (a ∷ b ∷ low ∷ c ∷ step ∷ []) l = (refl, λ t. t)
  scan_row-Counts (a ∷ b ∷ low ∷ c ∷ step ∷ d ∷ []) l = (refl, λ t. t)
  scan_row-Counts (a ∷ b ∷ low ∷ c ∷ step ∷ d ∷ v ∷ vs) l =
      columns_of-Counts (fl.hertz low) (fl.hertz step) (v ∷ vs) l

  rows-Counts :
      (rs : List (List String)) (l : Levels)
      → Counts (readings fl rs) l (scan_rows fl freq_hz notch_hz rs l)
  unfolding scan_rows readings rev_onto keep
  rows-Counts [] l = (refl, λ t. t)
  rows-Counts (r ∷ rs) l =
      let l1 = scan_row fl freq_hz notch_hz r l in
      then-Counts (readings_row fl r) (readings fl rs) l l1 _ (scan_row-Counts r l)
        (rows-Counts rs l1)

-- Whatever rtl_power prints: `power` counts exactly the levels that can be read, each once and at the frequency
-- of its column, except those within `notch_hz` of the centre where `notch_hz` is not 0; the peak is one of
-- those counted and none of them is higher, and there is none only where nothing is counted.
pub scan_rows-IsMeasured :
    (fl : Floats) (freq_hz notch_hz : ℕ) (rows : List (List String))
    → IsMeasured freq_hz notch_hz (readings fl rows) (scan_rows fl freq_hz notch_hz rows nothing)
scan_rows-IsMeasured fl freq_hz notch_hz rows =
    let h = rows-Counts fl freq_hz notch_hz rows nothing in record { counted = h.0; top = h.1 refl }
