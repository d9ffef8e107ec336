-- ===== src/Sdr/Acquire/Lowest.antt =====
-- pi/sdr_controller.py: the lowest of the samples of a gain sweep.
use embedded_ai_harness.Prelude.{
  ℕ, ◌≤◌, List, [], ◌∷◌, All, In, ◌≡◌, inl, inr, refl, sym, ap, ◌∙◌, arith, ltb, map, if-cases,
}
use embedded_ai_harness.Sdr.Acquire.{Air, Sample, sample, lowest}

pub In-sample :
    (air : Air) (c : ℕ) (s : Sample) (gs : List ℕ)
    → In s (map (sample air c) gs)
    → In s.gain gs × (s ≡ sample air c s.gain)
unfolding sample
In-sample air c s [] h = elim h [ ]
In-sample air c s (g ∷ gs) (inl e) = (
  inl (ap (λ (x : Sample). x.gain) e),
  e ∙ ap (sample air c) (sym (ap (λ (x : Sample). x.gain) e)),
)
In-sample air c s (g ∷ gs) (inr later) = let (at, e) = In-sample air c s gs later in (inr at, e)

past : (s t : Sample) (ts : List Sample) (u : Sample) → In u (s ∷ ts) → In u (s ∷ t ∷ ts)
past s t ts u (inl e) = inl e
past s t ts u (inr later) = inr (inr later)

-- `lowest` of a list that is not empty.
pub lowest_lem :
    (s : Sample) (ts : List Sample)
    → let u = lowest s ts in In u (s ∷ ts) × All (λ (t : Sample). u.gain ≤ t.gain) (s ∷ ts)
unfolding lowest
lowest_lem s [] = (inl refl, (omega arith, tt))
lowest_lem s (t ∷ ts) =
    let P : Sample → Type 0 = λ m.
      let u = lowest m ts in
      In u (s ∷ t ∷ ts) × All (λ (x : Sample). u.gain ≤ x.gain) (s ∷ t ∷ ts) in
    if-cases P (ltb t.gain s.gain) t s
      (λ e. let (at, (le, all)) = lowest_lem t ts in (inr at, (ground (arith, e, le), (le, all))))
      (λ e.
        let (at, (le, all)) = lowest_lem s ts in
        (past s t ts (lowest s ts) at, (le, (ground (arith, e, le), all))))
