-- ===== src/Sdr/Codewords/Shortest.antt =====
-- pi/sdr_controller.py: which unit `_repeat_unit` finds.
use embedded_ai_harness.Prelude.{
  ℕ, zero, suc, ◌+◌, ◌-◌, ◌/◌, ◌≤◌, ◌<◌, min, true, false, leb, length, take, drop, ◌≡◌, ◌⊎◌, inl,
  inr, refl, sym, ap, subst, arith, length-take, Bool-cases, if-cases, ◌==◌, ==_iff,
}
use embedded_ai_harness.Sdr.Codewords.{Code, is_repeat, scan_periods, scan_starts, repeat_unit}

-- The first `q` digits of `sub` repeat: `q` is at least 3 and at most half of its length.
pub record Repeats (sub : Code) (q : ℕ) : Type 0 where
  pub least : 3 ≤ q
  pub most : q + q ≤ length sub
  pub matches : is_repeat sub q ≡ true

-- What the inner loop makes of `best` over `k` periods from `p` on.
record Scanned (sub best u : Code) (p k : ℕ) : Type 0 where
  found : (u ≡ best) ⊎ ((q : ℕ) × Repeats sub q × (u ≡ take q sub))
  shorter : length u ≤ length best
  shortest : (q : ℕ) → p ≤ q → q < p + k → is_repeat sub q ≡ true → length u ≤ q

-- Every period of the loop is one that the text can hold twice.
abbrev Fits : ℕ → ℕ → Code → Type 0
Fits p k sub = (q : ℕ) → p ≤ q → q < p + k → q + q ≤ length sub

next-Scanned :
    (k p : ℕ) (sub best u : Code)
    → is_repeat sub p ≡ false
    → Scanned sub best u (p + 1) k
    → Scanned sub best u p (suc k)
next-Scanned k p sub best u fails h = record {
  found = h.found;
  shorter = h.shorter;
  shortest = λ q le lt e. elim (Bool-cases (q == p)) [
    | inl same ↦ ground (arith, ap (is_repeat sub) ((==_iff q p).0 same))
    | inr other ↦ h.shortest q (ground arith) (omega (arith, lt)) e
  ];
}

scan_periods-Scanned :
    (k p : ℕ) (sub best : Code)
    → 3 ≤ p
    → Fits p k sub
    → Scanned sub best (scan_periods k p sub best) p k
unfolding scan_periods
scan_periods-Scanned zero p sub best three fits = record {
  found = inl refl;
  shorter = omega arith;
  shortest = λ q le lt e. ground (arith, le, lt);
}
scan_periods-Scanned (suc k) p sub best three fits =
    let S : Code → Type 0 = λ u. Scanned sub best u p (suc k) in
    if-cases S (leb (length best) p) _ _
      (λ long. record {
        found = inl refl;
        shorter = omega arith;
        shortest = λ q le lt e. ground (arith, le, long);
      })
      (λ short.
        if-cases S (is_repeat sub p) _ _
          (λ e.
            let half = fits p (omega arith) (omega arith) in
            let size = length-take p sub (omega (arith, half)) in
            record {
              found = inr (p, record { least = three; most = half; matches = e }, refl);
              shorter = ground (arith, short, size);
              shortest = λ q le lt _. omega (arith, size, le);
            })
          (λ e. next-Scanned k p sub best _ e (
            scan_periods-Scanned k (p + 1) sub best (omega (arith, three))
              (λ q le lt. fits q (omega (arith, le)) (omega (arith, lt))))))

-- What `_repeat_unit` may take from the text: the unit at a start and of a period.
pub record IsUnit (hexstr u : Code) (start q : ℕ) : Type 0 where
  pub early : start < min 16 (length hexstr / 2)
  pub repeats : Repeats (drop start hexstr) q
  pub unit : u ≡ take q (drop start hexstr)

-- The loop over the starts, after those before `s`.
record Found (hexstr u : Code) (s : ℕ) : Type 0 where
  from : (u ≡ hexstr) ⊎ ((start : ℕ) × (q : ℕ) × IsUnit hexstr u start q)
  least : (start q : ℕ) → start < s → Repeats (drop start hexstr) q → length u ≤ q

loop-Fits : (sub : Code) → Fits 3 (length sub / 2 + 1 - 3) sub
loop-Fits sub q le lt = omega (arith, le, lt)

best_of :
    (s : ℕ) (hexstr best u : Code) (k : ℕ)
    → s < min 16 (length hexstr / 2)
    → Scanned (drop s hexstr) best u 3 k
    → (best ≡ hexstr) ⊎ ((start : ℕ) × (q : ℕ) × IsUnit hexstr best start q)
    → (u ≡ hexstr) ⊎ ((start : ℕ) × (q : ℕ) × IsUnit hexstr u start q)
best_of s hexstr best u k lt h old = elim h.found [
  | inl e ↦
      subst (λ b. (b ≡ hexstr) ⊎ ((start : ℕ) × (q : ℕ) × IsUnit hexstr b start q)) (sym e) old
  | inr (q, rep, e) ↦ inr (s, q, record { early = lt; repeats = rep; unit = e })
]

one_start-Found :
    (s : ℕ) (hexstr best : Code)
    → s < min 16 (length hexstr / 2)
    → Found hexstr best s
    → let sub = drop s hexstr in
      Found hexstr (scan_periods (length sub / 2 + 1 - 3) 3 sub best) (s + 1)
one_start-Found s hexstr best lt h =
    let sub = drop s hexstr in
    let k = length sub / 2 + 1 - 3 in
    let u = scan_periods k 3 sub best in
    let done = scan_periods-Scanned k 3 sub best (omega arith) (loop-Fits sub) in
    record {
      from = best_of s hexstr best u k lt done h.from;
      least = λ start q before rep. elim (Bool-cases (start == s)) [
        | inl same ↦
            let here = subst (λ i. Repeats (drop i hexstr) q) ((==_iff start s).0 same) rep in
            done.shortest q here.least (omega (arith, here.most)) here.matches
        | inr other ↦
            let old = h.least start q (ground (arith, before, other)) rep in
            omega (arith, old, done.shorter)
      ];
    }

scan_starts-Found :
    (k s : ℕ) (hexstr best : Code)
    → s + k ≡ min 16 (length hexstr / 2)
    → Found hexstr best s
    → Found hexstr (scan_starts k s hexstr best) (s + k)
unfolding scan_starts
scan_starts-Found zero s hexstr best e h = subst (Found hexstr best) (omega arith) h
scan_starts-Found (suc k) s hexstr best e h =
    let next = scan_periods (length (drop s hexstr) / 2 + 1 - 3) 3 (drop s hexstr) best in
    subst (Found hexstr (scan_starts k (s + 1) hexstr next)) (omega arith) (
      scan_starts-Found k (s + 1) hexstr next (omega (arith, e))
        (one_start-Found s hexstr best (omega (arith, e)) h))

-- What `_repeat_unit` returns is the whole text or a unit of it, at one of the first 16 starts before the
-- middle, of 3 digits at least, that repeats to the end of the text with 90% of the digits the same; and no
-- other start and period give a shorter one.
pub repeat_unit-IsShortest :
    (hexstr : Code)
    → let u = repeat_unit hexstr in
      ((u ≡ hexstr) ⊎ ((start : ℕ) × (q : ℕ) × IsUnit hexstr u start q))
      × ((start q : ℕ)
          → start < min 16 (length hexstr / 2)
          → Repeats (drop start hexstr) q
          → length u ≤ q)
unfolding repeat_unit
repeat_unit-IsShortest hexstr =
    let n = min 16 (length hexstr / 2) in
    let h =
      scan_starts-Found n 0 hexstr hexstr (omega arith)
        (record { from = inl refl; least = λ start q lt rep. ground (arith, lt) }) in
    (h.from, λ start q lt rep. h.least start q (omega (arith, lt)) rep)
