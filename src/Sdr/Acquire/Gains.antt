-- ===== src/Sdr/Acquire/Gains.antt =====
-- pi/sdr_controller.py: what the report of `acquire` says of the air.
use embedded_ai_harness.Prelude.{
  ℕ, zero, suc, ◌+◌, ◌≤◌, ◌<◌, String, true, false, Option, none, some, List, [], ◌∷◌, All, In, ◌≡◌,
  ◌≢◌, ◌⊎◌, inl, inr, refl, sym, ap, ◌∙◌, subst, arith, leb, keep, map, Bool-cases, In-keep,
  All-keep, keep_nil, All-map,
}
use embedded_ai_harness.Sdr.Codewords.{Counts, dominant_codewords}
use embedded_ai_harness.Sdr.Acquire.Lowest.{In-sample, lowest_lem}
use embedded_ai_harness.Sdr.Acquire.{
  Air, Sample, Level, Outcome, locate_failed, level_nosignal, too_strong, decode_failed, complete,
  carrier_of, first_of, locate, polls_in, sample, is_clean, is_detected, lowest, any_above, decode,
  until, classified, decoded, choose, level, located, gains_of, acquire, either_flex,
}

-- The first poll from the i-th on, of `k`, whose peak is clear of the noise.
abbrev pub IsLocated : Air → ℕ → ℕ → ℕ → Option ℕ → Type 0
IsLocated air freq i k none = (j : ℕ) → i ≤ j → j < i + k → carrier_of freq (air.poll j) ≡ none
IsLocated air freq i k (some c) =
    (j : ℕ) × (i ≤ j)
    × (j < i + k)
    × (carrier_of freq (air.poll j) ≡ some c)
    × ((m : ℕ) → i ≤ m → m < j → carrier_of freq (air.poll m) ≡ none)

-- The lowest of the gains at which the signal reads clean.
pub record IsChosen (air : Air) (flex : Option String) (gains : List ℕ) (carrier gain : ℕ)
    : Type 0 where
  pub listed : In gain gains
  pub clean : is_clean flex (sample air carrier gain) ≡ true
  pub lowest_clean : All (λ g. is_clean flex (sample air carrier g) ≡ true → gain ≤ g) gains

abbrev words_in : Air → ℕ → Level → ℕ → Counts
words_in air carrier l i = dominant_codewords (air.window i carrier l.used_flex l.chosen_gain)

-- What each end of the acquisition says.
abbrev pub Reports : Air → ℕ → ℕ → List ℕ → Option String → Outcome → Type 0
Reports air freq n gains flex locate_failed = IsLocated air freq 1 n none
Reports air freq n gains flex level_nosignal =
    (c : ℕ) × IsLocated air freq 1 n (some c)
    × All (λ g. is_detected (sample air c g) ≡ false) gains
Reports air freq n gains flex too_strong =
    (c : ℕ) × IsLocated air freq 1 n (some c)
    × All (λ g. is_clean flex (sample air c g) ≡ false) gains
Reports air freq n gains flex (decode_failed c l) =
    IsLocated air freq 1 n (some c)
    × IsChosen air flex gains c l.chosen_gain
    × ((i : ℕ) → i < 3 → words_in air c l i ≡ [])
Reports air freq n gains flex (complete c l ws models) =
    IsLocated air freq 1 n (some c)
    × IsChosen air flex gains c l.chosen_gain
    × ((i : ℕ) × (i < 3) × (ws ≡ words_in air c l i) × (ws ≢ []))
    × (models ≡ air.builtin c l.chosen_gain)

still_none :
    (air : Air) (freq i k j : ℕ)
    → carrier_of freq (air.poll i) ≡ none
    → ((m : ℕ) → i + 1 ≤ m → m < k → carrier_of freq (air.poll m) ≡ none)
    → i ≤ j
    → j < k
    → carrier_of freq (air.poll j) ≡ none
still_none air freq i k j e h le lt = elim (Bool-cases (leb j i)) [
  | inl same ↦ subst (λ x. carrier_of freq (air.poll x) ≡ none) (ground (arith, same, le)) e
  | inr later ↦ h j (ground (arith, later)) lt
]

first_of-IsLocated :
    (air : Air) (freq i k : ℕ) (now rest : Option ℕ)
    → carrier_of freq (air.poll i) ≡ now
    → IsLocated air freq (i + 1) k rest
    → IsLocated air freq i (suc k) (first_of now rest)
unfolding first_of
first_of-IsLocated air freq i k (some c) rest e h =
    (i, omega arith, omega arith, e, λ m le lt. ground (arith, le, lt))
first_of-IsLocated air freq i k none none e h =
    λ j. still_none air freq i (i + suc k) j e (λ m le lt. h m le (omega (arith, lt)))
first_of-IsLocated air freq i k none (some c) e h =
    let (j, le, lt, at, before) = h in
    (j, omega (arith, le), omega (arith, lt), at, λ m. still_none air freq i j m e before)

locate-IsLocated : (air : Air) (freq i k : ℕ) → IsLocated air freq i k (locate air freq i k)
unfolding locate
locate-IsLocated air freq i zero = λ j le lt. ground (arith, le, lt)
locate-IsLocated air freq i (suc k) =
    first_of-IsLocated air freq i k (carrier_of freq (air.poll i)) (locate air freq (i + 1) k) refl
      (locate-IsLocated air freq (i + 1) k)

abbrev IsClean : Air → Option String → ℕ → ℕ → Type 0
IsClean air flex c g = is_clean flex (sample air c g) ≡ true

-- The samples that the level phase keeps: those detected, and of these the clean ones.
abbrev detected_at : Air → ℕ → List ℕ → List Sample
detected_at air c gains = keep is_detected (map (sample air c) gains)

clean-detected : (flex : Option String) (s : Sample) → is_clean flex s ≡ true → is_detected s ≡ true
unfolding is_clean is_detected
clean-detected flex s h = ground arith

unclean :
    (flex : Option String) (s : Sample)
    → (is_detected s ≡ true → is_clean flex s ≡ false)
    → is_clean flex s ≡ false
unfolding is_clean is_detected
unclean flex s h = elim (Bool-cases s.detected) [ inl e ↦ h e | inr e ↦ ground arith ]

lowest-IsChosen :
    (air : Air) (flex : Option String) (gains : List ℕ) (c : ℕ) (s : Sample) (ss : List Sample)
    → s ∷ ss ≡ keep (is_clean flex) (detected_at air c gains)
    → IsChosen air flex gains c (lowest s ss).gain
unfolding sample
lowest-IsChosen air flex gains c s ss e =
    let u = lowest s ss in
    let (at, all) = lowest_lem s ss in
    let (kept, clean) = In-keep (is_clean flex) u (detected_at air c gains) (subst (In u) e at) in
    let (swept, _) = In-keep is_detected u (map (sample air c) gains) kept in
    let (listed, same) = In-sample air c u gains swept in
    let L : Sample → Type 0 = λ t. u.gain ≤ t.gain in
    let low =
      All-keep is_detected (λ t. is_clean flex t ≡ true → L t) (map (sample air c) gains)
        (All-keep (is_clean flex) L (detected_at air c gains) (subst (All L) e all)) in
    record {
      listed = listed;
      clean = sym (ap (is_clean flex) same) ∙ clean;
      lowest_clean =
          All-map (sample air c) _ (λ g. IsClean air flex c g → u.gain ≤ g) gains
            (λ g h k. h (clean-detected flex (sample air c g) k) k) low;
    }

-- What `k` windows from the i-th on have given.
abbrev Finds : Air → ℕ → Level → ℕ → ℕ → Counts → Type 0
Finds air c l i k ws =
    ((ws ≡ []) × ((j : ℕ) → i ≤ j → j < i + k → words_in air c l j ≡ []))
    ⊎ ((j : ℕ) × (j < i + k) × (ws ≡ words_in air c l j) × (ws ≢ []))

no_words :
    (air : Air) (c : ℕ) (l : Level) (i k j : ℕ)
    → [] ≡ words_in air c l i
    → ((m : ℕ) → i + 1 ≤ m → m < i + 1 + k → words_in air c l m ≡ [])
    → i ≤ j
    → j < i + suc k
    → words_in air c l j ≡ []
no_words air c l i k j e h le lt = elim (Bool-cases (leb j i)) [
  | inl same ↦ subst (λ x. words_in air c l x ≡ []) (ground (arith, same, le)) (sym e)
  | inr later ↦ h j (ground (arith, later)) (omega (arith, lt))
]

until-Finds :
    (air : Air) (c : ℕ) (l : Level) (i k : ℕ) (now rest : Counts)
    → now ≡ words_in air c l i
    → Finds air c l (i + 1) k rest
    → Finds air c l i (suc k) (until now rest)
unfolding until
until-Finds air c l i k (w ∷ ws) rest e h = inr (i, omega arith, e, ground arith)
until-Finds air c l i k [] rest e (inl (none_, h)) = inl (none_, λ j. no_words air c l i k j e h)
until-Finds air c l i k [] rest e (inr (j, lt, at, some_)) = inr (j, omega (arith, lt), at, some_)

decode-Finds :
    (air : Air) (c : ℕ) (l : Level) (i k : ℕ)
    → Finds air c l i k (decode air c l.chosen_gain l.used_flex i k)
unfolding decode
decode-Finds air c l i zero = inl (refl, λ j le lt. ground (arith, le, lt))
decode-Finds air c l i (suc k) =
    until-Finds air c l i k (words_in air c l i) (decode air c l.chosen_gain l.used_flex (i + 1) k)
      refl (decode-Finds air c l (i + 1) k)

module _ (air : Air) (freq n : ℕ) (gains : List ℕ) (flex : Option String) where
  classified-Reports :
      (c : ℕ) (l : Level) (ws : Counts)
      → IsLocated air freq 1 n (some c)
      → IsChosen air flex gains c l.chosen_gain
      → Finds air c l 0 3 ws
      → Reports air freq n gains flex (classified air c l ws)
  unfolding classified
  classified-Reports c l [] at gain (inl (e, h)) = (at, gain, λ i lt. h i (omega arith) lt)
  classified-Reports c l [] at gain (inr (j, lt, e, some_)) = absurd (some_ refl)
  classified-Reports c l (w ∷ ws) at gain (inl (e, h)) = ground arith
  classified-Reports c l (w ∷ ws) at gain (inr (j, lt, e, some_)) =
      (at, gain, (j, lt, e, some_), refl)

  choose-Reports :
      (c : ℕ) (kept : List Sample)
      → IsLocated air freq 1 n (some c)
      → kept ≡ keep (is_clean flex) (detected_at air c gains)
      → Reports air freq n gains flex (choose air flex c (map (sample air c) gains) kept)
  unfolding choose decoded
  choose-Reports c [] at e =
      let P : Sample → Type 0 = λ t. is_clean flex t ≡ false in
      (
        c,
        at,
        All-map (sample air c) _ (λ g. P (sample air c g)) gains
            (λ g h. unclean flex (sample air c g) h)
            (All-keep is_detected P (map (sample air c) gains)
              (keep_nil (is_clean flex) (detected_at air c gains) (sym e))),
      )
  choose-Reports c (s ∷ ss) at e =
      let gain = (lowest s ss).gain in
      let l : Level = record {
        chosen_gain = gain;
        used_flex = either_flex flex (air.analyze c gain).suggested;
        edge = any_above gain (map (sample air c) gains);
      } in
      classified-Reports c l _ at (lowest-IsChosen air flex gains c s ss e)
        (decode-Finds air c l 0 3)

  level-Reports :
      (c : ℕ) (kept : List Sample)
      → IsLocated air freq 1 n (some c)
      → kept ≡ detected_at air c gains
      → Reports air freq n gains flex (level air flex c (map (sample air c) gains) kept)
  unfolding level
  level-Reports c [] at e = (
    c,
    at,
    All-map (sample air c) _ (λ g. is_detected (sample air c g) ≡ false) gains (λ g h. h)
        (keep_nil is_detected (map (sample air c) gains) (sym e)),
  )
  level-Reports c (s ∷ ss) at e =
      choose-Reports c (keep (is_clean flex) (s ∷ ss)) at (ap (keep (is_clean flex)) e)

  located-Reports :
      (o : Option ℕ)
      → IsLocated air freq 1 n o
      → Reports air freq n gains flex (located air flex gains o)
  unfolding located
  located-Reports none at = at
  located-Reports (some c) at = level-Reports c (detected_at air c gains) at refl

-- The report of `acquire` names the phase that stopped it and is true of what was received. No carrier: no
-- poll of the `max(1, wait_s // 2)` had a peak 6 dB over the mean. Otherwise the carrier is that of the first
-- such poll, and: no pulses at any gain; or no gain at which the signal reads clean; or the gain is the lowest
-- clean one of those tried, and then the three windows gave no codeword, or the codewords are those of one of
-- them and the models those of the built-in decoders at that carrier and gain.
pub acquire-Reports :
    (air : Air) (freq wait_s : ℕ) (gains : Option (List ℕ)) (flex : Option String)
    → Reports air freq (polls_in wait_s) (gains_of gains) flex (acquire air freq wait_s gains flex)
unfolding acquire
acquire-Reports air freq wait_s gains flex =
    located-Reports air freq (polls_in wait_s) (gains_of gains) flex _
      (locate-IsLocated air freq 1 (polls_in wait_s))
