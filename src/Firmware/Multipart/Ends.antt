-- ===== src/Firmware/Multipart/Ends.antt =====
-- pi/portal.py: what an uploaded file has lost at its end.
use mathlib.Core.List.{append_assoc}
use embedded_ai_harness.Prelude.{
  ℕ, suc, ◌≤◌, true, false, ◌&&◌, Option, none, some, some-injective, [], ◌∷◌, ◌++◌, if◌then◌else◌,
  ◌==◌, ◌≡◌, refl, sym, ap, ◌∙◌, subst, arith, length, if-cases, if_true, if_false, All, All-append,
  Option-cases, inl, inr,
}
use embedded_ai_harness.Firmware.Multipart.{
  Bytes, Cut, is_space, lstrip, put_front, rstrip, after, begin_with, here_or, cut, or_else, crlf2,
  drop_crlf, is_blank, with_content, parse_part,
}

abbrev AllSpaces : Bytes → Type 0
AllSpaces = All (λ b. is_space b ≡ true)

rstrip_spaces : (ws : Bytes) → AllSpaces ws → rstrip ws ≡ []
unfolding rstrip put_front
rstrip_spaces [] h = refl
rstrip_spaces (b ∷ ws) h = ap (put_front b) (rstrip_spaces ws h.1) ∙ if_true (is_space b) [] _ h.0

-- The last byte that is no white space stays, and with it all that is before it.
rstrip_to :
    (e ws : Bytes) (x : ℕ) → is_space x ≡ false → AllSpaces ws → rstrip (e ++ x ∷ ws) ≡ e ++ x ∷ []
unfolding rstrip put_front
rstrip_to [] ws x h k = ap (put_front x) (rstrip_spaces ws k) ∙ if_false (is_space x) [] _ h
rstrip_to (b ∷ []) ws x h k = ap (put_front b) (rstrip_to [] ws x h k)
rstrip_to (b ∷ c ∷ e) ws x h k = ap (put_front b) (rstrip_to (c ∷ e) ws x h k)

drop_crlf_last : (e : Bytes) (x : ℕ) → (x == 10) ≡ false → drop_crlf (e ++ x ∷ []) ≡ e ++ x ∷ []
unfolding drop_crlf
drop_crlf_last [] x h = refl
drop_crlf_last (a ∷ []) x h = if_false (a == 13 && x == 10) [] _ (ground arith)
drop_crlf_last (a ∷ b ∷ []) x h = ap (λ l. a ∷ l) (drop_crlf_last (b ∷ []) x h)
drop_crlf_last (a ∷ b ∷ c ∷ e) x h = ap (λ l. a ∷ l) (drop_crlf_last (b ∷ c ∷ e) x h)

after-length : (sep bs r : Bytes) → after sep bs ≡ some r → length sep ≤ length bs
unfolding after
after-length [] bs r = λ h. omega arith
after-length (s ∷ ss) [] r = λ h. ground arith
after-length (s ∷ ss) (b ∷ bs) r =
    if-cases (λ o. o ≡ some r → suc (length ss) ≤ suc (length bs)) (s == b) _ _
      (λ _ h. omega (arith, after-length ss bs r h)) (λ _ h. ground arith)

after-append : (sep bs ys r : Bytes) → after sep bs ≡ some r → after sep (bs ++ ys) ≡ some (r ++ ys)
unfolding after
after-append [] bs ys r = λ h. ap some (ap (λ l. l ++ ys) (some-injective _ _ h))
after-append (s ∷ ss) [] ys r = λ h. ground arith
after-append (s ∷ ss) (b ∷ bs) ys r =
    if-cases (λ o. o ≡ some r → (if s == b then after ss (bs ++ ys) else none) ≡ some (r ++ ys))
      (s == b) _ _ (λ e h. if_true (s == b) _ none e ∙ after-append ss bs ys r h)
      (λ _ h. ground arith)

after_not-append :
    (sep bs ys : Bytes) → after sep bs ≡ none → length sep ≤ length bs → after sep (bs ++ ys) ≡ none
unfolding after
after_not-append [] bs ys = λ h le. ground arith
after_not-append (s ∷ ss) [] ys = λ h le. ground arith
after_not-append (s ∷ ss) (b ∷ bs) ys =
    if-cases
      (λ o.
        o ≡ none
        → suc (length ss) ≤ suc (length bs)
        → (if s == b then after ss (bs ++ ys) else none) ≡ none)
      (s == b) _ _
      (λ e h le. if_true (s == b) _ none e ∙ after_not-append ss bs ys h (omega (arith, le)))
      (λ e h le. if_false (s == b) _ none e)

abbrev HasRoom : Bytes → Bytes → Cut → Type 0
HasRoom sep bs none = Unit
HasRoom sep bs (some p) = length sep ≤ length bs

later-HasRoom :
    (sep : Bytes) (b : ℕ) (bs : Bytes) (c : Cut)
    → HasRoom sep bs c
    → HasRoom sep (b ∷ bs) (begin_with b c)
later-HasRoom sep b bs none h = tt
later-HasRoom sep b bs (some p) h = omega (arith, h)

cut-HasRoom : (sep bs : Bytes) → HasRoom sep bs (cut sep bs)
unfolding cut
cut-HasRoom sep [] = tt
cut-HasRoom sep (b ∷ bs) =
    let P : Option Bytes → Type 0 =
      λ o. HasRoom sep (b ∷ bs) (here_or o (begin_with b (cut sep bs))) in
    elim (Option-cases (after sep (b ∷ bs))) [
      | inl e ↦ subst P (sym e) (later-HasRoom sep b bs (cut sep bs) (cut-HasRoom sep bs))
      | inr (r, e) ↦ subst P (sym e) (after-length sep (b ∷ bs) r e)
    ]

-- More bytes at the end go to what follows the separator.
cut-append :
    (sep bs ys : Bytes) (p : Bytes × Bytes)
    → cut sep bs ≡ some p
    → cut sep (bs ++ ys) ≡ some (p.0, p.1 ++ ys)
unfolding cut
cut-append sep [] ys p h = ground arith
cut-append sep (b ∷ bs) ys p h = elim (Option-cases (after sep (b ∷ bs))) [
  | inl e ↦ elim (Option-cases (cut sep bs)) [
    | inl e' ↦
        let absent : none ≡ some p =
          sym (ap (λ c. here_or none (begin_with b c)) e')
          ∙ sym (ap (λ o. here_or o (begin_with b (cut sep bs))) e)
          ∙ h in
        ground arith
    | inr (q, e') ↦
        let room : length sep ≤ length bs = subst (HasRoom sep bs) e' (cut-HasRoom sep bs) in
        let here = after_not-append sep (b ∷ bs) ys e (omega (arith, room)) in
        let same : some (b ∷ q.0, q.1) ≡ some p =
          sym (ap (λ c. here_or none (begin_with b c)) e')
          ∙ sym (ap (λ o. here_or o (begin_with b (cut sep bs))) e)
          ∙ h in
        ap (λ o. here_or o (begin_with b (cut sep (bs ++ ys)))) here
        ∙ ap (begin_with b) (cut-append sep bs ys q e')
        ∙ ap (λ (v : Bytes × Bytes). some (v.0, v.1 ++ ys)) (some-injective _ _ same)
  ]
  | inr (r, e) ↦
      let same : some ([], r) ≡ some p =
        sym (ap (λ o. here_or o (begin_with b (cut sep bs))) e) ∙ h in
      ap (λ o. here_or o (begin_with b (cut sep (bs ++ ys)))) (after-append sep (b ∷ bs) ys r e)
      ∙ ap (λ (v : Bytes × Bytes). some (v.0, v.1 ++ ys)) (some-injective _ _ same)
]

not_blank : (c : ℕ) (h rest : Bytes) → is_blank (c ∷ (h ++ 13 ∷ 10 ∷ rest)) ≡ false
unfolding is_blank
not_blank c [] rest = refl
not_blank c (d ∷ []) rest = refl
not_blank c (d ∷ d' ∷ h) rest = refl

-- A part as a client sends it: after the boundary a line end, a header section, a blank line, the file, and a
-- line end. A file that ends in white space, whatever it is, has lost all of it: what is stored ends with its last
-- byte that is no white space.
pub parse_part-ends :
    (c x : ℕ) (h e ws : Bytes)
    → is_space c ≡ false
    → cut crlf2 (c ∷ h ++ crlf2) ≡ some (c ∷ h, [])
    → is_space x ≡ false
    → AllSpaces ws
    → parse_part (13 ∷ 10 ∷ c ∷ (h ++ (crlf2 ++ (e ++ x ∷ (ws ++ 13 ∷ 10 ∷ [])))))
      ≡ some (c ∷ h, e ++ x ∷ [])
unfolding parse_part lstrip is_space
parse_part-ends c x h e ws first header last spaces =
    let tail = crlf2 ++ (e ++ x ∷ (ws ++ 13 ∷ 10 ∷ [])) in
    let text : Bytes = c ∷ (h ++ (crlf2 ++ (e ++ x ∷ []))) in
    let take_apart : Bytes → Cut = λ p.
      if is_blank p then none else with_content (or_else (cut crlf2 p) (cut (10 ∷ 10 ∷ []) p)) in
    let stripped : rstrip (c ∷ (h ++ tail)) ≡ text =
      ap rstrip (sym (append_assoc (c ∷ h) (crlf2 ++ e) (x ∷ (ws ++ 13 ∷ 10 ∷ []))))
      ∙ rstrip_to (c ∷ h ++ (crlf2 ++ e)) (ws ++ 13 ∷ 10 ∷ []) x last
          (All-append (λ b. is_space b ≡ true) ws (13 ∷ 10 ∷ []) spaces (refl, (refl, tt)))
      ∙ append_assoc (c ∷ h) (crlf2 ++ e) (x ∷ []) in
    let whole : cut crlf2 text ≡ some (c ∷ h, e ++ x ∷ []) =
      ap (cut crlf2) (sym (append_assoc (c ∷ h) crlf2 (e ++ x ∷ [])))
      ∙ cut-append crlf2 (c ∷ h ++ crlf2) (e ++ x ∷ []) (c ∷ h, []) header in
    ap (λ l. take_apart (rstrip l))
      (if_false (is_space c) (lstrip (h ++ tail)) (c ∷ (h ++ tail)) first)
    ∙ ap take_apart stripped
    ∙ if_false (is_blank text) _ _ (not_blank c h (13 ∷ 10 ∷ (e ++ x ∷ [])))
    ∙ ap (λ o. with_content (or_else o (cut (10 ∷ 10 ∷ []) text))) whole
    ∙ ap (λ d. some (c ∷ h, d)) (drop_crlf_last e x (ground arith))
