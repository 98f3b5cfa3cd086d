-- ===== src/Shadow/Keeping.antt =====
-- Reading a map that was written to, and its order.
use financial_exchange.Common.{
  ℕ, ◌≡◌, refl, sym, ap, ◌∙◌, subst, inl, inr, true, false, Option, none, some, [], ◌∷◌, All,
  All-map, Bool-cases, if◌then◌else◌, if_true, if_false, if_both, ℤ,
}
use financial_exchange.Shadow.Levels.{
  less, same_price, Levels, find_level, set_level, erase_level, IsLevels, less_trans, less_total,
  same_price_eq, less_apart,
}

-- A map that is read: the written value at the price, and what was there elsewhere.
abbrev pub written : ℤ → Option ℕ → ℤ → Option ℕ → Option ℕ
written p v q old = if same_price q p then v else old

pub find_level_below : (p : ℤ) (l : Levels) → All (λ f. less p f.0 ≡ true) l → find_level p l ≡ none
unfolding find_level
find_level_below p [] h = refl
find_level_below p (e ∷ rest) h =
    if_false _ _ _ (less_apart p e.0 h.0).0 ∙ find_level_below p rest h.1

apart : (q p r : ℤ) → same_price q p ≡ true → same_price p r ≡ false → same_price q r ≡ false
apart q p r e h = ap (λ k. same_price k r) (same_price_eq q p e) ∙ h

-- An entry that is put before: the price of the write is another one.
swap_tests :
    (p q r : ℤ) (v w old : Option ℕ)
    → same_price p r ≡ false
    → (if same_price q r then w else written p v q old)
      ≡ written p v q (if same_price q r then w else old)
swap_tests p q r v w old h = elim (Bool-cases (same_price q p)) [
  | inl e ↦ if_false _ _ _ (apart q p r e h) ∙ if_true _ _ _ e ∙ sym (if_true _ _ _ e)
  | inr e ↦ ap (λ k. if same_price q r then w else k) (if_false _ _ _ e) ∙ sym (if_false _ _ _ e)
]

-- An entry for the same price is replaced.
drop_test :
    (p q r : ℤ) (v w old : Option ℕ)
    → p ≡ r
    → written p v q old ≡ written p v q (if same_price q r then w else old)
drop_test p q r v w old e = elim (Bool-cases (same_price q p)) [
  | inl k ↦ if_true _ _ _ k ∙ sym (if_true _ _ _ k)
  | inr k ↦
      if_false _ _ _ k ∙ sym (if_false _ _ _ k ∙ if_false _ _ _ (ap (same_price q) (sym e) ∙ k))
]

pub find_level-set_level :
    (p q : ℤ) (v : ℕ) (l : Levels)
    → find_level q (set_level p v l) ≡ written p (some v) q (find_level q l)
unfolding find_level set_level
find_level-set_level p q v [] = refl
find_level-set_level p q v (e ∷ rest) = elim (Bool-cases (less p e.0)) [
  | inl h ↦ ap (find_level q) (if_true _ _ _ h)
  | inr h ↦ elim (Bool-cases (less e.0 p)) [
    | inl k ↦
        ap (find_level q) (if_false _ _ _ h ∙ if_true _ _ _ k)
        ∙ ap (λ o. if same_price q e.0 then some e.1 else o) (find_level-set_level p q v rest)
        ∙ swap_tests p q e.0 (some v) (some e.1) (find_level q rest) (less_apart e.0 p k).1
    | inr k ↦
        ap (find_level q) (if_false _ _ _ h ∙ if_false _ _ _ k)
        ∙ drop_test p q e.0 (some v) (some e.1) (find_level q rest) (less_total p e.0 h k)
  ]
]

pub find_level-erase_level :
    (p q : ℤ) (l : Levels)
    → IsLevels l
    → find_level q (erase_level p l) ≡ written p none q (find_level q l)
unfolding find_level erase_level
find_level-erase_level p q [] ok = elim (Bool-cases (same_price q p)) [
  | inl e ↦ sym (if_true _ _ _ e)
  | inr e ↦ sym (if_false _ _ _ e)
]
find_level-erase_level p q (e ∷ rest) ok = elim (Bool-cases (same_price p e.0)) [
  | inl h ↦
      let here = same_price_eq p e.0 h in
      let above = subst (λ k. All (λ f. less k f.0 ≡ true) rest) (sym here) ok.0 in
      ap (find_level q) (if_true _ _ _ h)
      ∙ gone q (find_level_below p rest above)
      ∙ drop_test p q e.0 none (some e.1) (find_level q rest) here
  | inr h ↦
      ap (find_level q) (if_false _ _ _ h)
      ∙ ap (λ o. if same_price q e.0 then some e.1 else o) (find_level-erase_level p q rest ok.1)
      ∙ swap_tests p q e.0 none (some e.1) (find_level q rest) h
]
  where
    gone :
        (q : ℤ)
        → find_level p rest ≡ none
        → find_level q rest ≡ written p none q (find_level q rest)
    gone q none_here = elim (Bool-cases (same_price q p)) [
      | inl e ↦
          ap (λ k. find_level k rest) (same_price_eq q p e) ∙ none_here ∙ sym (if_true _ _ _ e)
      | inr e ↦ sym (if_false _ _ _ e)
    ]

set_level-All :
    (q p : ℤ) (v : ℕ) (l : Levels)
    → less q p ≡ true
    → All (λ f. less q f.0 ≡ true) l
    → All (λ f. less q f.0 ≡ true) (set_level p v l)
unfolding set_level
set_level-All q p v [] here h = (here, tt)
set_level-All q p v (e ∷ rest) here h =
    let later = set_level-All q p v rest here h.1 in
    if_both (All (λ f. less q f.0 ≡ true)) (less p e.0) (here, h)
      (if_both (All (λ f. less q f.0 ≡ true)) (less e.0 p) (h.0, later) (here, h.1))

pub set_level-IsLevels : (p : ℤ) (v : ℕ) (l : Levels) → IsLevels l → IsLevels (set_level p v l)
unfolding set_level
set_level-IsLevels p v [] ok = (tt, tt)
set_level-IsLevels p v (e ∷ rest) ok = elim (Bool-cases (less p e.0)) [
  | inl h ↦
      subst IsLevels (sym (if_true _ _ _ h))
        ((h, All-map _ (λ f. less p f.0 ≡ true) rest (λ f k. less_trans p e.0 f.0 h k) ok.0), ok)
  | inr h ↦ elim (Bool-cases (less e.0 p)) [
    | inl k ↦
        subst IsLevels (sym (if_false _ _ _ h ∙ if_true _ _ _ k))
          (set_level-All e.0 p v rest k ok.0, set_level-IsLevels p v rest ok.1)
    | inr k ↦
        subst IsLevels (sym (if_false _ _ _ h ∙ if_false _ _ _ k))
          (subst (λ r. All (λ f. less r f.0 ≡ true) rest) (sym (less_total p e.0 h k)) ok.0, ok.1)
  ]
]

erase_level-All :
    (q p : ℤ) (l : Levels)
    → All (λ f. less q f.0 ≡ true) l
    → All (λ f. less q f.0 ≡ true) (erase_level p l)
unfolding erase_level
erase_level-All q p [] h = tt
erase_level-All q p (e ∷ rest) h =
    if_both (All (λ f. less q f.0 ≡ true)) (same_price p e.0) h.1
      (h.0, erase_level-All q p rest h.1)

pub erase_level-IsLevels : (p : ℤ) (l : Levels) → IsLevels l → IsLevels (erase_level p l)
unfolding erase_level
erase_level-IsLevels p [] ok = tt
erase_level-IsLevels p (e ∷ rest) ok =
    if_both IsLevels (same_price p e.0) ok.1
      (erase_level-All e.0 p rest ok.0, erase_level-IsLevels p rest ok.1)
