-- ===== src/Book/Best.antt =====
-- The best price index: the scans that follow an emptied level find the next non-empty level.
use financial_exchange.Common.{
  ℕ, zero, suc, ◌+◌, ◌≤◌, ◌<◌, ◌≡◌, refl, ◌⊎◌, inl, inr, arith, ltb, ltb→lt, ltb→le, Bool-cases,
  subst, dec_lt, ◌∙◌, ◌≢◌, ◌||◌, ◌==◌, if◌then◌else◌, ne→==, or_true,
}
use financial_exchange.Types.{num_book_levels}
use financial_exchange.Book.Side.{PriceLevel, scan_down, scan_up}

-- Two maps of levels with the same totals but at `b`.
abbrev pub SameBut : ℕ → (ℕ → PriceLevel) → (ℕ → PriceLevel) → Type 0
SameBut b l l' = (j : ℕ) → j ≢ b → (l' j).total_quantity ≡ (l j).total_quantity

-- `r` is the highest non-empty level below `n`, or `NUM_BOOK_LEVELS` if there is none.
abbrev pub IsHighest : (ℕ → PriceLevel) → ℕ → ℕ → Type 0
IsHighest levels n r =
    ((r ≡ num_book_levels) × ((j : ℕ) → j < n → (levels j).total_quantity ≡ 0))
    ⊎ ((r < n)
        × (0 < (levels r).total_quantity)
        × ((j : ℕ) → r < j → j < n → (levels j).total_quantity ≡ 0))

-- `r` is the lowest non-empty level from `n` on, or `NUM_BOOK_LEVELS` if there is none.
abbrev pub IsLowest : (ℕ → PriceLevel) → ℕ → ℕ → Type 0
IsLowest levels n r =
    ((r ≡ num_book_levels)
      × ((j : ℕ) → n ≤ j → j < num_book_levels → (levels j).total_quantity ≡ 0))
    ⊎ ((n ≤ r)
        × (r < num_book_levels)
        × (0 < (levels r).total_quantity)
        × ((j : ℕ) → n ≤ j → j < r → (levels j).total_quantity ≡ 0))

IsHighest-suc :
    (levels : ℕ → PriceLevel) (i r : ℕ)
    → (levels i).total_quantity ≡ 0
    → IsHighest levels i r
    → IsHighest levels (suc i) r
IsHighest-suc levels i r e (inl (p, h)) = inl (
  p,
  λ j k. elim (dec_lt j i) [
    | yes q ↦ h j q
    | no q ↦ subst (λ t. (levels t).total_quantity ≡ 0) (omega arith) e
  ],
)
IsHighest-suc levels i r e (inr (p, v, h)) = inr (
  omega arith,
  v,
  λ j a k. elim (dec_lt j i) [
    | yes q ↦ h j a q
    | no q ↦ subst (λ t. (levels t).total_quantity ≡ 0) (omega arith) e
  ],
)

pub scan_down-IsHighest :
    (levels : ℕ → PriceLevel) (n : ℕ) → IsHighest levels n (scan_down levels n)
unfolding scan_down
scan_down-IsHighest levels zero = inl (refl, λ j h. absurd (omega arith))
scan_down-IsHighest levels (suc i) = elim (Bool-cases (ltb 0 (levels i).total_quantity)) [
  | inl some_volume ↦
      rw (some_volume, scan_down)
        (inr (omega arith, ltb→lt _ _ some_volume, λ j h k. absurd (omega arith)))
  | inr empty ↦
      rw (empty, scan_down)
        (IsHighest-suc levels i _ (omega (arith, ltb→le _ _ empty)) (scan_down-IsHighest levels i))
]

IsLowest-step :
    (levels : ℕ → PriceLevel) (i r : ℕ)
    → (levels i).total_quantity ≡ 0
    → IsLowest levels (i + 1) r
    → IsLowest levels i r
IsLowest-step levels i r e (inl (p, h)) = inl (
  p,
  λ j a k. elim (dec_lt i j) [
    | yes q ↦ h j (omega arith) k
    | no q ↦ subst (λ t. (levels t).total_quantity ≡ 0) (omega arith) e
  ],
)
IsLowest-step levels i r e (inr (p, n, v, h)) = inr (
  omega arith,
  n,
  v,
  λ j a k. elim (dec_lt i j) [
    | yes q ↦ h j (omega arith) k
    | no q ↦ subst (λ t. (levels t).total_quantity ≡ 0) (omega arith) e
  ],
)

pub scan_up-IsLowest :
    (levels : ℕ → PriceLevel) (rounds i : ℕ)
    → i + rounds ≡ num_book_levels
    → IsLowest levels i (scan_up levels rounds i)
unfolding scan_up
scan_up-IsLowest levels zero i e = inl (refl, λ j h k. absurd (omega arith))
scan_up-IsLowest levels (suc rounds) i e = elim (Bool-cases (ltb 0 (levels i).total_quantity)) [
  | inl some_volume ↦
      rw (some_volume, scan_up)
        (inr (omega arith, omega arith, ltb→lt _ _ some_volume, λ j h k. absurd (omega arith)))
  | inr empty ↦
      rw (empty, scan_up)
        (IsLowest-step levels i _ (omega (arith, ltb→le _ _ empty))
          (scan_up-IsLowest levels rounds (i + 1) (omega arith)))
]

-- The levels above `b` were empty, level `b` is empty now, and those below are as `rest` says.
above :
    (b : ℕ) (l l' : ℕ → PriceLevel)
    → SameBut b l l'
    → (l' b).total_quantity ≡ 0
    → ((j : ℕ) → b < j → j < num_book_levels → (l j).total_quantity ≡ 0)
    → (j : ℕ) → j < num_book_levels
    → (j < b → (l' j).total_quantity ≡ 0)
    → (l' j).total_quantity ≡ 0
above b l l' same empty h j a rest = elim (dec_lt j b) [
  | yes p ↦ rest p
  | no p ↦ elim (dec_lt b j) [
    | yes q ↦ same j (omega arith) ∙ h j q a
    | no q ↦ subst (λ t. (l' t).total_quantity ≡ 0) (omega arith) empty
  ]
]

below :
    (b : ℕ) (l l' : ℕ → PriceLevel)
    → SameBut b l l'
    → (l' b).total_quantity ≡ 0
    → ((j : ℕ) → j < b → (l j).total_quantity ≡ 0)
    → (j : ℕ) → (b < j → (l' j).total_quantity ≡ 0)
    → (l' j).total_quantity ≡ 0
below b l l' same empty h j rest = elim (dec_lt b j) [
  | yes p ↦ rest p
  | no p ↦ elim (dec_lt j b) [
    | yes q ↦ same j (omega arith) ∙ h j q
    | no q ↦ subst (λ t. (l' t).total_quantity ≡ 0) (omega arith) empty
  ]
]

module _ (l l' : ℕ → PriceLevel) (b : ℕ) where
  pub IsHighest-keep :
      SameBut b l l'
      → 0 < (l' b).total_quantity
      → IsHighest l num_book_levels b
      → b < num_book_levels
      → IsHighest l' num_book_levels b
  IsHighest-keep same pos (inl (p, h)) k = absurd (omega arith)
  IsHighest-keep same pos (inr (p, v, h)) k = inr (p, pos, λ j a c. same j (omega arith) ∙ h j a c)

  pub IsLowest-keep :
      SameBut b l l'
      → 0 < (l' b).total_quantity
      → IsLowest l 0 b
      → b < num_book_levels
      → IsLowest l' 0 b
  IsLowest-keep same pos (inl (p, h)) k = absurd (omega arith)
  IsLowest-keep same pos (inr (a, p, v, h)) k =
      inr (a, p, pos, λ j c d. same j (omega arith) ∙ h j c d)

  pub IsHighest-same :
      ((j : ℕ) → (l' j).total_quantity ≡ (l j).total_quantity)
      → IsHighest l num_book_levels b
      → IsHighest l' num_book_levels b
  IsHighest-same same (inl (p, h)) = inl (p, λ j a. same j ∙ h j a)
  IsHighest-same same (inr (p, v, h)) = inr (p, omega (arith, same b), λ j a c. same j ∙ h j a c)

  pub IsLowest-same :
      ((j : ℕ) → (l' j).total_quantity ≡ (l j).total_quantity) → IsLowest l 0 b → IsLowest l' 0 b
  IsLowest-same same (inl (p, h)) = inl (p, λ j a c. same j ∙ h j a c)
  IsLowest-same same (inr (a, p, v, h)) =
      inr (a, p, omega (arith, same b), λ j c d. same j ∙ h j c d)

  pub IsHighest-occupied :
      IsHighest l num_book_levels b
      → b ≢ num_book_levels
      → (b < num_book_levels) × (0 < (l b).total_quantity)
  IsHighest-occupied (inl (p, h)) k = absurd (k p)
  IsHighest-occupied (inr (p, v, h)) k = (p, v)

  pub IsLowest-occupied :
      IsLowest l 0 b → b ≢ num_book_levels → (b < num_book_levels) × (0 < (l b).total_quantity)
  IsLowest-occupied (inl (p, h)) k = absurd (k p)
  IsLowest-occupied (inr (a, p, v, h)) k = (p, v)

  -- After the best level has been emptied, the next one down is the best, or none is.
  pub IsHighest-emptied :
      (r : ℕ)
      → b < num_book_levels
      → SameBut b l l'
      → (l' b).total_quantity ≡ 0
      → IsHighest l num_book_levels b
      → IsHighest l' b r
      → IsHighest l' num_book_levels r
  IsHighest-emptied r k same empty (inl (p, h)) next = absurd (omega arith)
  IsHighest-emptied r k same empty (inr (p, v, h)) (inl (e, g)) =
      inl (e, λ j a. above b l l' same empty h j a (λ c. g j c))
  IsHighest-emptied r k same empty (inr (p, v, h)) (inr (e, w, g)) =
      inr (omega arith, w, λ j c a. above b l l' same empty h j a (λ d. g j c d))

  pub IsLowest-emptied :
      (r : ℕ)
      → b < num_book_levels
      → SameBut b l l'
      → (l' b).total_quantity ≡ 0
      → IsLowest l 0 b
      → IsLowest l' (b + 1) r
      → IsLowest l' 0 r
  IsLowest-emptied r k same empty (inl (p, h)) next = absurd (omega arith)
  IsLowest-emptied r k same empty (inr (a, p, v, h)) (inl (e, g)) = inl (
    e,
    λ j c d. below b l l' same empty (λ i q. h i (omega arith) q) j (λ q. g j (omega arith) d),
  )
  IsLowest-emptied r k same empty (inr (a, p, v, h)) (inr (e, n, w, g)) = inr (
    omega arith,
    n,
    w,
    λ j c d. below b l l' same empty (λ i q. h i (omega arith) q) j (λ q. g j (omega arith) d),
  )

-- The best index after an order has been added to level `i`, as the code computes it.
pub IsLowest-added :
    (l l' : ℕ → PriceLevel) (b i : ℕ)
    → i < num_book_levels
    → SameBut i l l'
    → 0 < (l' i).total_quantity
    → IsLowest l 0 b
    → IsLowest l' 0 (if b == num_book_levels || ltb i b then i else b)
IsLowest-added l l' b i h same pos (inl (p, e)) =
    rw p (inr (omega arith, h, pos, λ j c d. same j (omega arith) ∙ e j c (omega arith)))
IsLowest-added l l' b i h same pos (inr (a, p, v, e)) = elim (Bool-cases (ltb i b)) [
  | inl lower ↦
      let k = ltb→lt i b lower in
      rw (lower, or_true)
        (inr (omega arith, h, pos, λ j c d. same j (omega arith) ∙ e j c (omega arith)))
  | inr higher ↦
      let k = ltb→le i b higher in
      rw (higher, ne→== b num_book_levels (omega arith))
        (inr (a, p, kept k, λ j c d. same j (omega arith) ∙ e j c d))
]
  where
    kept : b ≤ i → 0 < (l' b).total_quantity
    kept k = elim (dec_lt b i) [
      | yes q ↦ omega (arith, same b (omega arith))
      | no q ↦ subst (λ t. 0 < (l' t).total_quantity) (omega arith) pos
    ]

pub IsHighest-added :
    (l l' : ℕ → PriceLevel) (b i : ℕ)
    → i < num_book_levels
    → SameBut i l l'
    → 0 < (l' i).total_quantity
    → IsHighest l num_book_levels b
    → IsHighest l' num_book_levels (if b == num_book_levels || ltb b i then i else b)
IsHighest-added l l' b i h same pos (inl (p, e)) =
    rw p (inr (h, pos, λ j c d. same j (omega arith) ∙ e j d))
IsHighest-added l l' b i h same pos (inr (p, v, e)) = elim (Bool-cases (ltb b i)) [
  | inl higher ↦
      let k = ltb→lt b i higher in
      rw (higher, or_true) (inr (h, pos, λ j c d. same j (omega arith) ∙ e j (omega arith) d))
  | inr lower ↦
      let k = ltb→le b i lower in
      rw (lower, ne→== b num_book_levels (omega arith))
        (inr (p, kept k, λ j c d. same j (omega arith) ∙ e j c d))
]
  where
    kept : i ≤ b → 0 < (l' b).total_quantity
    kept k = elim (dec_lt i b) [
      | yes q ↦ omega (arith, same b (omega arith))
      | no q ↦ subst (λ t. 0 < (l' t).total_quantity) (omega arith) pos
    ]
