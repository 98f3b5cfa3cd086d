-- ===== src/Shadow/BestPrices.antt =====
-- The best prices of the copy of the book, and its state after a snapshot.
use financial_exchange.Common.{
  ℕ, ◌≡◌, refl, sym, ap, ◌∙◌, ◌⊎◌, inl, inr, true, Option, none, some, List, [], ◌∷◌, All, All-map,
  arith, ltb, Bool-cases, if◌then◌else◌, if_true, if_false, if_both, ℤ,
}
use financial_exchange.Types.{buy, sell}
use financial_exchange.Protocol.Payloads.{PayloadOrderBookSnapshot}
use financial_exchange.Shadow.Levels.{
  Levels, less, same_price, find_level, set_level, IsLevels, less_trans, less_apart, same_price_eq,
  same_price_refl,
}
use financial_exchange.Shadow.Keeping.{set_level-IsLevels, find_level_below}
use financial_exchange.Shadow.ShadowBook.{
  ShadowOrderBook, snapshot_loop, on_order_book_snapshot, first_price, last_price, best_bid_price,
  best_ask_price, volume_at,
}
use financial_exchange.Shadow.Tracking.{IsShadow}

-- A price that is found is among the prices.
find_level-All :
    (q p : ℤ) (v : ℕ) (l : Levels)
    → All (λ f. less q f.0 ≡ true) l
    → find_level p l ≡ some v
    → less q p ≡ true
unfolding find_level
find_level-All q p v [] h e = absurd (no_volume v e)
  where
    no_volume : (v : ℕ) → none ≡ some v → ⊥
    no_volume v e = ground arith
find_level-All q p v (f ∷ rest) h e = elim (Bool-cases (same_price p f.0)) [
  | inl k ↦ ap (less q) (same_price_eq p f.0 k) ∙ h.0
  | inr k ↦ find_level-All q p v rest h.1 (sym (if_false _ _ _ k) ∙ e)
]

-- The last price is the highest.
abbrev Highest : Levels → Type 0
Highest l =
    ((last_price l ≡ none) × ((q : ℤ) → find_level q l ≡ none))
    ⊎ ((p : ℤ) × (v : ℕ) × (last_price l ≡ some p)
        × (find_level p l ≡ some v)
        × ((q : ℤ) → less p q ≡ true → find_level q l ≡ none))

last_price-Highest : (l : Levels) → IsLevels l → Highest l
unfolding last_price find_level
last_price-Highest [] ok = inl (refl, λ q. refl)
last_price-Highest (e ∷ []) ok = inr (
  e.0,
  e.1,
  refl,
  if_true _ _ _ (same_price_refl e.0),
  λ q h. if_false _ _ _ (less_apart e.0 q h).1,
)
last_price-Highest (e ∷ f ∷ rest) ok = elim (last_price-Highest (f ∷ rest) ok.1) [
  | inl k ↦ absurd (found f.1 (sym (k.1 f.0) ∙ if_true _ _ _ (same_price_refl f.0)))
  | inr (p, v, last, here, above) ↦
      let below = find_level-All e.0 p v (f ∷ rest) ok.0 here in
      inr (
        p,
        v,
        last,
        if_false _ _ _ (less_apart e.0 p below).1 ∙ here,
        λ q h. if_false _ _ _ (less_apart e.0 q (less_trans e.0 p q below h)).1 ∙ above q h,
      )
]
  where
    found : (v : ℕ) → none ≡ some v → ⊥
    found v e = ground arith

-- The first price is the lowest.
abbrev Lowest : Levels → Type 0
Lowest l =
    ((first_price l ≡ none) × ((q : ℤ) → find_level q l ≡ none))
    ⊎ ((p : ℤ) × (v : ℕ) × (first_price l ≡ some p)
        × (find_level p l ≡ some v)
        × ((q : ℤ) → less q p ≡ true → find_level q l ≡ none))

first_price-Lowest : (l : Levels) → IsLevels l → Lowest l
unfolding first_price find_level
first_price-Lowest [] ok = inl (refl, λ q. refl)
first_price-Lowest (e ∷ rest) ok = inr (
  e.0,
  e.1,
  refl,
  if_true _ _ _ (same_price_refl e.0),
  λ q h. if_false _ _ _ (less_apart q e.0 h).0 ∙ find_level_below q rest (under q h),
)
  where
    under : (q : ℤ) → less q e.0 ≡ true → All (λ f. less q f.0 ≡ true) rest
    under q h =
        All-map (λ f. less e.0 f.0 ≡ true) (λ f. less q f.0 ≡ true) rest
          (λ f k. less_trans q e.0 f.0 h k) ok.0

-- For a copy whose maps are in order: there is no best bid price and no bid has a volume, or the best bid
-- price is one of the bids' and no bid above it has a volume; so for the asks, with none below.
pub best_prices :
    (s : ShadowOrderBook)
    → IsShadow s
    → (((best_bid_price s ≡ none) × ((q : ℤ) → volume_at buy q s ≡ 0))
        ⊎ ((p : ℤ) × (v : ℕ) × (best_bid_price s ≡ some p)
            × (find_level p s.bids ≡ some v)
            × ((q : ℤ) → less p q ≡ true → volume_at buy q s ≡ 0)))
      × (((best_ask_price s ≡ none) × ((q : ℤ) → volume_at sell q s ≡ 0))
          ⊎ ((p : ℤ) × (v : ℕ) × (best_ask_price s ≡ some p)
              × (find_level p s.asks ≡ some v)
              × ((q : ℤ) → less q p ≡ true → volume_at sell q s ≡ 0)))
unfolding best_bid_price best_ask_price volume_at
best_prices s ok = (
  elim (last_price-Highest s.bids ok.0) [
    | inl k ↦ inl (k.0, λ q. ap volume (k.1 q))
    | inr (p, v, best, here, beyond) ↦ inr (p, v, best, here, λ q h. ap volume (beyond q h))
  ],
  elim (first_price-Lowest s.asks ok.1) [
    | inl k ↦ inl (k.0, λ q. ap volume (k.1 q))
    | inr (p, v, best, here, beyond) ↦ inr (p, v, best, here, λ q h. ap volume (beyond q h))
  ],
)
  where
    volume : Option ℕ → ℕ
    volume o = elim o [ none ↦ 0 | some v ↦ v ]

snapshot_loop-IsShadow :
    (aps : List ℤ) (av : List ℕ) (bp : List ℤ) (bv : List ℕ) (s : ShadowOrderBook)
    → IsShadow s
    → IsShadow (snapshot_loop aps av bp bv s)
unfolding snapshot_loop
snapshot_loop-IsShadow (a ∷ more) (v ∷ vs) (b ∷ bs) (w ∷ ws) s ok =
    snapshot_loop-IsShadow more vs bs ws
      (record {
        asks = if ltb 0 v then set_level a v s.asks else s.asks;
        bids = if ltb 0 w then set_level b w s.bids else s.bids;
      })
      (
        if_both IsLevels (ltb 0 w) (set_level-IsLevels b w s.bids ok.0) ok.0,
        if_both IsLevels (ltb 0 v) (set_level-IsLevels a v s.asks ok.1) ok.1,
      )
snapshot_loop-IsShadow [] av bp bv s ok = ok
snapshot_loop-IsShadow (a ∷ more) [] bp bv s ok = ok
snapshot_loop-IsShadow (a ∷ more) (v ∷ vs) [] bv s ok = ok
snapshot_loop-IsShadow (a ∷ more) (v ∷ vs) (b ∷ bs) [] s ok = ok

-- Whatever the copy was, a snapshot puts its maps in order.
pub on_order_book_snapshot-IsShadow :
    (m : PayloadOrderBookSnapshot) (s : ShadowOrderBook) → IsShadow (on_order_book_snapshot m s)
unfolding on_order_book_snapshot
on_order_book_snapshot-IsShadow m s =
    snapshot_loop-IsShadow m.ask_prices m.ask_volumes m.bid_prices m.bid_volumes
      (record { bids = []; asks = [] }) (tt, tt)
