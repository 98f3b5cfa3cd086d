-- ===== src/Book/Matcher.antt =====
-- What a matching loop needs of its taker and of the best price index, and what it keeps.
use financial_exchange.Common.{
  ℕ, ◌+◌, ◌≤◌, ◌<◌, ◌≡◌, ap, ◌∙◌, sub32_lem, ◌≢◌, ◌⊎◌, inl, inr, Bool, true, false, none, some,
  List, ◌∷◌, arith, update, update_ne, Option-cases, ℕ_discrete, refl, update_all,
}
use financial_exchange.Types.{num_book_levels}
use financial_exchange.Book.Best.{SameBut}
use financial_exchange.Book.Pool.{Order, OrderPool}
use financial_exchange.Book.Side.{OrderBookSide, PriceLevel}
use financial_exchange.Book.Match.{Taker, MatchState, level_test}
use financial_exchange.Book.Invariant.{AllResting, IsLevel, IsSide, volume}
use financial_exchange.Book.Trading.{reduce, popped_level, filled_side}
use financial_exchange.Book.Matching.{Advances, traded}

-- What the loop needs of `advance_best`: `Best levels b` says that `b` is the best price index.
pub record IsMatcher (t : Taker) (Best : (ℕ → PriceLevel) → ℕ → Type 0) : Type 0 where
  pub advances : Advances t.advance_best
  pub keep :
      (l l' : ℕ → PriceLevel) (b : ℕ)
      → b < num_book_levels
      → SameBut b l l'
      → 0 < (l' b).total_quantity
      → Best l b
      → Best l' b
  pub same :
      (l l' : ℕ → PriceLevel) (b : ℕ)
      → ((j : ℕ) → (l' j).total_quantity ≡ (l j).total_quantity)
      → Best l b
      → Best l' b
  pub emptied :
      (l : ℕ → PriceLevel) (s : OrderBookSide)
      → s.best_price_index < num_book_levels
      → SameBut s.best_price_index l s.levels
      → (s.levels s.best_price_index).total_quantity ≡ 0
      → Best l s.best_price_index
      → Best s.levels (t.advance_best s).best_price_index
  pub occupied :
      (l : ℕ → PriceLevel) (b : ℕ)
      → Best l b
      → b ≢ num_book_levels
      → (b < num_book_levels) × (0 < (l b).total_quantity)

-- A well-formed side whose best index is right, as in every state between requests.
pub record IsOrdered (Best : (ℕ → PriceLevel) → ℕ → Type 0) (s : OrderBookSide) : Type 0 where
  pub queue : ℕ → List ℕ
  pub free : List ℕ
  pub side : IsSide s queue free
  pub best : Best s.levels s.best_price_index

-- No level holds more than `base` says, and one whose price, which is its number plus 1, does not
-- cross holds just that.
abbrev pub Within : Taker → (ℕ → ℕ) → OrderBookSide → Type 0
Within t base s =
    (j : ℕ)
    → ((s.levels j).total_quantity ≤ base j)
      × (t.crosses (j + 1) t.price ≡ false → (s.levels j).total_quantity ≡ base j)

-- Level `i` has lost volume, or none, and no other level has changed its volume.
abbrev pub Shrinks : ℕ → (ℕ → PriceLevel) → (ℕ → PriceLevel) → Type 0
Shrinks i l l' =
    (j : ℕ)
    → ((l' j).total_quantity ≤ (l j).total_quantity)
      × (j ≢ i → (l' j).total_quantity ≡ (l j).total_quantity)

pub Shrinks-Within :
    (t : Taker) (base : ℕ → ℕ) (i : ℕ) (s s' : OrderBookSide)
    → t.crosses (i + 1) t.price ≡ true
    → Shrinks i s.levels s'.levels
    → Within t base s
    → Within t base s'
Shrinks-Within t base i s s' crossed shrinks w j = (
  omega (arith, (shrinks j).0, (w j).0),
  λ c. elim (ℕ_discrete j i) [ yes e ↦ cc | no n ↦ (shrinks j).1 n ∙ (w j).1 c ],
)

-- The state of the inner loop at level `i`, begun with `start` units to match.
pub record LevelInv (t : Taker) (Best : (ℕ → PriceLevel) → ℕ → Type 0) (base : ℕ → ℕ) (i start : ℕ)
    (m : MatchState) : Type 0 where
  pub ordered : IsOrdered Best m.side
  pub frontier : (m.side.best_price_index ≡ i) ⊎ ((m.side.levels i).first ≡ none)
  pub within : Within t base m.side
  pub conserved : traded m.events + m.incoming ≡ t.quantity
  pub progress : (m.incoming < start) ⊎ ((m.incoming ≡ start) × ((m.side.levels i).first ≢ none))

-- A level that holds an order has volume.
pub volume_pos :
    (pool : ℕ → Order) (is_bid : Bool) (i x : ℕ) (xs : List ℕ)
    → AllResting pool is_bid i (x ∷ xs)
    → 0 < volume pool (x ∷ xs)
unfolding volume
volume_pos pool is_bid i x xs r = omega (arith, r.0.positive)

pub level_test-true :
    (i : ℕ) (m : MatchState)
    → level_test i m ≡ true
    → (0 < m.incoming) × ((slot : ℕ) × ((m.side.levels i).first ≡ some slot))
unfolding level_test
level_test-true i m e = elim (Option-cases (m.side.levels i).first) [
  | inl h ↦ ground arith
  | inr (slot, h) ↦ (ground arith, (slot, h))
]

pub level_test-false :
    (i : ℕ) (m : MatchState)
    → level_test i m ≡ false
    → (m.incoming ≡ 0) ⊎ ((m.side.levels i).first ≡ none)
unfolding level_test
level_test-false i m e = ground arith

pub reduce_le :
    (l : PriceLevel) (p : OrderPool) (is_bid : Bool) (i slot n : ℕ) (xs : List ℕ)
    → IsLevel l p is_bid i (slot ∷ xs)
    → n ≤ (p.pool slot).quantity_remaining
    → (reduce l n).total_quantity ≤ l.total_quantity
unfolding volume
reduce_le l p is_bid i slot n xs v h = omega (arith, v.total, v.small, sub32_lem l.total_quantity n)

-- Filling the maker at the front of level `i` adds to no level.
pub filled-Shrinks :
    (s : OrderBookSide) (i slot b : ℕ) (xs : List ℕ)
    → IsLevel (s.levels i) s.pool s.is_bid i (slot ∷ xs)
    → Shrinks i s.levels (filled_side s i slot b).levels
filled-Shrinks s i slot b xs lv =
    let reduced = reduce (s.levels i) (s.pool.pool slot).quantity_remaining in
    update_all
      (λ j (k : PriceLevel).
        (k.total_quantity ≤ (s.levels j).total_quantity)
        × (j ≢ i → k.total_quantity ≡ (s.levels j).total_quantity))
      (update s.levels i reduced) i (popped_level reduced (s.pool.next slot))
      (reduce_le (s.levels i) s.pool s.is_bid i slot _ xs lv (omega arith), λ h. absurd (h refl))
      (λ j h.
        let same = ap (λ (k : PriceLevel). k.total_quantity) (update_ne s.levels i j reduced h) in
        (omega (arith, same), λ k. same))
