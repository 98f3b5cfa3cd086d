-- ===== src/Book/MatchLoop.antt =====
-- `match_loop`, `match_buy` and `match_sell`: total correctness of matching on a well-formed side.
use financial_exchange.Common.{
  subst, ℕ, suc, ◌+◌, ◌-◌, ◌^◌, ◌≤◌, ◌<◌, ◌≡◌, refl, ◌≢◌, ◌⊎◌, inl, inr, Bool, true, false, none,
  List, [], ◌∷◌, arith, dec_lt,
}
use financial_exchange.Common.Loops.{while-stops}
use financial_exchange.Types.{num_book_levels}
use financial_exchange.Book.Pool.{OrderPool}
use financial_exchange.Book.Side.{
  OrderBookSide, PriceLevel, update_best_ask_after_empty, update_best_bid_after_empty,
}
use financial_exchange.Book.Match.{
  Taker, MatchState, OrderIndex, match_level, match_test, match_body, match_loop, match_buy,
  match_sell, buy_taker, sell_taker,
}
use financial_exchange.Book.Best.{
  IsHighest, IsLowest, scan_up-IsLowest, scan_down-IsHighest, IsLowest-keep, IsLowest-same,
  IsLowest-emptied, IsLowest-occupied, IsHighest-keep, IsHighest-same, IsHighest-emptied,
  IsHighest-occupied,
}
use financial_exchange.Book.Invariant.{IsLevel, volume}
use financial_exchange.Book.Matching.{traded, traded-append}
use financial_exchange.Book.Matcher.{IsMatcher, IsOrdered, Within}
use financial_exchange.Book.LevelLoop.{match_level-LevelInv}

-- The best index of the asks, and of the bids.
abbrev pub BestAsk : (ℕ → PriceLevel) → ℕ → Type 0
BestAsk levels best = IsLowest levels 0 best

abbrev pub BestBid : (ℕ → PriceLevel) → ℕ → Type 0
BestBid levels best = IsHighest levels num_book_levels best

-- The state of the outer loop.
pub record MatchInv (t : Taker) (Best : (ℕ → PriceLevel) → ℕ → Type 0) (base : ℕ → ℕ)
    (m : MatchState) : Type 0 where
  pub ordered : IsOrdered Best m.side
  pub within : Within t base m.side
  pub conserved : traded m.events + m.incoming ≡ t.quantity

occupied_first :
    (l : PriceLevel) (p : OrderPool) (is_bid : Bool) (i : ℕ) (xs : List ℕ)
    → IsLevel l p is_bid i xs
    → 0 < l.total_quantity
    → l.first ≢ none
unfolding volume
occupied_first l p is_bid i [] v h = λ e. omega (arith, v.total)
occupied_first l p is_bid i (x ∷ xs) v h = λ e. cc (v.linked.0)

match_test-true :
    (t : Taker) (m : MatchState)
    → match_test t m ≡ true
    → (0 < m.incoming)
      × (m.side.best_price_index ≢ num_book_levels)
      × (t.crosses (m.side.levels m.side.best_price_index).price t.price ≡ true)
unfolding match_test
match_test-true t m e = ground arith

module _ (t : Taker) (Best : (ℕ → PriceLevel) → ℕ → Type 0) (matcher : IsMatcher t Best)
    (base : ℕ → ℕ) (small : t.quantity < 2 ^ 32) where
  match_step :
      (m : MatchState)
      → MatchInv t Best base m
      → match_test t m ≡ true
      → MatchInv t Best base (match_body t m) × ((match_body t m).incoming < m.incoming)
  unfolding match_body traded
  match_step m v go =
      let i = m.side.best_price_index in
      let o = v.ordered in
      let (pos, more, crosses) = match_test-true t m go in
      let price = (o.side.level i).price in
      let busy = matcher.occupied m.side.levels i o.best more in
      let first = occupied_first _ _ m.side.is_bid i (o.queue i) (o.side.level i) busy.1 in
      let r =
        match_level-LevelInv t Best matcher base small i busy.0
          (subst (λ k. t.crosses k t.price ≡ true) price crosses) m
          (record {
            ordered = o;
            frontier = inl refl;
            within = v.within;
            conserved = v.conserved;
            progress = inr (refl, first);
          })
          pos in
      (
        record {
          ordered = r.0.ordered;
          within = r.0.within;
          conserved = omega (arith, r.0.conserved, traded-append (match_level t i m).events);
        },
        r.1,
      )

  -- The loop keeps the side well formed and accounts for the whole order, and ends by its test.
  pub match_loop-MatchInv :
      (s : OrderBookSide) (index : OrderIndex)
      → IsOrdered Best s
      → Within t base s
      → MatchInv t Best base (match_loop t s index) × (match_test t (match_loop t s index) ≡ false)
  unfolding match_loop traded
  match_loop-MatchInv s index o w =
      let r =
        while-stops (match_test t) (match_body t) (λ m. m.incoming) (MatchInv t Best base)
          (λ m go v. let next = match_step m v go in (next.1, next.0)) (suc t.quantity) _
          (record { ordered = o; within = w; conserved = omega arith }) (omega arith) in
      (r.1, r.0)

-- Where the best ask is above a limit, or there is none, so is every ask.
pub asks_above :
    (limit : ℕ) (s : OrderBookSide)
    → IsOrdered BestAsk s
    → (s.best_price_index ≡ num_book_levels) ⊎ (limit < (s.levels s.best_price_index).price)
    → (j : ℕ) → j < num_book_levels
    → 0 < (s.levels j).total_quantity
    → limit < (s.levels j).price
asks_above limit s o stop j k busy =
    let at_best = o.side.level s.best_price_index in
    let here = o.side.level j in
    elim o.best [
      | inl h ↦ absurd (omega (arith, h.1 j (omega arith) k))
      | inr h ↦ elim (dec_lt j s.best_price_index) [
        | yes p ↦ absurd (omega (arith, h.3 j (omega arith) p))
        | no p ↦ elim stop [
          | inl e ↦ absurd (omega (arith, h.1))
          | inr e ↦ omega (arith, at_best.price, here.price)
        ]
      ]
    ]

-- Where the best bid is below a limit, or there is none, so is every bid.
pub bids_below :
    (limit : ℕ) (s : OrderBookSide)
    → IsOrdered BestBid s
    → (s.best_price_index ≡ num_book_levels) ⊎ ((s.levels s.best_price_index).price < limit)
    → (j : ℕ) → j < num_book_levels
    → 0 < (s.levels j).total_quantity
    → (s.levels j).price < limit
bids_below limit s o stop j k busy =
    let at_best = o.side.level s.best_price_index in
    let here = o.side.level j in
    elim o.best [
      | inl h ↦ absurd (omega (arith, h.1 j k))
      | inr h ↦ elim (dec_lt s.best_price_index j) [
        | yes p ↦ absurd (omega (arith, h.2 j p k))
        | no p ↦ elim stop [
          | inl e ↦ absurd (omega (arith, h.0))
          | inr e ↦ omega (arith, at_best.price, here.price)
        ]
      ]
    ]

module _ (price quantity order_id client_id now : ℕ) where
  buy_stopped :
      (m : MatchState)
      → match_test (buy_taker price quantity order_id client_id now) m ≡ false
      → 0 < m.incoming
      → (m.side.best_price_index ≡ num_book_levels)
        ⊎ (price < (m.side.levels m.side.best_price_index).price)
  unfolding match_test buy_taker
  buy_stopped m stop pos = ground arith

  sell_stopped :
      (m : MatchState)
      → match_test (sell_taker price quantity order_id client_id now) m ≡ false
      → 0 < m.incoming
      → (m.side.best_price_index ≡ num_book_levels)
        ⊎ ((m.side.levels m.side.best_price_index).price < price)
  unfolding match_test sell_taker
  sell_stopped m stop pos = ground arith

  pub buy_taker-IsMatcher : IsMatcher (buy_taker price quantity order_id client_id now) BestAsk
  unfolding buy_taker update_best_ask_after_empty
  buy_taker-IsMatcher = record {
    advances = λ s. refl;
    keep = λ l l' b h same pos best. IsLowest-keep l l' b same pos best h;
    same = λ l l' b same best. IsLowest-same l l' b same best;
    emptied = λ l s h same empty best.
        let b = s.best_price_index in
        IsLowest-emptied l s.levels b _ h same empty best
          (scan_up-IsLowest s.levels (num_book_levels - (b + 1)) (b + 1) (omega arith));
    occupied = λ l b best h. IsLowest-occupied l l b best h;
  }

  pub sell_taker-IsMatcher : IsMatcher (sell_taker price quantity order_id client_id now) BestBid
  unfolding sell_taker update_best_bid_after_empty
  sell_taker-IsMatcher = record {
    advances = λ s. refl;
    keep = λ l l' b h same pos best. IsHighest-keep l l' b same pos best h;
    same = λ l l' b same best. IsHighest-same l l' b same best;
    emptied = λ l s h same empty best.
        let b = s.best_price_index in
        IsHighest-emptied l s.levels b _ h same empty best (scan_down-IsHighest s.levels b);
    occupied = λ l b best h. IsHighest-occupied l l b best h;
  }

  -- On a well-formed sell side, a buy order of a 32-bit quantity is matched in full, or until the
  -- price of every level that still has volume is above its limit. The side stays well formed with
  -- the right best index, no level gains volume, one at a price beyond the limit loses none, and the
  -- traded quantities and the rest add up to
  -- the order's quantity.
  pub match_buy_lem :
      (s : OrderBookSide) (index : OrderIndex)
      → quantity < 2 ^ 32
      → IsOrdered BestAsk s
      → let m = match_buy price quantity order_id client_id now s index in
        IsOrdered BestAsk m.side
        × (traded m.events + m.incoming ≡ quantity)
        × ((j : ℕ) → (m.side.levels j).total_quantity ≤ (s.levels j).total_quantity)
        × (0 < m.incoming
            → (j : ℕ) → j < num_book_levels
            → 0 < (m.side.levels j).total_quantity
            → price < (m.side.levels j).price)
        × ((j : ℕ)
            → price < (s.levels j).price
            → (m.side.levels j).total_quantity ≡ (s.levels j).total_quantity)
  unfolding match_buy buy_taker
  match_buy_lem s index small o =
      let t = buy_taker price quantity order_id client_id now in
      let r =
        match_loop-MatchInv t BestAsk buy_taker-IsMatcher (λ j. (s.levels j).total_quantity) small s
          index o (λ j. (omega arith, λ c. refl)) in
      let v = r.0 in
      (
        v.ordered,
        v.conserved,
        λ j. (v.within j).0,
        λ pos j k busy.
            asks_above price (match_loop t s index).side v.ordered
              (buy_stopped (match_loop t s index) r.1 pos) j k busy,
        λ j above. (v.within j).1 (ground (arith, (o.side.level j).price)),
      )

  -- On a well-formed buy side, a sell order of a 32-bit quantity is matched in full, or until the
  -- price of every level that still has volume is below its limit. The side stays well formed with
  -- the right best index, no level gains volume, one at a price beyond the limit loses none, and the
  -- traded quantities and the rest add up to
  -- the order's quantity.
  pub match_sell_lem :
      (s : OrderBookSide) (index : OrderIndex)
      → quantity < 2 ^ 32
      → IsOrdered BestBid s
      → let m = match_sell price quantity order_id client_id now s index in
        IsOrdered BestBid m.side
        × (traded m.events + m.incoming ≡ quantity)
        × ((j : ℕ) → (m.side.levels j).total_quantity ≤ (s.levels j).total_quantity)
        × (0 < m.incoming
            → (j : ℕ) → j < num_book_levels
            → 0 < (m.side.levels j).total_quantity
            → (m.side.levels j).price < price)
        × ((j : ℕ)
            → (s.levels j).price < price
            → (m.side.levels j).total_quantity ≡ (s.levels j).total_quantity)
  unfolding match_sell sell_taker
  match_sell_lem s index small o =
      let t = sell_taker price quantity order_id client_id now in
      let r =
        match_loop-MatchInv t BestBid sell_taker-IsMatcher (λ j. (s.levels j).total_quantity) small
          s index o (λ j. (omega arith, λ c. refl)) in
      let v = r.0 in
      (
        v.ordered,
        v.conserved,
        λ j. (v.within j).0,
        λ pos j k busy.
            bids_below price (match_loop t s index).side v.ordered
              (sell_stopped (match_loop t s index) r.1 pos) j k busy,
        λ j below. (v.within j).1 (ground (arith, (o.side.level j).price)),
      )
