-- ===== src/Book/Submitting.antt =====
-- `submit_order`: both sides stay well formed and the book stays uncrossed.
use financial_exchange.Common.{
  ℕ, suc, ◌+◌, ◌-◌, ◌^◌, ◌≤◌, ◌<◌, ◌≡◌, refl, ap, ◌∙◌, inl, inr, Bool, true, false, ◌||◌, arith,
  ℕ_discrete, ltb, ltb→lt, ◌==◌, if◌then◌else◌, Bool-cases, Option-cases, ℤ, pos, negsuc,
}
use financial_exchange.Common.Loops.{while_keeps}
use financial_exchange.Types.{num_book_levels, minimum_bid, maximum_ask}
use financial_exchange.Book.Side.{OrderBookSide, add_order}
use financial_exchange.Book.Match.{
  Taker, MatchState, OrderIndex, trade, remove_filled, level_body, level_test, match_level,
  match_body, match_test, match_loop, match_buy, match_sell, buy_taker, sell_taker,
}
use financial_exchange.Book.Api.{
  OrderBook, Times, submit_bid, submit_ask, submit_order, price_invalid, price_value, book_side,
}
use financial_exchange.Book.Matching.{Advances}
use financial_exchange.Book.Matcher.{IsOrdered}
use financial_exchange.Book.MatchLoop.{
  BestAsk, BestBid, match_buy_lem, match_sell_lem, buy_taker-IsMatcher, sell_taker-IsMatcher,
}
use financial_exchange.Book.Resting.{CanRest, add_ask-Rested, add_bid-Rested}

-- The two sides of a book between requests: each is well formed and knows its best price, and every
-- bid is below every ask.
pub record IsTwoSided (bids asks : OrderBookSide) : Type 0 where
  pub bids_ordered : IsOrdered BestBid bids
  pub asks_ordered : IsOrdered BestAsk asks
  pub bids_side : bids.is_bid ≡ true
  pub asks_side : asks.is_bid ≡ false
  pub uncrossed :
      (i j : ℕ)
      → i < num_book_levels
      → j < num_book_levels
      → 0 < (bids.levels i).total_quantity
      → 0 < (asks.levels j).total_quantity
      → i < j

abbrev pub IsBook : OrderBook → Type 0
IsBook b = IsTwoSided b.bids b.asks

-- Matching leaves the side a side of the same kind.
module _ (t : Taker) (advances : Advances t.advance_best) (flag : Bool) where
  remove_filled_side :
      (i slot : ℕ) (m : MatchState)
      → m.side.is_bid ≡ flag
      → (remove_filled t i slot m).side.is_bid ≡ flag
  unfolding remove_filled
  remove_filled_side i slot m h = elim (Option-cases (m.side.pool.next slot)) [
    | inl e ↦ rw (e, remove_filled) (ap (λ (s : OrderBookSide). s.is_bid) (advances _) ∙ h)
    | inr (n, e) ↦ rw (e, remove_filled) h
  ]

  level_body_side :
      (i : ℕ) (m : MatchState) → m.side.is_bid ≡ flag → (level_body t i m).side.is_bid ≡ flag
  unfolding level_body trade
  level_body_side i m h = elim (Option-cases (m.side.levels i).first) [
    | inl e ↦ rw (e, level_body) h
    | inr (slot, e) ↦
        rw (e, level_body)
          (elim (Bool-cases (((trade t i slot m).side.pool.pool slot).quantity_remaining == 0)) [
            | inl f ↦ rw f (remove_filled_side i slot (trade t i slot m) h)
            | inr f ↦ rw f h
          ])
  ]

  match_loop_side :
      (s : OrderBookSide) (index : OrderIndex)
      → s.is_bid ≡ flag
      → (match_loop t s index).side.is_bid ≡ flag
  unfolding match_loop match_body match_level
  match_loop_side s index h =
      while_keeps (match_test t) (match_body t) (λ m. m.side.is_bid ≡ flag)
        (λ m k.
          let i = m.side.best_price_index in
          while_keeps (level_test i) (level_body t i) (λ n. n.side.is_bid ≡ flag)
            (λ n. level_body_side i n) (suc m.incoming) m k)
        (suc t.quantity) _ h

module _ (price quantity order_id client_id now : ℕ) (s : OrderBookSide) (index : OrderIndex) where
  match_buy_side :
      s.is_bid ≡ false
      → (match_buy price quantity order_id client_id now s index).side.is_bid ≡ false
  unfolding match_buy
  match_buy_side h =
      match_loop_side (buy_taker price quantity order_id client_id now)
        (buy_taker-IsMatcher price quantity order_id client_id now).advances false s index h

  match_sell_side :
      s.is_bid ≡ true
      → (match_sell price quantity order_id client_id now s index).side.is_bid ≡ true
  unfolding match_sell
  match_sell_side h =
      match_loop_side (sell_taker price quantity order_id client_id now)
        (sell_taker-IsMatcher price quantity order_id client_id now).advances true s index h

module _ (price quantity client_id request : ℕ) (now : Times) (b : OrderBook) where
  -- What `submit_bid` leaves of the sides.
  bid_sides :
      let m = match_buy price quantity b.order_id client_id now.matching b.asks b.index in
      let added =
        add_order price quantity m.incoming b.order_id client_id request now.adding b.bids in
      let b' = (submit_bid price quantity client_id request now b).0 in
      (b'.asks ≡ m.side) × (b'.bids ≡ (if ltb 0 m.incoming then added.1 else b.bids))
  unfolding submit_bid
  bid_sides =
      let m = match_buy price quantity b.order_id client_id now.matching b.asks b.index in
      let added =
        add_order price quantity m.incoming b.order_id client_id request now.adding b.bids in
      elim (Bool-cases (ltb 0 m.incoming)) [
        | inr e ↦ rw e (refl, refl)
        | inl e ↦ rw e (elim (Option-cases added.0) [
          | inl f ↦ rw f (refl, refl)
          | inr (slot, f) ↦ rw f (refl, refl)
        ])
      ]

  ask_sides :
      let m = match_sell price quantity b.order_id client_id now.matching b.bids b.index in
      let added =
        add_order price quantity m.incoming b.order_id client_id request now.adding b.asks in
      let b' = (submit_ask price quantity client_id request now b).0 in
      (b'.bids ≡ m.side) × (b'.asks ≡ (if ltb 0 m.incoming then added.1 else b.asks))
  unfolding submit_ask
  ask_sides =
      let m = match_sell price quantity b.order_id client_id now.matching b.bids b.index in
      let added =
        add_order price quantity m.incoming b.order_id client_id request now.adding b.asks in
      elim (Bool-cases (ltb 0 m.incoming)) [
        | inr e ↦ rw e (refl, refl)
        | inl e ↦ rw e (elim (Option-cases added.0) [
          | inl f ↦ rw f (refl, refl)
          | inr (slot, f) ↦ rw f (refl, refl)
        ])
      ]

  submit_bid-IsBook :
      IsBook b
      → minimum_bid ≤ price
      → price ≤ maximum_ask
      → quantity < 2 ^ 32
      → (b.bids.levels (price - 1)).total_quantity + quantity < 2 ^ 32
      → IsBook (submit_bid price quantity client_id request now b).0
  submit_bid-IsBook v low high small fits =
      let m = match_buy price quantity b.order_id client_id now.matching b.asks b.index in
      let r =
        match_buy_lem price quantity b.order_id client_id now.matching b.asks b.index small
          v.asks_ordered in
      let added =
        add_order price quantity m.incoming b.order_id client_id request now.adding b.bids in
      let matched : IsTwoSided b.bids m.side = record {
        bids_ordered = v.bids_ordered;
        asks_ordered = r.0;
        bids_side = v.bids_side;
        asks_side =
            match_buy_side price quantity b.order_id client_id now.matching b.asks b.index
              v.asks_side;
        uncrossed = λ i j h k p q. v.uncrossed i j h k p (omega (arith, r.2 j));
      } in
      rw (bid_sides.0, bid_sides.1)
        (elim (Bool-cases (ltb 0 m.incoming)) [
          | inr e ↦ rw e matched
          | inl e ↦
              let left = ltb→lt 0 m.incoming e in
              let can : CanRest b.bids price quantity m.incoming = record {
                low = low;
                high = high;
                positive = left;
                part = omega (arith, r.1);
                small = small;
                fits = omega (arith, r.1);
              } in
              let rest =
                add_bid-Rested price quantity m.incoming b.order_id client_id request now.adding
                  b.bids can v.bids_ordered v.bids_side in
              rw e (record {
                bids_ordered = rest.0;
                asks_ordered = r.0;
                bids_side = rest.1 ∙ v.bids_side;
                asks_side = matched.asks_side;
                uncrossed = λ i j h k p q. elim (ℕ_discrete i (price - 1)) [
                  | yes same ↦ omega (arith, r.3 left j k q, (r.0.side.level j).price)
                  | no other ↦ matched.uncrossed i j h k (omega (arith, rest.2 i other)) q
                ];
              })
        ])

  submit_ask-IsBook :
      IsBook b
      → minimum_bid ≤ price
      → price ≤ maximum_ask
      → quantity < 2 ^ 32
      → (b.asks.levels (price - 1)).total_quantity + quantity < 2 ^ 32
      → IsBook (submit_ask price quantity client_id request now b).0
  submit_ask-IsBook v low high small fits =
      let m = match_sell price quantity b.order_id client_id now.matching b.bids b.index in
      let r =
        match_sell_lem price quantity b.order_id client_id now.matching b.bids b.index small
          v.bids_ordered in
      let added =
        add_order price quantity m.incoming b.order_id client_id request now.adding b.asks in
      let matched : IsTwoSided m.side b.asks = record {
        bids_ordered = r.0;
        asks_ordered = v.asks_ordered;
        bids_side =
            match_sell_side price quantity b.order_id client_id now.matching b.bids b.index
              v.bids_side;
        asks_side = v.asks_side;
        uncrossed = λ i j h k p q. v.uncrossed i j h k (omega (arith, r.2 i)) q;
      } in
      rw (ask_sides.0, ask_sides.1)
        (elim (Bool-cases (ltb 0 m.incoming)) [
          | inr e ↦ rw e matched
          | inl e ↦
              let left = ltb→lt 0 m.incoming e in
              let can : CanRest b.asks price quantity m.incoming = record {
                low = low;
                high = high;
                positive = left;
                part = omega (arith, r.1);
                small = small;
                fits = omega (arith, r.1);
              } in
              let rest =
                add_ask-Rested price quantity m.incoming b.order_id client_id request now.adding
                  b.asks can v.asks_ordered v.asks_side in
              rw e (record {
                bids_ordered = r.0;
                asks_ordered = rest.0;
                bids_side = matched.bids_side;
                asks_side = rest.1 ∙ v.asks_side;
                uncrossed = λ i j h k p q. elim (ℕ_discrete j (price - 1)) [
                  | yes same ↦ omega (arith, r.3 left i h p, (r.0.side.level i).price)
                  | no other ↦ matched.uncrossed i j h k p (omega (arith, rest.2 j other))
                ];
              })
        ])

-- A request to insert an order keeps the book: both sides stay well formed with the right best
-- prices, and every bid stays below every ask. The quantity is a 32-bit number, and the total of the
-- level where the order would rest has room for it.
pub submit_order-IsBook :
    (price : ℤ) (quantity : ℕ) (is_bid : Bool) (client_id request : ℕ) (now : Times) (b : OrderBook)
    → IsBook b
    → quantity < 2 ^ 32
    → ((book_side is_bid b).levels (price_value price - 1)).total_quantity + quantity < 2 ^ 32
    → IsBook (submit_order price quantity is_bid client_id request now b).0
unfolding submit_order price_invalid
submit_order-IsBook (negsuc n) quantity is_bid client_id request now b v small fits =
    elim (Bool-cases (quantity == 0)) [ inl e ↦ rw e v | inr e ↦ rw e v ]
submit_order-IsBook (pos price) quantity is_bid client_id request now b v small fits =
    elim (Bool-cases (quantity == 0)) [
      | inl e ↦ rw e v
      | inr e ↦ rw e (elim (Bool-cases (ltb price minimum_bid || ltb maximum_ask price)) [
        | inl f ↦ rw f v
        | inr f ↦ rw f (placed is_bid fits (ground arith) (ground arith))
      ])
    ]
  where
    placed :
        (bid : Bool)
        → ((book_side bid b).levels (price - 1)).total_quantity + quantity < 2 ^ 32
        → minimum_bid ≤ price
        → price ≤ maximum_ask
        → IsBook
            (if bid
              then submit_bid price quantity client_id request now b
              else submit_ask price quantity client_id request now b).0
    placed true room low high =
        submit_bid-IsBook price quantity client_id request now b v low high small room
    placed false room low high =
        submit_ask-IsBook price quantity client_id request now b v low high small room
