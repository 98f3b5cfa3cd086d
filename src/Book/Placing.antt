-- ===== src/Book/Placing.antt =====
-- What a client is told of an order that it submits: the callbacks of `submit_order` of
-- src/order_book.cpp.
use financial_exchange.Common.{
  ℕ, ◌+◌, ◌^◌, ◌≤◌, ◌<◌, ◌≡◌, ◌≢◌, refl, ap, ◌∙◌, ◌⊎◌, inl, inr, Bool, true, false, ◌||◌, List, [],
  ◌∷◌, ◌++◌, arith, ltb, ltb→lt, ltb→le, ◌==◌, ==→eq, ==→ne, if◌then◌else◌, Bool-cases, ℤ, pos,
  negsuc,
}
use financial_exchange.Types.{
  invalid_volume, invalid_price, order_book_full, minimum_bid, maximum_ask,
}
use financial_exchange.Book.Pool.{Order}
use financial_exchange.Book.Side.{Event, on_order_inserted, on_error}
use financial_exchange.Book.Match.{match_buy, match_sell, buy_taker, sell_taker}
use financial_exchange.Book.Api.{
  OrderBook, Times, submit_bid, submit_ask, submit_order, price_invalid, price_value, refuse,
}
use financial_exchange.Book.Matching.{traded, traded-append}
use financial_exchange.Book.MatchLoop.{match_buy_lem, match_sell_lem}
use financial_exchange.Book.Submitting.{IsBook}
use financial_exchange.Book.Answers.{
  answers, after_quiet, match_loop_quiet, IsOrderOf, add_order-Added,
}

-- The callbacks of an order that is taken: none is an answer, and it is traded in full; or one says that
-- it rests, with what is not traded; or one says that the book is full.
abbrev pub Placed : (client_id request quantity order_id : ℕ) → Times → List Event → Type 0
Placed client_id request quantity order_id now events =
    ((answers events ≡ []) × (traded events ≡ quantity))
    ⊎ ((o : Order) × (answers events ≡ on_order_inserted request o now.request ∷ [])
        × (o.client_id ≡ client_id)
        × (o.order_id ≡ order_id)
        × (o.quantity ≡ quantity)
        × (0 < o.quantity_remaining)
        × (traded events + o.quantity_remaining ≡ quantity))
    ⊎ ((answers events
          ≡ on_error client_id request order_book_full "Order book is full." now.adding ∷ [])
        × (traded events < quantity))

module _ (price quantity client_id request : ℕ) (now : Times) (b : OrderBook) (v : IsBook b)
    (small : quantity < 2 ^ 32) where
  rests :
      (o : Order) (m more : List Event) (incoming : ℕ)
      → answers m ≡ []
      → traded m + incoming ≡ quantity
      → 0 < incoming
      → answers more ≡ []
      → traded more ≡ 0
      → IsOrderOf client_id b.order_id quantity incoming o
      → Placed client_id request quantity b.order_id now
          (m ++ (more ++ (on_order_inserted request o now.request ∷ [])))
  unfolding traded
  rests o m more incoming quiet sum busy none_more none_traded is =
      let last = on_order_inserted request o now.request ∷ [] in
      inr (
        inl (
          o,
          after_quiet m (more ++ last) quiet ∙ after_quiet more last none_more,
          is.0,
          is.1,
          is.2,
          omega (arith, busy, is.3),
          omega (
            arith,
            sum,
            none_traded,
            is.3,
            traded-append m (more ++ last),
            traded-append more last,
          ),
        ))

  full :
      (m more : List Event) (incoming : ℕ)
      → answers m ≡ []
      → traded m + incoming ≡ quantity
      → 0 < incoming
      → more ≡ on_error client_id request order_book_full "Order book is full." now.adding ∷ []
      → Placed client_id request quantity b.order_id now (m ++ more)
  unfolding traded
  full m more incoming quiet sum busy e = inr (
      inr (
        after_quiet m more quiet ∙ ap answers e,
        omega (arith, sum, busy, traded-append m more, ap traded e),
      ))

  submit_bid-Placed :
      Placed client_id request quantity b.order_id now
        (submit_bid price quantity client_id request now b).1
  unfolding submit_bid match_buy
  submit_bid-Placed =
      let m = match_buy price quantity b.order_id client_id now.matching b.asks b.index in
      let sum =
        (match_buy_lem price quantity b.order_id client_id now.matching b.asks b.index small
          v.asks_ordered).1 in
      let quiet =
        match_loop_quiet (buy_taker price quantity b.order_id client_id now.matching) b.asks
          b.index in
      elim (Bool-cases (ltb 0 m.incoming)) [
        | inr e ↦ rw e (inl (quiet, omega (arith, sum, ltb→le 0 m.incoming e)))
        | inl e ↦
            rw e
              (elim (add_order-Added price quantity m.incoming b.order_id client_id request
                now.adding b.bids) [
                  | inl f ↦ rw (f.0) (full m.events _ m.incoming quiet sum (ltb→lt _ _ e) f.1)
                  | inr f ↦
                      rw (f.1) (rests _ m.events _ m.incoming quiet sum (ltb→lt _ _ e) f.2 f.3 f.4)
                ])
      ]

  submit_ask-Placed :
      Placed client_id request quantity b.order_id now
        (submit_ask price quantity client_id request now b).1
  unfolding submit_ask match_sell
  submit_ask-Placed =
      let m = match_sell price quantity b.order_id client_id now.matching b.bids b.index in
      let sum =
        (match_sell_lem price quantity b.order_id client_id now.matching b.bids b.index small
          v.bids_ordered).1 in
      let quiet =
        match_loop_quiet (sell_taker price quantity b.order_id client_id now.matching) b.bids
          b.index in
      elim (Bool-cases (ltb 0 m.incoming)) [
        | inr e ↦ rw e (inl (quiet, omega (arith, sum, ltb→le 0 m.incoming e)))
        | inl e ↦
            rw e
              (elim (add_order-Added price quantity m.incoming b.order_id client_id request
                now.adding b.asks) [
                  | inl f ↦ rw (f.0) (full m.events _ m.incoming quiet sum (ltb→lt _ _ e) f.1)
                  | inr f ↦
                      rw (f.1) (rests _ m.events _ m.incoming quiet sum (ltb→lt _ _ e) f.2 f.3 f.4)
                ])
      ]

-- A price that the exchange takes: from `MINIMUM_BID` to `MAXIMUM_ASK`.
abbrev pub InRange : ℤ → Type 0
InRange (pos p) = (minimum_bid ≤ p) × (p ≤ maximum_ask)
InRange (negsuc n) = ⊥

price_invalid_iff :
    (price : ℤ)
    → ((price_invalid price ≡ true) × ¬ InRange price)
      ⊎ ((price_invalid price ≡ false) × InRange price)
unfolding price_invalid
price_invalid_iff (negsuc n) = inl (refl, λ h. h)
price_invalid_iff (pos p) = elim (Bool-cases (ltb p minimum_bid || ltb maximum_ask p)) [
  | inl e ↦ inl (e, λ h. ground arith)
  | inr e ↦ inr (e, (ground arith, ground arith))
]

-- For a well-formed book and an order with a 32-bit size: an order of size zero or, else, with a price
-- out of range is refused with the error of that name, and the book is as it was. Any other order is
-- answered at most once. It gets no answer where the trades reported amount to its size; or the one
-- that it rests, with its own id, its size, and as remaining just what was not traded; or, some of it not
-- traded, the one that the book is full.
pub submit_order-answers :
    (price : ℤ) (quantity : ℕ) (is_bid : Bool) (client_id request : ℕ) (now : Times) (b : OrderBook)
    → IsBook b
    → quantity < 2 ^ 32
    → let r = submit_order price quantity is_bid client_id request now b in
      ((quantity ≡ 0)
        × (r ≡ refuse client_id request invalid_volume "Invalid order size." now.request b))
      ⊎ ((quantity ≢ 0)
          × ¬ InRange price
          × (r ≡ refuse client_id request invalid_price "Invalid price." now.request b))
      ⊎ ((quantity ≢ 0) × InRange price × Placed client_id request quantity b.order_id now r.1)
unfolding submit_order
submit_order-answers price quantity is_bid client_id request now b v small =
    elim (Bool-cases (quantity == 0)) [
      | inl e ↦ inl (==→eq quantity 0 e, rw e)
      | inr e ↦ elim (price_invalid_iff price) [
        | inl f ↦ inr (inl (==→ne quantity 0 e, f.1, rw (e, f.0)))
        | inr f ↦ inr (inr (==→ne quantity 0 e, f.1, rw (e, f.0) (placed is_bid)))
      ]
    ]
  where
    placed :
        (bid : Bool)
        → Placed client_id request quantity b.order_id now
            (if bid
              then submit_bid (price_value price) quantity client_id request now b
              else submit_ask (price_value price) quantity client_id request now b).1
    placed true = submit_bid-Placed (price_value price) quantity client_id request now b v small
    placed false = submit_ask-Placed (price_value price) quantity client_id request now b v small
