-- ===== src/Book/Amending.antt =====
-- `amend_order` down to what has been filled: the level's volume, and the best price index.
use financial_exchange.Common.{
  ℕ, ◌+◌, ◌-◌, ◌^◌, ◌<◌, ◌≡◌, refl, sym, ap, ◌∙◌, subst, ◌≢◌, inl, inr, true, some, List, arith,
  sub32, sub32_lem, ℕ_discrete, update, update_self, update_ne,
}
use financial_exchange.Types.{num_book_levels}
use financial_exchange.Book.Pool.{Order, OrderPool}
use financial_exchange.Book.Side.{
  OrderBookSide, PriceLevel, Event, price_to_index, scan_down, update_best_bid_after_empty,
}
use financial_exchange.Book.Match.{OrderPtr}
use financial_exchange.Book.Best.{scan_down-IsHighest}
use financial_exchange.Book.Api.{
  OrderBook, amend_order, find_order, deref, amend_found, remove_order, unlink_order,
}
use financial_exchange.Book.MatchLoop.{BestBid}
use financial_exchange.Book.Errors.{amend_order_cases}

-- Taking an order out of its queue moves no volume and no best index.
unlink_totals :
    (slot idx : ℕ) (s : OrderBookSide) (j : ℕ)
    → ((unlink_order slot idx s).levels j).total_quantity ≡ (s.levels j).total_quantity
unfolding unlink_order
unlink_totals slot idx s j = elim (ℕ_discrete j idx) [
  | yes e ↦
      subst (λ k. ((unlink_order slot idx s).levels k).total_quantity ≡ (s.levels k).total_quantity)
        (sym e) (ap (λ (k : PriceLevel). k.total_quantity) (update_self s.levels idx _))
  | no e ↦ ap (λ (k : PriceLevel). k.total_quantity) (update_ne s.levels idx j _ e)
]

unlink_best :
    (slot idx : ℕ) (s : OrderBookSide)
    → (unlink_order slot idx s).best_price_index ≡ s.best_price_index
unfolding unlink_order
unlink_best slot idx s = refl

-- The level of the order after the amendment, and the bids before the order is taken out.
abbrev lowered : OrderBookSide → Order → PriceLevel
lowered s o =
    let level = s.levels (o.price - 1) in
    record level { total_quantity = sub32 level.total_quantity (sub32 o.quantity_remaining 0) }

abbrev rescanned : OrderBookSide → Order → OrderPool → OrderBookSide
rescanned s o p =
    let levels = update s.levels (o.price - 1) (lowered s o) in
    record s { levels = levels; pool = p; best_price_index = scan_down levels s.best_price_index }

-- The bids after an order of theirs has been amended to what has been filled.
amend_found_bids :
    (b : OrderBook) (o : Order) (request slot now : ℕ)
    → o.is_bid ≡ true
    → sub32 o.quantity_cumulative o.quantity_cumulative ≡ 0
    → (lowered b.bids o).total_quantity ≡ 0
    → (p : OrderPool) × ((amend_found request slot o o.quantity_cumulative now b).0.bids
        ≡ unlink_order slot (o.price - 1) (rescanned b.bids o p))
unfolding amend_found remove_order update_best_bid_after_empty price_to_index
amend_found_bids b o request slot now bid rest empty = (
  record b.bids.pool {
    pool =
        update b.bids.pool.pool slot
          (record o { quantity = o.quantity_cumulative; quantity_remaining = 0; is_bid = true });
  },
  rw (rest, bid, empty),
)

-- A rescan from a best level that still has volume loses it.
rescan_wrong :
    (s : OrderBookSide) (o : Order) (slot : ℕ) (p : OrderPool)
    → o.price - 1 ≢ s.best_price_index
    → s.best_price_index < num_book_levels
    → 0 < (s.levels s.best_price_index).total_quantity
    → let u = unlink_order slot (o.price - 1) (rescanned s o p) in
      ¬ BestBid u.levels u.best_price_index
rescan_wrong s o slot p below best busy right =
    let old = s.best_price_index in
    let levels = update s.levels (o.price - 1) (lowered s o) in
    let r = scan_down levels old in
    let total = unlink_totals slot (o.price - 1) (rescanned s o p) old in
    let kept =
      ap (λ (k : PriceLevel). k.total_quantity)
        (update_ne s.levels (o.price - 1) old (lowered s o) (λ e. below (sym e))) in
    let at = unlink_best slot (o.price - 1) (rescanned s o p) in
    let found = scan_down-IsHighest levels old in
    elim right [
      | inl h ↦ omega (arith, h.1 old best, total, kept)
      | inr h ↦ elim found [
        | inl f ↦ omega (arith, h.0, f.0, at)
        | inr f ↦ omega (arith, h.2 old (omega (arith, f.0, at)) best, total, kept)
      ]
    ]

-- When a client amends a bid down to what has been filled, and the bid was alone at a level below
-- the best, which has volume, then afterwards the best price index of the bids is wrong. (The code
-- rescans for the best price without asking whether the level was the best.) The order's numbers
-- add up, in 32 bits, and it has a quantity left.
pub amend_loses-BestBid :
    (client_id request order_id now : ℕ) (b : OrderBook) (ptr : OrderPtr)
    → find_order order_id b ≡ some ptr
    → (deref b ptr).client_id ≡ client_id
    → (deref b ptr).is_bid ≡ true
    → (deref b ptr).quantity_remaining + (deref b ptr).quantity_cumulative ≡ (deref b ptr).quantity
    → (deref b ptr).quantity < 2 ^ 32
    → 0 < (deref b ptr).quantity_remaining
    → (b.bids.levels ((deref b ptr).price - 1)).total_quantity ≡ (deref b ptr).quantity_remaining
    → (deref b ptr).price - 1 ≢ b.bids.best_price_index
    → b.bids.best_price_index < num_book_levels
    → 0 < (b.bids.levels b.bids.best_price_index).total_quantity
    → let bids =
        (amend_order client_id request order_id (deref b ptr).quantity_cumulative now b).0.bids in
      ¬ BestBid bids.levels bids.best_price_index
amend_loses-BestBid client_id request order_id now b ptr found owner bid sums small pos alone below
      best busy =
    let o = deref b ptr in
    let n = o.quantity_cumulative in
    let r = (amend_order client_id request order_id n now b).0.bids in
    let none_left = sub32_lem n n (omega arith) (omega arith) in
    let all_left = sub32_lem o.quantity_remaining 0 (omega arith) (omega arith) in
    let empty : (lowered b.bids o).total_quantity ≡ 0 = omega (
      arith,
      all_left,
      sub32_lem (b.bids.levels (o.price - 1)).total_quantity (sub32 o.quantity_remaining 0),
    ) in
    let passed : amend_order client_id request order_id n now b
        ≡ amend_found request ptr.slot o n now b =
      elim (amend_order_cases client_id request order_id n now b ptr found owner sums
        (omega arith)) [
          | inl c ↦ absurd (elim c.0 [ inl k ↦ omega arith | inr k ↦ omega arith ])
          | inr (inl c) ↦ absurd (omega (arith, c.0))
          | inr (inr c) ↦ c.2
        ] in
    let bids = amend_found_bids b o request ptr.slot now bid (omega (arith, none_left)) empty in
    let side = ap (λ (z : OrderBook × List Event). z.0.bids) passed ∙ bids.1 in
    λ right.
      rescan_wrong b.bids o ptr.slot bids.0 below best busy
        (subst (λ (z : OrderBookSide). BestBid z.levels z.best_price_index) side right)
