-- ===== src/Book/Matching.antt =====
-- The loops of `match_loop`: what one round of the inner loop does to a well-formed side.
use financial_exchange.Common.{
  ℕ, ◌+◌, ◌-◌, ◌^◌, ◌≤◌, ◌<◌, min, ◌≡◌, refl, sym, ap, ◌∙◌, Bool, none, some, List, [], ◌∷◌, ◌++◌,
  arith, update, update_self, sub32_lem, some-eq,
}
use financial_exchange.Book.Pool.{Order, OrderPool, deallocate}
use financial_exchange.Book.Side.{OrderBookSide, PriceLevel, Event, on_trade}
use financial_exchange.Book.Match.{Taker, MatchState, trade, remove_filled, level_body}
use financial_exchange.Book.Invariant.{IsResting, IsLevel}
use financial_exchange.Book.Trading.{
  fill, reduce, write_order, popped_level, popped_pool, filled_side, fill_lem,
}

-- A callback that moves the best index and nothing else.
abbrev pub Advances : (OrderBookSide → OrderBookSide) → Type 0
Advances advance =
    (s : OrderBookSide) → advance s ≡ record s { best_price_index = (advance s).best_price_index }

-- The quantity that changes hands between the maker in `slot` and the incoming order.
abbrev pub trade_quantity : MatchState → ℕ → ℕ
trade_quantity m slot = min (m.side.pool.pool slot).quantity_remaining m.incoming

pub queue_of_first :
    (l : PriceLevel) (p : OrderPool) (is_bid : Bool) (i slot : ℕ) (ys : List ℕ)
    → IsLevel l p is_bid i ys
    → l.first ≡ some slot
    → (xs : List ℕ) × (ys ≡ slot ∷ xs)
queue_of_first l p is_bid i slot [] v e = cc (v.linked.0)
queue_of_first l p is_bid i slot (y ∷ xs) v e =
    (xs, ap (λ z. z ∷ xs) (some-eq (sym v.linked.0 ∙ e)))

-- The maker's remaining quantity after the trade.
trade_remaining :
    (t : Taker) (i slot : ℕ) (is_bid : Bool) (m : MatchState)
    → IsResting (m.side.pool.pool slot) is_bid i slot
    → ((trade t i slot m).side.pool.pool slot).quantity_remaining
      ≡ (m.side.pool.pool slot).quantity_remaining - trade_quantity m slot
unfolding trade
trade_remaining t i slot is_bid m r =
    ap (λ (o : Order). o.quantity_remaining) (update_self m.side.pool.pool slot _)
    ∙ (fill_lem (m.side.pool.pool slot) is_bid i slot (trade_quantity m slot) r (omega arith)).0

pub level_body_part :
    (t : Taker) (i slot : ℕ) (is_bid : Bool) (m : MatchState)
    → (m.side.levels i).first ≡ some slot
    → IsResting (m.side.pool.pool slot) is_bid i slot
    → m.incoming < (m.side.pool.pool slot).quantity_remaining
    → level_body t i m ≡ trade t i slot m
unfolding level_body
level_body_part t i slot is_bid m e r h = ground (arith, trade_remaining t i slot is_bid m r)

pub level_body_full :
    (t : Taker) (i slot : ℕ) (is_bid : Bool) (m : MatchState)
    → (m.side.levels i).first ≡ some slot
    → IsResting (m.side.pool.pool slot) is_bid i slot
    → (m.side.pool.pool slot).quantity_remaining ≤ m.incoming
    → level_body t i m ≡ remove_filled t i slot (trade t i slot m)
unfolding level_body
level_body_full t i slot is_bid m e r h = ground (arith, trade_remaining t i slot is_bid m r)

-- The side without a filled maker that was the last of its level, and that was not.
abbrev pub emptied_side : OrderBookSide → ℕ → OrderBookSide
emptied_side s i = record s {
  levels = update s.levels i (record (s.levels i) { first = none; last = none });
}

remove_filled_last :
    (t : Taker) (i slot : ℕ) (m : MatchState)
    → Advances t.advance_best
    → m.side.pool.next slot ≡ none
    → (remove_filled t i slot m).side ≡ record m.side {
      levels = update m.side.levels i (popped_level (m.side.levels i) (m.side.pool.next slot));
      pool = deallocate slot (popped_pool m.side.pool (m.side.pool.next slot));
      best_price_index = (t.advance_best (emptied_side m.side i)).best_price_index;
    }
unfolding remove_filled
remove_filled_last t i slot m adv e =
    rw (e, remove_filled)
      (ap (λ (z : OrderBookSide). record z { pool = deallocate slot z.pool })
        (adv (emptied_side m.side i)))

remove_filled_more :
    (t : Taker) (i slot n : ℕ) (m : MatchState)
    → m.side.pool.next slot ≡ some n
    → (remove_filled t i slot m).side ≡ record m.side {
      levels = update m.side.levels i (popped_level (m.side.levels i) (m.side.pool.next slot));
      pool = deallocate slot (popped_pool m.side.pool (m.side.pool.next slot));
    }
unfolding remove_filled
remove_filled_more t i slot n m e = rw (e, remove_filled)

-- `filled_side` with the traded quantity and the level as they stand in the code.
filled_with : OrderBookSide → ℕ → ℕ → ℕ → PriceLevel → ℕ → OrderBookSide
filled_with s i slot n l b = record s {
  levels = update (update s.levels i (reduce (s.levels i) n)) i (popped_level l (s.pool.next slot));
  pool =
      deallocate slot
        (popped_pool (write_order s.pool slot (fill (s.pool.pool slot) n)) (s.pool.next slot));
  best_price_index = b;
}

filled_with_lem :
    (s : OrderBookSide) (i slot n b : ℕ)
    → n ≡ (s.pool.pool slot).quantity_remaining
    → filled_with s i slot n (update s.levels i (reduce (s.levels i) n) i) b
      ≡ filled_side s i slot b
unfolding filled_with
filled_with_lem s i slot n b e =
    ap (λ l. filled_with s i slot n l b) (update_self s.levels i (reduce (s.levels i) n))
    ∙ ap (λ k. filled_with s i slot k (reduce (s.levels i) k) b) e

-- Where a trade fills its maker, the side is that of `filled_side`.
pub full_last :
    (t : Taker) (i slot : ℕ) (m : MatchState)
    → Advances t.advance_best
    → (m.side.pool.pool slot).quantity_remaining ≤ m.incoming
    → m.side.pool.next slot ≡ none
    → (remove_filled t i slot (trade t i slot m)).side
      ≡ filled_side m.side i slot
          (t.advance_best (emptied_side (trade t i slot m).side i)).best_price_index
unfolding trade filled_with
full_last t i slot m adv h e =
    remove_filled_last t i slot (trade t i slot m) adv e
    ∙ filled_with_lem m.side i slot (trade_quantity m slot) _ (omega arith)

pub full_more :
    (t : Taker) (i slot n : ℕ) (m : MatchState)
    → (m.side.pool.pool slot).quantity_remaining ≤ m.incoming
    → m.side.pool.next slot ≡ some n
    → (remove_filled t i slot (trade t i slot m)).side
      ≡ filled_side m.side i slot m.side.best_price_index
unfolding trade filled_with
full_more t i slot n m h e =
    remove_filled_more t i slot n (trade t i slot m) e
    ∙ filled_with_lem m.side i slot (trade_quantity m slot) _ (omega arith)

-- The quantity that the trades among the callbacks report.
unfoldable pub traded : List Event → ℕ
traded [] = 0
traded (on_trade maker client order price total cumulative quantity now ∷ es) = quantity + traded es
traded (e ∷ es) = traded es

pub traded-append : (xs ys : List Event) → traded (xs ++ ys) ≡ traded xs + traded ys
unfolding traded
traded-append [] ys = omega arith
traded-append (on_trade maker client order price total cumulative quantity now ∷ es) ys =
    omega (arith, traded-append es ys)
traded-append (e ∷ es) ys = traded-append es ys

-- A trade moves its quantity from the incoming order to the callbacks.
pub trade_moves :
    (t : Taker) (i slot : ℕ) (m : MatchState)
    → m.incoming < 2 ^ 32
    → ((trade t i slot m).incoming ≡ m.incoming - trade_quantity m slot)
      × (traded (trade t i slot m).events ≡ traded m.events + trade_quantity m slot)
unfolding trade traded
trade_moves t i slot m h = (
  sub32_lem m.incoming (trade_quantity m slot) (omega arith) h,
  traded-append m.events _ ∙ omega arith,
)

-- Taking the maker out of its level touches neither.
pub remove_filled_keeps :
    (t : Taker) (i slot : ℕ) (m : MatchState)
    → ((remove_filled t i slot m).incoming ≡ m.incoming)
      × ((remove_filled t i slot m).events ≡ m.events)
unfolding remove_filled
remove_filled_keeps t i slot m = (refl, refl)
