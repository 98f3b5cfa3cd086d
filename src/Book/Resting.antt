-- ===== src/Book/Resting.antt =====
-- `add_order` on a side whose best index is right: both stay so, whether or not a slot is free.
use financial_exchange.Common.{
  ℕ, ◌+◌, ◌-◌, ◌^◌, ◌≤◌, ◌<◌, ◌≡◌, refl, sym, ap, subst, inl, inr, Bool, true, false, ◌||◌, Option,
  none, some, List, [], ◌∷◌, ◌++◌, arith, update, update_self, update_ne, Apart-NotIn, sub32,
  add32_lem, sub32_lem, ltb, ◌==◌, if◌then◌else◌, Bool-cases,
}
use financial_exchange.Types.{
  num_book_levels, max_orders, minimum_bid, maximum_ask, order_book_full,
}
use financial_exchange.Book.Pool.{Order, OrderPool, allocate}
use financial_exchange.Book.Side.{
  OrderBookSide, PriceLevel, Event, on_level_update, on_error, side_of, link_last, add_order,
  update_best_bid_after_order, update_best_ask_after_order,
}
use financial_exchange.Book.Best.{SameBut, IsLowest-added, IsHighest-added}
use financial_exchange.Book.Invariant.{IsResting, IsSide}
use financial_exchange.Book.Matcher.{IsOrdered}
use financial_exchange.Book.MatchLoop.{BestAsk, BestBid}
use financial_exchange.Book.Adding.{allocated, allocate-some, allocated-IsSide, link_last-IsSide}

pub IsSide-best :
    (s : OrderBookSide) (q : ℕ → List ℕ) (free : List ℕ) (b : ℕ)
    → IsSide s q free
    → IsSide (record s { best_price_index = b }) q free
IsSide-best s q free b v = record {
  level = v.level;
  chain = v.chain;
  free_distinct = v.free_distinct;
  free_apart = v.free_apart;
  free_slots = v.free_slots;
}

ask_after_order :
    (i : ℕ) (s : OrderBookSide)
    → update_best_ask_after_order i s ≡ record s {
      best_price_index =
          if s.best_price_index == num_book_levels || ltb i s.best_price_index
          then i
          else s.best_price_index;
    }
unfolding update_best_ask_after_order
ask_after_order i s =
    elim (Bool-cases (s.best_price_index == num_book_levels || ltb i s.best_price_index)) [
      | inl e ↦ rw e
      | inr e ↦ rw e
    ]

bid_after_order :
    (i : ℕ) (s : OrderBookSide)
    → update_best_bid_after_order i s ≡ record s {
      best_price_index =
          if s.best_price_index == num_book_levels || ltb s.best_price_index i
          then i
          else s.best_price_index;
    }
unfolding update_best_bid_after_order
bid_after_order i s =
    elim (Bool-cases (s.best_price_index == num_book_levels || ltb s.best_price_index i)) [
      | inl e ↦ rw e
      | inr e ↦ rw e
    ]

-- What `add_order` asks of its arguments: a price in range, a remainder of the order, and a level
-- whose total has room for it.
pub record CanRest (s : OrderBookSide) (price quantity remaining : ℕ) : Type 0 where
  pub low : minimum_bid ≤ price
  pub high : price ≤ maximum_ask
  pub positive : 0 < remaining
  pub part : remaining ≤ quantity
  pub small : quantity < 2 ^ 32
  pub fits : (s.levels (price - 1)).total_quantity + remaining < 2 ^ 32

no_slot : (p : OrderPool) → p.next_free ≡ none → allocate p ≡ none
unfolding allocate
no_slot p e = rw (e, allocate)

module _ (price quantity remaining order_id client_id request now : ℕ) (s : OrderBookSide)
    (can : CanRest s price quantity remaining) where
  -- The data that the new slot gets.
  abbrev contents : ℕ → Order
  contents o = record {
    client_id = client_id;
    order_id = order_id;
    order_handle = (s.pool.pool o).order_handle;
    price = price;
    quantity = quantity;
    quantity_remaining = remaining;
    quantity_cumulative = sub32 quantity remaining;
    is_bid = s.is_bid;
  }

  abbrev linked_side : ℕ → OrderBookSide
  linked_side o = link_last (price - 1) o (contents o) (allocated s.pool o) s

  contents-IsResting :
      (o : ℕ)
      → (s.pool.pool o).order_handle ≡ o
      → o < max_orders
      → IsResting (contents o) s.is_bid (price - 1) o
  contents-IsResting o h k = record {
    price = omega (arith, can.low);
    positive = can.positive;
    filled = omega (arith, can.part, sub32_lem quantity remaining can.part can.small);
    small = can.small;
    handle = h;
    in_pool = k;
    side = refl;
  }

  linked-IsSide :
      (q : ℕ → List ℕ) (o : ℕ) (free : List ℕ)
      → IsSide s q (o ∷ free)
      → IsSide (linked_side o) (update q (price - 1) (q (price - 1) ++ (o ∷ []))) free
  unfolding link_last
  linked-IsSide q o free v =
      link_last-IsSide (record s { pool = allocated s.pool o }) q free (price - 1) o (contents o)
        (allocated-IsSide s q o free v) (λ j. Apart-NotIn (q j) o free (v.free_apart j))
        v.free_distinct.0 (contents-IsResting o v.free_slots.0.0 v.free_slots.0.1) can.fits

  linked_same : (o : ℕ) → SameBut (price - 1) s.levels (linked_side o).levels
  unfolding link_last
  linked_same o j h =
      ap (λ (k : PriceLevel). k.total_quantity) (update_ne s.levels (price - 1) j _ h)

  linked_pos : (o : ℕ) → 0 < ((linked_side o).levels (price - 1)).total_quantity
  unfolding link_last
  linked_pos o = omega (
    arith,
    can.positive,
    add32_lem (s.levels (price - 1)).total_quantity remaining can.fits,
    ap (λ (k : PriceLevel). k.total_quantity) (update_self s.levels (price - 1) _),
  )

  -- What the call leaves: the side is ordered, and only the level of the price gains volume.
  abbrev pub Rested : ((ℕ → PriceLevel) → ℕ → Type 0) → OrderBookSide → Type 0
  Rested Best s' =
      IsOrdered Best s' × (s'.is_bid ≡ s.is_bid) × SameBut (price - 1) s.levels s'.levels

  -- The call when the slot `o` is free.
  add_order-some :
      (o : ℕ) (flag : Bool)
      → s.pool.next_free ≡ some o
      → s.is_bid ≡ flag
      → add_order price quantity remaining order_id client_id request now s ≡ (
        some o,
        (if flag
            then update_best_bid_after_order (price - 1) (linked_side o)
            else update_best_ask_after_order (price - 1) (linked_side o)),
        on_level_update (side_of s.is_bid) ((linked_side o).levels (price - 1)) now ∷ [],
      )
  unfolding add_order link_last
  add_order-some o flag free is_bid =
      rw (allocate-some s.pool o free, add_order)
        (ap
          (λ f.
            let r : Option ℕ × OrderBookSide × List Event = (
              some o,
              (if f
                  then update_best_bid_after_order (price - 1) (linked_side o)
                  else update_best_ask_after_order (price - 1) (linked_side o)),
              on_level_update (side_of s.is_bid) ((linked_side o).levels (price - 1)) now ∷ [],
            ) in
            r)
          is_bid)

  add_order_full :
      s.pool.next_free ≡ none
      → add_order price quantity remaining order_id client_id request now s
        ≡ (none, s, on_error client_id request order_book_full "Order book is full." now ∷ [])
  unfolding add_order
  add_order_full free = rw (no_slot s.pool free, add_order)

  linked_bid :
      (o : ℕ)
      → ((linked_side o).is_bid ≡ s.is_bid)
        × ((linked_side o).best_price_index ≡ s.best_price_index)
  unfolding link_last
  linked_bid o = (refl, refl)

  level_ok : price - 1 < num_book_levels
  level_ok = omega (arith, can.low, can.high)

  pub add_ask-Rested :
      (v : IsOrdered BestAsk s)
      → s.is_bid ≡ false
      → Rested BestAsk (add_order price quantity remaining order_id client_id request now s).1
  add_ask-Rested v is_ask = go v.free v.side
    where
      go :
          (free : List ℕ)
          → IsSide s v.queue free
          → Rested BestAsk (add_order price quantity remaining order_id client_id request now s).1
      go [] w =
          subst (λ r. Rested BestAsk r.1) (sym (add_order_full w.chain)) (v, refl, λ j h. refl)
      go (o ∷ free) w =
          subst (λ r. Rested BestAsk r.1) (sym (add_order-some o false w.chain.0 is_ask))
            (subst (Rested BestAsk) (sym (ask_after_order (price - 1) (linked_side o))) (
              record {
                queue = update v.queue (price - 1) (v.queue (price - 1) ++ (o ∷ []));
                free = free;
                side = IsSide-best (linked_side o) _ free _ (linked-IsSide v.queue o free w);
                best =
                    IsLowest-added s.levels (linked_side o).levels (linked_side o).best_price_index
                      (price - 1) level_ok (linked_same o) (linked_pos o)
                      (subst (BestAsk s.levels) (sym (linked_bid o).1) v.best);
              },
              (linked_bid o).0,
              linked_same o,
            ))

  pub add_bid-Rested :
      (v : IsOrdered BestBid s)
      → s.is_bid ≡ true
      → Rested BestBid (add_order price quantity remaining order_id client_id request now s).1
  add_bid-Rested v is_bid = go v.free v.side
    where
      go :
          (free : List ℕ)
          → IsSide s v.queue free
          → Rested BestBid (add_order price quantity remaining order_id client_id request now s).1
      go [] w =
          subst (λ r. Rested BestBid r.1) (sym (add_order_full w.chain)) (v, refl, λ j h. refl)
      go (o ∷ free) w =
          subst (λ r. Rested BestBid r.1) (sym (add_order-some o true w.chain.0 is_bid))
            (subst (Rested BestBid) (sym (bid_after_order (price - 1) (linked_side o))) (
              record {
                queue = update v.queue (price - 1) (v.queue (price - 1) ++ (o ∷ []));
                free = free;
                side = IsSide-best (linked_side o) _ free _ (linked-IsSide v.queue o free w);
                best =
                    IsHighest-added s.levels (linked_side o).levels (linked_side o).best_price_index
                      (price - 1) level_ok (linked_same o) (linked_pos o)
                      (subst (BestBid s.levels) (sym (linked_bid o).1) v.best);
              },
              (linked_bid o).0,
              linked_same o,
            ))
