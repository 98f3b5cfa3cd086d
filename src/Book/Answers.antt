-- ===== src/Book/Answers.antt =====
-- The callbacks of src/order_book.cpp that answer a request: those that matching and `add_order` make.
use financial_exchange.Common.{
  ℕ, suc, ◌≡◌, refl, sym, ap, ◌∙◌, ◌⊎◌, inl, inr, Bool, true, false, Option, none, some, List, [],
  ◌∷◌, ◌++◌, ◌==◌, if◌then◌else◌, Bool-cases, Option-cases, update_self, subst, sub32, append_assoc,
}
use financial_exchange.Common.Loops.{while_keeps}
use financial_exchange.Types.{order_book_full}
use financial_exchange.Book.Pool.{Order, OrderPool, allocate}
use financial_exchange.Book.Side.{
  OrderBookSide, Event, on_trade, on_order_inserted, on_order_cancelled, on_order_amended,
  on_level_update, on_error, add_order, link_last, price_to_index, update_best_bid_after_order,
  update_best_ask_after_order,
}
use financial_exchange.Book.Match.{
  Taker, MatchState, OrderIndex, trade, remove_filled, level_body, level_test, match_level,
  match_body, match_test, match_loop,
}
use financial_exchange.Book.Matching.{traded}

-- A callback that answers a request.
abbrev pub answer : Event → List Event
answer (on_trade maker client order price total cumulative quantity now) = []
answer (on_level_update side level now) = []
answer (on_order_inserted request o now) = on_order_inserted request o now ∷ []
answer (on_order_cancelled request o now) = on_order_cancelled request o now ∷ []
answer (on_order_amended request old o now) = on_order_amended request old o now ∷ []
answer (on_error client request code message now) = on_error client request code message now ∷ []

abbrev pub answers : List Event → List Event
answers [] = []
answers (e ∷ es) = answer e ++ answers es

answers-append : (xs ys : List Event) → answers (xs ++ ys) ≡ answers xs ++ answers ys
answers-append [] ys = refl
answers-append (e ∷ xs) ys =
    ap (λ k. answer e ++ k) (answers-append xs ys)
    ∙ sym (append_assoc (answer e) (answers xs) (answers ys))

-- A callback that is no answer, after others.
no_more :
    (es : List Event) (e : Event) → answer e ≡ [] → answers es ≡ [] → answers (es ++ (e ∷ [])) ≡ []
no_more es e quiet h =
    answers-append es (e ∷ []) ∙ ap (λ k. k ++ (answer e ++ [])) h ∙ ap (λ k. k ++ []) quiet

pub after_quiet : (es more : List Event) → answers es ≡ [] → answers (es ++ more) ≡ answers more
after_quiet es more h = answers-append es more ∙ ap (λ k. k ++ answers more) h

-- Matching answers nothing.
module _ (t : Taker) where
  level_body_quiet :
      (i : ℕ) (m : MatchState) → answers m.events ≡ [] → answers (level_body t i m).events ≡ []
  unfolding level_body trade remove_filled
  level_body_quiet i m h = elim (Option-cases (m.side.levels i).first) [
    | inl e ↦ rw (e, level_body) h
    | inr (slot, e) ↦
        rw (e, level_body)
          (elim (Bool-cases (((trade t i slot m).side.pool.pool slot).quantity_remaining == 0)) [
            | inl f ↦ rw f (no_more m.events _ refl h)
            | inr f ↦ rw f (no_more m.events _ refl h)
          ])
  ]

  pub match_loop_quiet :
      (s : OrderBookSide) (index : OrderIndex) → answers (match_loop t s index).events ≡ []
  unfolding match_loop match_body match_level
  match_loop_quiet s index =
      while_keeps (match_test t) (match_body t) (λ m. answers m.events ≡ [])
        (λ m k.
          let i = m.side.best_price_index in
          no_more (match_level t i m).events _ refl (
            while_keeps (level_test i) (level_body t i) (λ n. answers n.events ≡ [])
              (λ n. level_body_quiet i n) (suc m.incoming) m k))
        (suc t.quantity) _ refl

after_order_pool :
    (d : Bool) (idx : ℕ) (s : OrderBookSide)
    → (if d then update_best_bid_after_order idx s else update_best_ask_after_order idx s).pool
      ≡ s.pool
unfolding update_best_bid_after_order update_best_ask_after_order
after_order_pool d idx s = by_side d
  where
    by_flag : (c : Bool) → (if c then record s { best_price_index = idx } else s).pool ≡ s.pool
    by_flag true = refl
    by_flag false = refl

    by_side :
        (d : Bool)
        → (if d then update_best_bid_after_order idx s else update_best_ask_after_order idx s).pool
          ≡ s.pool
    by_side true = by_flag _
    by_side false = by_flag _

-- The order that rests, by what the client submitted.
abbrev pub IsOrderOf : (client_id order_id quantity remaining : ℕ) → Order → Type 0
IsOrderOf client_id order_id quantity remaining o =
    (o.client_id ≡ client_id)
    × (o.order_id ≡ order_id)
    × (o.quantity ≡ quantity)
    × (o.quantity_remaining ≡ remaining)

module _ (price quantity remaining order_id client_id request now : ℕ) (s : OrderBookSide) where
  abbrev pub Added : Option ℕ × OrderBookSide × List Event → Type 0
  Added added =
      ((added.0 ≡ none)
        × (added.2 ≡ on_error client_id request order_book_full "Order book is full." now ∷ []))
      ⊎ ((slot : ℕ) × (added.0 ≡ some slot)
          × (answers added.2 ≡ [])
          × (traded added.2 ≡ 0)
          × IsOrderOf client_id order_id quantity remaining (added.1.pool.pool slot))

  pub add_order-Added : Added (add_order price quantity remaining order_id client_id request now s)
  unfolding add_order link_last traded price_to_index
  add_order-Added = elim (Option-cases (allocate s.pool)) [
    | inl e ↦ rw (e, add_order) (inl (refl, refl))
    | inr ((slot, p), e) ↦ rw (e, add_order) (inr (slot, refl, refl, refl, stored slot p))
  ]
    where
      contents : ℕ → OrderPool → Order
      contents slot p = record {
        client_id = client_id;
        order_id = order_id;
        order_handle = (p.pool slot).order_handle;
        price = price;
        quantity = quantity;
        quantity_remaining = remaining;
        quantity_cumulative = sub32 quantity remaining;
        is_bid = s.is_bid;
      }

      stored :
          (slot : ℕ) (p : OrderPool)
          → let linked = link_last (price_to_index price) slot (contents slot p) p s in
            IsOrderOf client_id order_id quantity remaining (
              (if linked.is_bid
                  then update_best_bid_after_order (price_to_index price) linked
                  else update_best_ask_after_order (price_to_index price) linked).pool.pool
                slot)
      stored slot p =
          subst (IsOrderOf client_id order_id quantity remaining)
            (sym (
              ap (λ (q : OrderPool). q.pool slot) (after_order_pool s.is_bid _ _)
              ∙ update_self p.pool slot (contents slot p)))
            (refl, refl, refl, refl)
