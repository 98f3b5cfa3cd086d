-- ===== src/Book/Cancelling.antt =====
-- `cancel_order` and the index of orders: an order that is cancelled is not found again.
use financial_exchange.Common.{
  ℕ, ◌≡◌, ◌≢◌, refl, sym, ap, ◌∙◌, Bool, true, false, Option, none, some, eq→==, if◌then◌else◌,
  update, update_self, update_ne,
}
use financial_exchange.Types.{order_not_found}
use financial_exchange.Book.Pool.{Order}
use financial_exchange.Book.Side.{OrderBookSide}
use financial_exchange.Book.Match.{OrderPtr, OrderIndex, encode_handle, forget_order}
use financial_exchange.Book.Api.{
  OrderBook, cancel_order, amend_order, find_order, deref, refuse, cancel_found, set_side,
  remove_order,
}

set_side-index : (d : Bool) (s : OrderBookSide) (b : OrderBook) → (set_side d s b).index ≡ b.index
set_side-index true s b = refl
set_side-index false s b = refl

cancel_found-index :
    (request slot : ℕ) (o : Order) (now : ℕ) (b : OrderBook)
    → (cancel_found request slot o now b).0.index ≡ forget_order o b.index
unfolding cancel_found remove_order
cancel_found-index request slot o now b = by_flag _ _ _ ∙ ap (forget_order o) (set_side-index _ _ b)
  where
    by_flag :
        (c : Bool) (s : OrderBookSide) (t : OrderBook)
        → (if c then set_side o.is_bid s t else t).index ≡ t.index
    by_flag true s t = set_side-index o.is_bid s t
    by_flag false s t = refl

-- What `find_order` reads is the index.
abbrev found : ℕ → OrderIndex → Option OrderPtr
found order_id index = elim (index.order_id_to_handle order_id) [
  | none ↦ none
  | some order_handle ↦ index.order_by_handle order_handle
]

forget_order-found :
    (o : Order) (index : OrderIndex) → found o.order_id (forget_order o index) ≡ none
unfolding forget_order
forget_order-found o index =
    read (update index.order_id_to_handle o.order_id none)
      (update_self index.order_id_to_handle o.order_id none)
  where
    read :
        (ids : ℕ → Option ℕ)
        → ids o.order_id ≡ none
        → found o.order_id (record {
          order_by_handle = (forget_order o index).order_by_handle;
          order_id_to_handle = ids;
        })
          ≡ none
    read ids e = rw e refl

forget_order-found_ne :
    (o : Order) (index : OrderIndex) (k order_handle : ℕ)
    → k ≢ o.order_id
    → index.order_id_to_handle k ≡ some order_handle
    → order_handle ≢ encode_handle o
    → found k (forget_order o index) ≡ found k index
unfolding forget_order
forget_order-found_ne o index k order_handle other e apart =
    read (forget_order o index) index
      (update_ne index.order_id_to_handle o.order_id k none other ∙ e) e
      (update_ne index.order_by_handle (encode_handle o) order_handle none apart)
  where
    read :
        (i j : OrderIndex)
        → i.order_id_to_handle k ≡ some order_handle
        → j.order_id_to_handle k ≡ some order_handle
        → i.order_by_handle order_handle ≡ j.order_by_handle order_handle
        → found k i ≡ found k j
    read i j a b same = rw (found, a) (rw (found, b) same)

cancel_order-found :
    (client_id request order_id now : ℕ) (b : OrderBook) (ptr : OrderPtr)
    → find_order order_id b ≡ some ptr
    → (deref b ptr).client_id ≡ client_id
    → cancel_order client_id request order_id now b
      ≡ cancel_found request ptr.slot (deref b ptr) now b
unfolding cancel_order
cancel_order-found client_id request order_id now b ptr e owner =
    rw (e, cancel_order) (rw (eq→== _ client_id owner) refl)

unknown_cancel :
    (client_id request order_id now : ℕ) (b : OrderBook)
    → find_order order_id b ≡ none
    → cancel_order client_id request order_id now b
      ≡ refuse client_id request order_not_found "Order ID not found." now b
unfolding cancel_order
unknown_cancel client_id request order_id now b e = rw (e, cancel_order) refl

unknown_amend :
    (client_id request order_id quantity_new now : ℕ) (b : OrderBook)
    → find_order order_id b ≡ none
    → amend_order client_id request order_id quantity_new now b
      ≡ refuse client_id request order_not_found "Order ID not found." now b
unfolding amend_order
unknown_amend client_id request order_id quantity_new now b e = rw (e, amend_order) refl

-- For an order that the index finds by its own id, cancelled by its client: after that, a cancel and
-- an amend of that id, by whichever client, are refused as not found and change nothing; and every
-- other id whose handle is not that of the cancelled order leads to the slot that it led to before.
pub cancel_order-gone :
    (client_id request order_id now : ℕ) (b : OrderBook) (ptr : OrderPtr)
    → find_order order_id b ≡ some ptr
    → (deref b ptr).client_id ≡ client_id
    → (deref b ptr).order_id ≡ order_id
    → let after = (cancel_order client_id request order_id now b).0 in
      ((client request' now' : ℕ)
        → cancel_order client request' order_id now' after
          ≡ refuse client request' order_not_found "Order ID not found." now' after)
      × ((client request' quantity_new now' : ℕ)
          → amend_order client request' order_id quantity_new now' after
            ≡ refuse client request' order_not_found "Order ID not found." now' after)
      × ((k order_handle : ℕ)
          → k ≢ order_id
          → b.index.order_id_to_handle k ≡ some order_handle
          → order_handle ≢ encode_handle (deref b ptr)
          → find_order k after ≡ find_order k b)
unfolding find_order
cancel_order-gone client_id request order_id now b ptr e owner own =
    let o = deref b ptr in
    let index =
      ap (λ r. r.0.index) (cancel_order-found client_id request order_id now b ptr e owner)
      ∙ cancel_found-index request ptr.slot o now b in
    let gone =
      ap (found order_id) index
      ∙ ap (λ k. found k (forget_order o b.index)) (sym own)
      ∙ forget_order-found o b.index in
    (
      λ client request' now'. unknown_cancel client request' order_id now' _ gone,
      λ client request' quantity_new now'.
          unknown_amend client request' order_id quantity_new now' _ gone,
      λ k order_handle other at apart.
          ap (found k) index
          ∙ forget_order-found_ne o b.index k order_handle (λ same. other (same ∙ own)) at apart,
    )
