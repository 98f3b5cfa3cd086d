-- ===== src/Book/Pool.antt =====
-- `Order` and `OrderPool` of src/order.hpp. An `Order*` into the pool is the index of its slot, and
-- `nullptr` is `none`. The link fields `next_` and `previous_` of the slots are kept in functions of
-- their own, so that a write to the data of an order and a write to a link are separate updates.
use financial_exchange.Common.{ℕ, ◌+◌, ◌-◌, Bool, Option, none, some, ltb, if◌then◌else◌, update}
use financial_exchange.Types.{max_orders}

pub record Order : Type 0 where
  pub client_id : ℕ
  pub order_id : ℕ
  pub order_handle : ℕ
  pub price : ℕ
  pub quantity : ℕ
  pub quantity_remaining : ℕ
  pub quantity_cumulative : ℕ
  pub is_bid : Bool

pub record OrderPool : Type 0 where
  pub pool : ℕ → Order
  pub next : ℕ → Option ℕ
  pub previous : ℕ → Option ℕ
  pub next_free : Option ℕ

-- The constructor. It leaves the other fields of the slots as the memory was, which is given.
unfoldable pub new_pool : (ℕ → Order) → (ℕ → Option ℕ) → OrderPool
new_pool memory links = record {
  pool = λ i. record (memory i) { order_handle = i };
  next = λ i. if ltb i (max_orders - 1) then some (i + 1) else none;
  previous = links;
  next_free = some 0;
}

unfoldable pub allocate : OrderPool → Option (ℕ × OrderPool)
allocate p = elim p.next_free [
  | none ↦ none
  | some order ↦
      some (order, record p { next = update p.next order none; next_free = p.next order })
]

unfoldable pub deallocate : ℕ → OrderPool → OrderPool
deallocate order p = record p { next = update p.next order p.next_free; next_free = some order }

-- `from_handle` is the address of a slot, which is its index here.
unfoldable pub from_handle : OrderPool → ℕ → Order
from_handle p order_handle = p.pool order_handle
