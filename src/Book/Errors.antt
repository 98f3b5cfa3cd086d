-- ===== src/Book/Errors.antt =====
-- `amend_order`: what it refuses, what it confirms, and what goes on to the order.
use financial_exchange.Common.{
  ℕ, ◌+◌, ◌^◌, ◌≤◌, ◌<◌, ◌≡◌, ◌⊎◌, inl, inr, some, [], ◌∷◌, arith, ltb, ◌==◌, ==→eq, ==→ne, eq→==,
  sub32, sub32_lem, Bool-cases, ltb→lt, ltb→le,
}
use financial_exchange.Types.{invalid_volume}
use financial_exchange.Book.Side.{on_order_amended}
use financial_exchange.Book.Match.{OrderPtr}
use financial_exchange.Book.Api.{OrderBook, amend_order, find_order, deref, refuse, amend_found}

-- `amend_order`, with a 32-bit size, of an order of the client whose numbers add up: a new size below
-- what has been filled or above the old size is `INVALID_VOLUME` and changes nothing, the old size is
-- confirmed and changes nothing, and any size between goes on to the order.
pub amend_order_cases :
    (client_id request order_id quantity_new now : ℕ) (b : OrderBook) (ptr : OrderPtr)
    → find_order order_id b ≡ some ptr
    → (deref b ptr).client_id ≡ client_id
    → (deref b ptr).quantity_remaining + (deref b ptr).quantity_cumulative ≡ (deref b ptr).quantity
    → quantity_new < 2 ^ 32
    → let o = deref b ptr in
      let r = amend_order client_id request order_id quantity_new now b in
      (((quantity_new < o.quantity_cumulative) ⊎ (o.quantity < quantity_new))
        × (r ≡ refuse client_id request invalid_volume "Invalid order size." now b))
      ⊎ ((quantity_new ≡ o.quantity) × (r ≡ (b, on_order_amended request o.quantity o now ∷ [])))
      ⊎ ((o.quantity_cumulative ≤ quantity_new)
          × (quantity_new < o.quantity)
          × (r ≡ amend_found request ptr.slot o quantity_new now b))
unfolding amend_order
amend_order_cases client_id request order_id quantity_new now b ptr e owner sums small =
    let o = deref b ptr in
    let wrap = sub32_lem quantity_new o.quantity_cumulative in
    rw (e, amend_order)
      (rw (eq→== _ client_id owner) (elim (Bool-cases (ltb quantity_new o.quantity_cumulative)) [
        | inl f ↦ inl (inl (ltb→lt _ _ f), rw f)
        | inr f ↦
            let rest = wrap (ltb→le _ _ f) small in
            let enough = ltb→le _ _ f in
            elim (Bool-cases
              (ltb o.quantity_remaining (sub32 quantity_new o.quantity_cumulative))) [
                | inl g ↦ inl (inr (omega (arith, rest, ltb→lt _ _ g)), rw (f, g))
                | inr g ↦
                    elim (Bool-cases
                      (sub32 quantity_new o.quantity_cumulative == o.quantity_remaining)) [
                        | inl k ↦ inr (inl (omega (arith, rest, ==→eq _ _ k), rw (f, g, k)))
                        | inr k ↦
                            let differ = ==→ne _ _ k in
                            inr (
                              inr (enough, omega (arith, rest, ltb→le _ _ g, differ), rw (f, g, k)))
                      ]
              ]
      ]))
