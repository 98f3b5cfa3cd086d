-- ===== src/Book/Initial.antt =====
-- The book that the constructors of src/order.hpp and src/order_book.cpp leave.
use financial_exchange.Common.{
  ℕ, zero, suc, ◌+◌, ◌-◌, ◌<◌, ◌≡◌, refl, subst, inl, Bool, true, false, Option, none, some, List,
  [], ◌∷◌, arith, NotIn, Distinct, ltb, if◌then◌else◌,
}
use financial_exchange.Types.{max_orders}
use financial_exchange.Book.Pool.{Order, new_pool}
use financial_exchange.Book.Side.{new_side}
use financial_exchange.Book.Api.{new_book}
use financial_exchange.Book.Invariant.{IsSide, volume, Chain, AllSlots}
use financial_exchange.Book.Submitting.{IsBook}

-- The slots from `i` on, `n` of them.
slots : ℕ → ℕ → List ℕ
slots zero i = []
slots (suc n) i = i ∷ slots n (i + 1)

NotIn-slots : (n i k : ℕ) → k < i → NotIn k (slots n i)
unfolding slots
NotIn-slots zero i k h = tt
NotIn-slots (suc n) i k h = (omega arith, NotIn-slots n (i + 1) k (omega arith))

Distinct-slots : (n i : ℕ) → Distinct (slots n i)
unfolding slots
Distinct-slots zero i = tt
Distinct-slots (suc n) i = (NotIn-slots n (i + 1) i (omega arith), Distinct-slots n (i + 1))

module _ (memory : ℕ → Order) (links : ℕ → Option ℕ) where
  -- The constructor's loop chains every slot to the next one.
  Chain-slots :
      (n i : ℕ)
      → i + suc n ≡ max_orders
      → Chain (new_pool memory links).next (some i) (slots (suc n) i)
  unfolding slots new_pool
  Chain-slots zero i e = (refl, ground arith)
  Chain-slots (suc n) i e = (
    refl,
    subst (λ p. Chain (new_pool memory links).next p (slots (suc n) (i + 1))) linked
        (Chain-slots n (i + 1) (omega arith)),
  )
    where
      linked : some (i + 1) ≡ (if ltb i (max_orders - 1) then some (i + 1) else none)
      linked = ground arith

  AllSlots-slots :
      (n i : ℕ) → i + n ≡ max_orders → AllSlots (new_pool memory links).pool (slots n i)
  unfolding slots new_pool
  AllSlots-slots zero i e = tt
  AllSlots-slots (suc n) i e = ((refl, omega arith), AllSlots-slots n (i + 1) (omega arith))

  new_side-IsSide :
      (is_bid : Bool) → IsSide (new_side memory links is_bid) (λ i. []) (slots max_orders 0)
  unfolding new_side volume
  new_side-IsSide is_bid = record {
    level = λ i. record {
      linked = (refl, refl);
      total = refl;
      small = omega arith;
      resting = tt;
      distinct = tt;
      price = omega arith;
      idx = refl;
    };
    chain = Chain-slots 99_999 0 (omega arith);
    free_distinct = Distinct-slots max_orders 0;
    free_apart = λ i. tt;
    free_slots = AllSlots-slots max_orders 0 (omega arith);
  }

  -- A new book is well formed, whatever the memory that it is built in holds.
  pub new_book-IsBook : IsBook (new_book memory links)
  unfolding new_book new_side
  new_book-IsBook = record {
    bids_ordered = record {
      queue = λ i. [];
      free = slots max_orders 0;
      side = new_side-IsSide true;
      best = inl (refl, λ j h. refl);
    };
    asks_ordered = record {
      queue = λ i. [];
      free = slots max_orders 0;
      side = new_side-IsSide false;
      best = inl (refl, λ j h k. refl);
    };
    bids_side = refl;
    asks_side = refl;
    uncrossed = λ i j h k p q. absurd (omega arith);
  }
