-- ===== src/Spsc/Queue.antt =====
-- The queue and its operations: src/spsc_queue.hpp.
use financial_exchange.Common.{
  ℕ, ◌+◌, ◌-◌, ◌%◌, ◌^◌, Bool, true, false, Option, none, some, leb, ◌==◌, if◌then◌else◌, update,
}

-- `size_t` has 64 bits.
unfoldable pub add64 : ℕ → ℕ → ℕ
add64 a b = (a + b) % 2 ^ 64

unfoldable pub sub64 : ℕ → ℕ → ℕ
sub64 a b = (a + 2 ^ 64 - b) % 2 ^ 64

pub record SpscQueue {ℓ} (A : Type ℓ) : Type ℓ where
  pub head : ℕ
  pub tail : ℕ
  pub buffer : ℕ → A

module _ {ℓ} {A : Type ℓ} where
  -- A queue as it is made: the slots hold the value of the default constructor.
  unfoldable pub new_queue : A → SpscQueue A
  new_queue blank = record { head = 0; tail = 0; buffer = λ i. blank }

  module _ (capacity : ℕ) where
    -- `i & mask_` is `i % capacity`, since the capacity is a power of two.
    unfoldable pub try_push : A → SpscQueue A → SpscQueue A × Bool
    unfolding sub64 add64
    try_push item q = if leb capacity (sub64 q.head q.tail) then (q, false) else (
      record q { buffer = update q.buffer (q.head % capacity) item; head = add64 q.head 1 },
      true,
    )

    -- The element that is taken, when there is one.
    unfoldable pub try_pop : SpscQueue A → SpscQueue A × Option A
    unfolding add64
    try_pop q =
        if q.tail == q.head
        then (q, none)
        else (record q { tail = add64 q.tail 1 }, some (q.buffer (q.tail % capacity)))

    unfoldable pub peek : SpscQueue A → Option A
    peek q = if q.tail == q.head then none else some (q.buffer (q.tail % capacity))

  unfoldable pub consume_one : SpscQueue A → SpscQueue A × Bool
  unfolding add64
  consume_one q =
      if q.tail == q.head then (q, false) else (record q { tail = add64 q.tail 1 }, true)

  unfoldable pub size_approx : SpscQueue A → ℕ
  unfolding sub64
  size_approx q = sub64 q.head q.tail
