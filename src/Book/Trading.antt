-- ===== src/Book/Trading.antt =====
-- One trade of `match_loop` keeps a side well formed: a maker that is filled in part stays at the
-- front of its level, one that is filled leaves it for the free list.
use financial_exchange.Common.{
  ℕ, ◌+◌, ◌-◌, ◌^◌, ◌≤◌, ◌<◌, ◌≡◌, refl, sym, ap, ◌∙◌, subst, ◌≢◌, Bool, Option, none, some, List,
  [], ◌∷◌, arith, update, update_self, update_ne, NotIn, Distinct, some-eq, Apart-cons, Apart,
  update_all, update_all2, add32, sub32, add32_lem, sub32_lem,
}
use financial_exchange.Book.Pool.{Order, OrderPool, deallocate}
use financial_exchange.Book.Side.{OrderBookSide, PriceLevel}
use financial_exchange.Book.Links.{Queue, Queue-pop, Queue-pop_last}
use financial_exchange.Book.Invariant.{
  IsResting, AllResting-update_ne, IsLevel, IsSide, volume, volume-update_ne, NotIn-level,
  IsLevel-write, IsLevel-next, IsLevel-previous, Chain, Chain-update, AllSlots-update_ne,
}

-- The maker after a trade of `n`.
abbrev pub fill : Order → ℕ → Order
fill o n = record o {
  quantity_remaining = sub32 o.quantity_remaining n;
  quantity_cumulative = add32 o.quantity_cumulative n;
}

abbrev pub reduce : PriceLevel → ℕ → PriceLevel
reduce l n = record l { total_quantity = sub32 l.total_quantity n }

abbrev pub write_order : OrderPool → ℕ → Order → OrderPool
write_order p slot o = record p { pool = update p.pool slot o }

-- What the numbers of a maker and of its level become.
pub fill_lem :
    (o : Order) (is_bid : Bool) (i slot n : ℕ)
    → IsResting o is_bid i slot
    → n ≤ o.quantity_remaining
    → ((fill o n).quantity_remaining ≡ o.quantity_remaining - n)
      × ((fill o n).quantity_cumulative ≡ o.quantity_cumulative + n)
fill_lem o is_bid i slot n r h =
    omega (
      arith,
      r.filled,
      r.small,
      sub32_lem o.quantity_remaining n,
      add32_lem o.quantity_cumulative n,
    )

pub reduce_total :
    (l : PriceLevel) (p : OrderPool) (is_bid : Bool) (i slot n : ℕ) (xs : List ℕ)
    → IsLevel l p is_bid i (slot ∷ xs)
    → n ≤ (p.pool slot).quantity_remaining
    → ((reduce l n).total_quantity ≡ volume (update p.pool slot (fill (p.pool slot) n)) (slot ∷ xs))
      × ((reduce l n).total_quantity < 2 ^ 32)
unfolding volume
reduce_total l p is_bid i slot n xs v h =
    let f = fill_lem (p.pool slot) is_bid i slot n v.resting.0 h in
    let u : (update p.pool slot (fill (p.pool slot) n) slot).quantity_remaining
        ≡ (p.pool slot).quantity_remaining - n =
      ap (λ (o : Order). o.quantity_remaining) (update_self p.pool slot (fill (p.pool slot) n))
      ∙ f.0 in
    let w = volume-update_ne p.pool slot (fill (p.pool slot) n) xs v.distinct.0 in
    omega (arith, u, w, v.total, v.small, sub32_lem l.total_quantity n)

-- A part fill at the level of the maker.
IsLevel-part :
    (l : PriceLevel) (p : OrderPool) (is_bid : Bool) (i slot n : ℕ) (xs : List ℕ)
    → IsLevel l p is_bid i (slot ∷ xs)
    → n < (p.pool slot).quantity_remaining
    → IsLevel (reduce l n) (write_order p slot (fill (p.pool slot) n)) is_bid i (slot ∷ xs)
IsLevel-part l p is_bid i slot n xs v h =
    let r = v.resting.0 in
    let f = fill_lem (p.pool slot) is_bid i slot n r (omega arith) in
    let t = reduce_total l p is_bid i slot n xs v (omega arith) in
    record {
      linked = v.linked;
      total = t.0;
      small = t.1;
      resting = (
        subst (λ o. IsResting o is_bid i slot)
            (sym (update_self p.pool slot (fill (p.pool slot) n)))
            (record {
              price = r.price;
              positive = omega (arith, f.0);
              filled = omega (arith, f.0, f.1, r.filled);
              small = r.small;
              handle = r.handle;
              in_pool = r.in_pool;
              side = r.side;
            }),
        AllResting-update_ne p.pool is_bid i slot (fill (p.pool slot) n) xs v.distinct.0
            v.resting.1,
      );
      distinct = v.distinct;
      price = v.price;
      idx = v.idx;
    }

-- A level without the first entry of its queue, whose `next_` is `e`, and the links of the pool.
abbrev pub popped_level : PriceLevel → Option ℕ → PriceLevel
popped_level l e = record l { first = e; last = elim e [ none ↦ none | some n ↦ l.last ] }

abbrev pub popped_pool : OrderPool → Option ℕ → OrderPool
popped_pool p e = record p {
  previous = elim e [ none ↦ p.previous | some n ↦ update p.previous n none ];
}

popped_linked :
    (p : OrderPool) (l : PriceLevel) (slot : ℕ) (xs : List ℕ)
    → Distinct (slot ∷ xs)
    → Queue p.next p.previous l.first l.last (slot ∷ xs)
    → Queue p.next
        (popped_pool p (p.next slot)).previous
        (p.next slot)
        (popped_level l (p.next slot)).last
        xs
popped_linked p l slot [] d s =
    subst (λ e. Queue p.next (popped_pool p e).previous e (popped_level l e).last [])
      (sym (Queue-pop_last p.next p.previous l.first l.last slot s)) (refl, refl)
popped_linked p l slot (n ∷ xs) d s =
    let r = Queue-pop p.next p.previous l.first l.last slot n xs d s in
    subst (λ e. Queue p.next (popped_pool p e).previous e (popped_level l e).last (n ∷ xs))
      (sym r.0) r.1

-- The level of a maker that is filled, without it.
pub IsLevel-full :
    (l : PriceLevel) (p : OrderPool) (is_bid : Bool) (i slot : ℕ) (xs : List ℕ)
    → IsLevel l p is_bid i (slot ∷ xs)
    → let n = (p.pool slot).quantity_remaining in
      IsLevel
        (popped_level (reduce l n) (p.next slot))
        (popped_pool (write_order p slot (fill (p.pool slot) n)) (p.next slot))
        is_bid
        i
        xs
unfolding volume
IsLevel-full l p is_bid i slot xs v =
    let n = (p.pool slot).quantity_remaining in
    let o = fill (p.pool slot) n in
    let w = volume-update_ne p.pool slot o xs v.distinct.0 in
    record {
      linked = popped_linked p l slot xs v.distinct v.linked;
      total = omega (arith, w, v.total, v.small, sub32_lem l.total_quantity n);
      small = omega (arith, v.total, v.small, sub32_lem l.total_quantity n);
      resting = AllResting-update_ne p.pool is_bid i slot o xs v.distinct.0 v.resting.1;
      distinct = v.distinct.1;
      price = v.price;
      idx = v.idx;
    }

-- Another level, when the entry behind the filled maker is not in its queue.
IsLevel-popped :
    (l : PriceLevel) (p : OrderPool) (is_bid : Bool) (j : ℕ) (xs : List ℕ) (e : Option ℕ)
    → ((n : ℕ) → e ≡ some n → NotIn n xs)
    → IsLevel l p is_bid j xs
    → IsLevel l (popped_pool p e) is_bid j xs
IsLevel-popped l p is_bid j xs none h v = v
IsLevel-popped l p is_bid j xs (some n) h v = IsLevel-previous l p is_bid j xs n none (h n refl) v

-- The entry behind the first one rests at the same level.
next_price :
    (l : PriceLevel) (p : OrderPool) (is_bid : Bool) (i slot : ℕ) (xs : List ℕ) (n : ℕ)
    → IsLevel l p is_bid i (slot ∷ xs)
    → p.next slot ≡ some n
    → (p.pool n).price ≡ i + 1
next_price l p is_bid i slot [] n v e = cc (v.linked.2.0)
next_price l p is_bid i slot (x ∷ xs) n v e =
    subst (λ y. (p.pool y).price ≡ i + 1) (some-eq (sym v.linked.2.0 ∙ e)) v.resting.1.0.price

-- The side after the maker at the front of level `i` has been filled, with `b` as the best index.
abbrev pub filled_side : OrderBookSide → ℕ → ℕ → ℕ → OrderBookSide
filled_side s i slot b =
    let p = s.pool in
    let n = (p.pool slot).quantity_remaining in
    let l = reduce (s.levels i) n in
    record s {
      levels = update (update s.levels i l) i (popped_level l (p.next slot));
      pool =
          deallocate slot (popped_pool (write_order p slot (fill (p.pool slot) n)) (p.next slot));
      best_price_index = b;
    }

module _ (s : OrderBookSide) (q : ℕ → List ℕ) (free : List ℕ) (i slot : ℕ) (xs : List ℕ) where
  abbrev pub level_of :
      IsSide s q free → q i ≡ slot ∷ xs → IsLevel (s.levels i) s.pool s.is_bid i (slot ∷ xs)
  level_of v e = subst (IsLevel (s.levels i) s.pool s.is_bid i) e (v.level i)

  -- Slots of level `i` are not in the queues of other levels.
  pub elsewhere :
      (k : ℕ) → IsSide s q free → (s.pool.pool k).price ≡ i + 1 → (j : ℕ) → j ≢ i → NotIn k (q j)
  elsewhere k v e j h = NotIn-level s.pool.pool s.is_bid i j k (q j) e h (v.level j).resting

  pub full-IsSide :
      (b : ℕ)
      → IsSide s q free
      → q i ≡ slot ∷ xs
      → IsSide (filled_side s i slot b) (update q i xs) (slot ∷ free)
  unfolding deallocate
  full-IsSide b v e =
      let p = s.pool in
      let n = (p.pool slot).quantity_remaining in
      let o = fill (p.pool slot) n in
      let lv = level_of v e in
      let away : Distinct (slot ∷ xs) × Apart (slot ∷ xs) free =
        (lv.distinct, subst (λ ys. Apart ys free) e (v.free_apart i)) in
      record {
        level =
            update_all2 (λ j l ys. IsLevel l (filled_side s i slot b).pool s.is_bid j ys) _ q i _ xs
              (IsLevel-next _ _ s.is_bid i xs slot p.next_free (some slot) lv.distinct.0
                (IsLevel-full (s.levels i) p s.is_bid i slot xs lv))
              (λ j h.
                let out = elsewhere slot v lv.resting.0.price j h in
                subst (λ l. IsLevel l (filled_side s i slot b).pool s.is_bid j (q j))
                  (sym (update_ne s.levels i j (reduce (s.levels i) n) h))
                  (IsLevel-next _ _ s.is_bid j (q j) slot p.next_free (some slot) out (
                    IsLevel-popped _ _ s.is_bid j (q j) (p.next slot)
                      (λ k k_next.
                        elsewhere k v (next_price _ p s.is_bid i slot xs k lv k_next) j h)
                      (IsLevel-write _ p s.is_bid j (q j) slot o out (v.level j)))));
        chain = (
          refl,
          subst (λ k. Chain (update p.next slot p.next_free) k free)
              (sym (update_self p.next slot p.next_free))
              (Chain-update p.next p.next_free free slot p.next_free away.1.0 v.chain),
        );
        free_distinct = (away.1.0, v.free_distinct);
        free_apart =
            update_all (λ j ys. Apart ys (slot ∷ free)) q i xs
              (Apart-cons xs slot free lv.distinct.0 away.1.1)
              (λ j h.
                Apart-cons (q j) slot free (elsewhere slot v lv.resting.0.price j h)
                  (v.free_apart j));
        free_slots = (
          rw (update_self p.pool slot o) (lv.resting.0.handle, lv.resting.0.in_pool),
          AllSlots-update_ne p.pool slot o free away.1.0 v.free_slots,
        );
      }

  -- A trade that does not fill the maker.
  pub part-IsSide :
      (n : ℕ)
      → IsSide s q free
      → q i ≡ slot ∷ xs
      → n < (s.pool.pool slot).quantity_remaining
      → IsSide
          (record s {
            levels = update s.levels i (reduce (s.levels i) n);
            pool = write_order s.pool slot (fill (s.pool.pool slot) n);
          })
          q
          free
  part-IsSide n v e h =
      let p = s.pool in
      let o = fill (p.pool slot) n in
      let lv = level_of v e in
      let slot_apart : NotIn slot free = (subst (λ ys. Apart ys free) e (v.free_apart i)).0 in
      record {
        level =
            update_all (λ j l. IsLevel l (write_order p slot o) s.is_bid j (q j)) s.levels i _
              (subst (IsLevel (reduce (s.levels i) n) (write_order p slot o) s.is_bid i) (sym e)
                (IsLevel-part (s.levels i) p s.is_bid i slot n xs lv h))
              (λ j k.
                IsLevel-write _ p s.is_bid j (q j) slot o (elsewhere slot v lv.resting.0.price j k)
                  (v.level j));
        chain = v.chain;
        free_distinct = v.free_distinct;
        free_apart = v.free_apart;
        free_slots = AllSlots-update_ne p.pool slot o free slot_apart v.free_slots;
      }
