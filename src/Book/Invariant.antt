-- ===== src/Book/Invariant.antt =====
-- The well-formed sides of a book: what the links, the totals and the free list of an
-- `OrderBookSide` say of the orders that rest in it.
use financial_exchange.Common.{
  ℕ, ◌+◌, ◌<◌, ◌^◌, ◌≡◌, refl, sym, ap, ◌∙◌, subst, ◌≢◌, Bool, Option, none, some, List, [], ◌∷◌,
  arith, update, update_ne, NotIn, Distinct, Apart, All,
}
use financial_exchange.Types.{max_orders}
use financial_exchange.Book.Pool.{Order, OrderPool}
use financial_exchange.Book.Side.{OrderBookSide, PriceLevel}
use financial_exchange.Book.Links.{Queue, Segment-next, Segment-previous}

-- The order in a slot of level `i`.
pub record IsResting (o : Order) (is_bid : Bool) (i slot : ℕ) : Type 0 where
  pub price : o.price ≡ i + 1
  pub positive : 0 < o.quantity_remaining
  pub filled : o.quantity_remaining + o.quantity_cumulative ≡ o.quantity
  pub small : o.quantity < 2 ^ 32
  pub handle : o.order_handle ≡ slot
  pub in_pool : slot < max_orders
  pub side : o.is_bid ≡ is_bid

-- The sum of the remaining quantities, as `_debug_check_level_invariant` computes it.
unfoldable pub volume : (ℕ → Order) → List ℕ → ℕ
volume pool [] = 0
volume pool (x ∷ xs) = (pool x).quantity_remaining + volume pool xs

abbrev pub AllResting : (ℕ → Order) → Bool → ℕ → List ℕ → Type 0
AllResting pool is_bid i = All (λ x. IsResting (pool x) is_bid i x)

-- A level whose queue holds the slots `xs`, oldest first.
pub record IsLevel (level : PriceLevel) (p : OrderPool) (is_bid : Bool) (i : ℕ) (xs : List ℕ)
    : Type 0 where
  pub linked : Queue p.next p.previous level.first level.last xs
  pub total : level.total_quantity ≡ volume p.pool xs
  pub small : level.total_quantity < 2 ^ 32
  pub resting : AllResting p.pool is_bid i xs
  pub distinct : Distinct xs
  pub price : level.price ≡ i + 1
  pub idx : level.idx ≡ i

-- The free list.
abbrev pub Chain : (ℕ → Option ℕ) → Option ℕ → List ℕ → Type 0
Chain next p [] = p ≡ none
Chain next p (x ∷ xs) = (p ≡ some x) × Chain next (next x) xs

-- Free slots lie in the pool and know their handles.
abbrev pub AllSlots : (ℕ → Order) → List ℕ → Type 0
AllSlots pool = All (λ x. ((pool x).order_handle ≡ x) × (x < max_orders))

-- A side whose level `i` holds the slots `queue i`, and whose free slots are `free`.
pub record IsSide (s : OrderBookSide) (queue : ℕ → List ℕ) (free : List ℕ) : Type 0 where
  pub level : (i : ℕ) → IsLevel (s.levels i) s.pool s.is_bid i (queue i)
  pub chain : Chain s.pool.next s.pool.next_free free
  pub free_distinct : Distinct free
  pub free_apart : (i : ℕ) → Apart (queue i) free
  pub free_slots : AllSlots s.pool.pool free

pub volume-update_ne :
    (pool : ℕ → Order) (k : ℕ) (o : Order) (xs : List ℕ)
    → NotIn k xs
    → volume (update pool k o) xs ≡ volume pool xs
unfolding volume
volume-update_ne pool k o [] h = refl
volume-update_ne pool k o (x ∷ xs) h =
    rw (update_ne pool k x o h.0, volume-update_ne pool k o xs h.1)

pub AllResting-update_ne :
    (pool : ℕ → Order) (is_bid : Bool) (i k : ℕ) (o : Order) (xs : List ℕ)
    → NotIn k xs
    → AllResting pool is_bid i xs
    → AllResting (update pool k o) is_bid i xs
AllResting-update_ne pool is_bid i k o [] h r = tt
AllResting-update_ne pool is_bid i k o (x ∷ xs) h r = (
  subst (λ a. IsResting a is_bid i x) (sym (update_ne pool k x o h.0)) r.0,
  AllResting-update_ne pool is_bid i k o xs h.1 r.1,
)

pub AllSlots-update_ne :
    (pool : ℕ → Order) (k : ℕ) (o : Order) (xs : List ℕ)
    → NotIn k xs
    → AllSlots pool xs
    → AllSlots (update pool k o) xs
AllSlots-update_ne pool k o [] h r = tt
AllSlots-update_ne pool k o (x ∷ xs) h r =
    (rw (update_ne pool k x o h.0) r.0, AllSlots-update_ne pool k o xs h.1 r.1)

-- Two slots of different levels differ.
pub NotIn-level :
    (pool : ℕ → Order) (is_bid : Bool) (i j k : ℕ) (xs : List ℕ)
    → (pool k).price ≡ i + 1
    → j ≢ i
    → AllResting pool is_bid j xs
    → NotIn k xs
NotIn-level pool is_bid i j k [] e h r = tt
NotIn-level pool is_bid i j k (x ∷ xs) e h r = (
  λ p. h (omega (arith, r.0.price, ap (λ t. (pool t).price) p)),
  NotIn-level pool is_bid i j k xs e h r.1,
)

-- A write to a slot outside a level's queue leaves the level as it was.
module _ (l : PriceLevel) (p : OrderPool) (is_bid : Bool) (i : ℕ) (xs : List ℕ) (k : ℕ) where
  pub IsLevel-write :
      (o : Order)
      → NotIn k xs
      → IsLevel l p is_bid i xs
      → IsLevel l (record p { pool = update p.pool k o }) is_bid i xs
  IsLevel-write o h v = record {
    linked = v.linked;
    total = v.total ∙ sym (volume-update_ne p.pool k o xs h);
    small = v.small;
    resting = AllResting-update_ne p.pool is_bid i k o xs h v.resting;
    distinct = v.distinct;
    price = v.price;
    idx = v.idx;
  }

  pub IsLevel-next :
      (e free : Option ℕ)
      → NotIn k xs
      → IsLevel l p is_bid i xs
      → IsLevel l (record p { next = update p.next k e; next_free = free }) is_bid i xs
  IsLevel-next e free h v = record {
    linked = Segment-next p.next p.previous none l.first xs l.last none k e h v.linked;
    total = v.total;
    small = v.small;
    resting = v.resting;
    distinct = v.distinct;
    price = v.price;
    idx = v.idx;
  }

  pub IsLevel-previous :
      (e : Option ℕ)
      → NotIn k xs
      → IsLevel l p is_bid i xs
      → IsLevel l (record p { previous = update p.previous k e }) is_bid i xs
  IsLevel-previous e h v = record {
    linked = Segment-previous p.next p.previous none l.first xs l.last none k e h v.linked;
    total = v.total;
    small = v.small;
    resting = v.resting;
    distinct = v.distinct;
    price = v.price;
    idx = v.idx;
  }

pub Chain-update :
    (next : ℕ → Option ℕ) (p : Option ℕ) (xs : List ℕ) (k : ℕ) (e : Option ℕ)
    → NotIn k xs
    → Chain next p xs
    → Chain (update next k e) p xs
Chain-update next p [] k e h c = c
Chain-update next p (x ∷ xs) k e h c =
    (c.0, rw (update_ne next k x e h.0) (Chain-update next (next x) xs k e h.1 c.1))
