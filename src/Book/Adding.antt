-- ===== src/Book/Adding.antt =====
-- `add_order` keeps a side well formed: the new order is the last of its level.
use financial_exchange.Common.{
  ℕ, ◌+◌, ◌^◌, ◌<◌, ◌≡◌, refl, sym, ap, ◌∙◌, subst, ◌≢◌, ◌⊎◌, inl, inr, Bool, Option, none, some,
  List, [], ◌∷◌, ◌++◌, arith, update, update_self, update_ne, update_all, NotIn, Apart, Apart-NotIn,
  Apart-tail, All-append, Distinct-snoc, add32_lem, some-eq,
}
use financial_exchange.Book.Pool.{Order, OrderPool, allocate}
use financial_exchange.Book.Side.{OrderBookSide, PriceLevel, link_last}
use financial_exchange.Book.Links.{Segment, Queue-push}
use financial_exchange.Book.Invariant.{
  IsResting, AllResting, AllResting-update_ne, IsLevel, IsSide, volume, volume-update_ne,
  NotIn-level, IsLevel-write, IsLevel-next, IsLevel-previous, Chain, Chain-update,
  AllSlots-update_ne,
}

-- The pool after `allocate` has taken the slot `o`.
abbrev pub allocated : OrderPool → ℕ → OrderPool
allocated p o = record p { next = update p.next o none; next_free = p.next o }

pub allocate-some :
    (p : OrderPool) (o : ℕ) → p.next_free ≡ some o → allocate p ≡ some (o, allocated p o)
unfolding allocate
allocate-some p o e = rw (e, allocate)

-- A slot off the free list is in no queue, and its links are free to change.
pub allocated-IsSide :
    (s : OrderBookSide) (q : ℕ → List ℕ) (o : ℕ) (free : List ℕ)
    → IsSide s q (o ∷ free)
    → IsSide (record s { pool = allocated s.pool o }) q free
allocated-IsSide s q o free v = record {
  level = λ i.
      IsLevel-next (s.levels i) s.pool s.is_bid i (q i) o none (s.pool.next o)
        (Apart-NotIn (q i) o free (v.free_apart i)) (v.level i);
  chain = Chain-update s.pool.next (s.pool.next o) free o none v.free_distinct.0 v.chain.1;
  free_distinct = v.free_distinct.1;
  free_apart = λ i. Apart-tail (q i) o free (v.free_apart i);
  free_slots = v.free_slots.1;
}

volume-snoc :
    (pool : ℕ → Order) (xs : List ℕ) (o : ℕ)
    → volume pool (xs ++ (o ∷ [])) ≡ volume pool xs + (pool o).quantity_remaining
unfolding volume
volume-snoc pool [] o = omega arith
volume-snoc pool (x ∷ xs) o = omega (arith, volume-snoc pool xs o)

Apart-snoc :
    (xs : List ℕ) (o : ℕ) (ys : List ℕ) → NotIn o ys → Apart xs ys → Apart (xs ++ (o ∷ [])) ys
Apart-snoc xs o ys h a = All-append (λ x. NotIn x ys) xs (o ∷ []) a (h, tt)

-- The level of the new order.
IsLevel-added :
    (s : OrderBookSide) (i o : ℕ) (c : Order) (xs : List ℕ)
    → NotIn o xs
    → IsLevel (s.levels i) s.pool s.is_bid i xs
    → IsResting c s.is_bid i o
    → (s.levels i).total_quantity + c.quantity_remaining < 2 ^ 32
    → IsLevel
        ((link_last i o c s.pool s).levels i)
        (link_last i o c s.pool s).pool
        s.is_bid
        i
        (xs ++ (o ∷ []))
unfolding link_last
IsLevel-added s i o c xs new v r fits =
    let l = s.levels i in
    let e = add32_lem l.total_quantity c.quantity_remaining fits in
    let w = volume-update_ne s.pool.pool o c xs new in
    let u = ap (λ (k : Order). k.quantity_remaining) (update_self s.pool.pool o c) in
    let z = volume-snoc (update s.pool.pool o c) xs o in
    subst (λ k. IsLevel k (link_last i o c s.pool s).pool s.is_bid i (xs ++ (o ∷ [])))
      (sym (update_self s.levels i _))
      (record {
        linked = Queue-push s.pool.next s.pool.previous l.first l.last xs o new v.distinct v.linked;
        total = omega (arith, e, w, u, z, v.total);
        small = omega (arith, e);
        resting =
            All-append _ xs (o ∷ [])
              (AllResting-update_ne s.pool.pool s.is_bid i o c xs new v.resting)
              (subst (λ k. IsResting k s.is_bid i o) (sym (update_self s.pool.pool o c)) r, tt);
        distinct = Distinct-snoc xs o new v.distinct;
        price = v.price;
        idx = v.idx;
      })

-- The last entry of a queue rests at its level.
last_price :
    (next previous : ℕ → Option ℕ) (prev p : Option ℕ) (xs : List ℕ) (last q : Option ℕ)
    (pool : ℕ → Order) (is_bid : Bool) (i l : ℕ)
    → Segment next previous prev p xs last q
    → AllResting pool is_bid i xs
    → last ≡ some l
    → (prev ≡ some l) ⊎ ((pool l).price ≡ i + 1)
last_price next previous prev p [] last q pool is_bid i l s r e = inl (s.1 ∙ e)
last_price next previous prev p (x ∷ xs) last q pool is_bid i l s r e =
    elim (last_price next previous (some x) (next x) xs last q pool is_bid i l s.2 r.1 e) [
      | inl f ↦ inr (subst (λ y. (pool y).price ≡ i + 1) (some-eq f) r.0.price)
      | inr f ↦ inr f
    ]

-- Another level, when neither the new slot nor the old last entry is in its queue.
IsLevel-linked :
    (l : PriceLevel) (p : OrderPool) (is_bid : Bool) (j : ℕ) (xs : List ℕ) (o : ℕ) (c : Order)
    (last : Option ℕ)
    → NotIn o xs
    → ((k : ℕ) → last ≡ some k → NotIn k xs)
    → IsLevel l p is_bid j xs
    → IsLevel l
        (record p {
          pool = update p.pool o c;
          next = elim last [
            | some k ↦ update (update p.next o none) k (some o)
            | none ↦ update p.next o none
          ];
          previous = update p.previous o last;
        })
        is_bid
        j
        xs
IsLevel-linked l p is_bid j xs o c none new out v =
    IsLevel-previous l _ is_bid j xs o none new (
      IsLevel-next l _ is_bid j xs o none p.next_free new (IsLevel-write l p is_bid j xs o c new v))
IsLevel-linked l p is_bid j xs o c (some k) new out v =
    IsLevel-next l _ is_bid j xs k (some o) p.next_free (out k refl) (
      IsLevel-previous l _ is_bid j xs o (some k) new (
        IsLevel-next l _ is_bid j xs o none p.next_free new
          (IsLevel-write l p is_bid j xs o c new v)))

Chain-linked :
    (next : ℕ → Option ℕ) (p : Option ℕ) (free : List ℕ) (o : ℕ) (last : Option ℕ)
    → NotIn o free
    → ((k : ℕ) → last ≡ some k → NotIn k free)
    → Chain next p free
    → Chain
        (elim last [ some k ↦ update (update next o none) k (some o) | none ↦ update next o none ])
        p
        free
Chain-linked next p free o none new out c = Chain-update next p free o none new c
Chain-linked next p free o (some k) new out c =
    Chain-update (update next o none) p free k (some o) (out k refl)
      (Chain-update next p free o none new c)

-- The last entry of a queue is in it, so that what is apart from the queue misses it.
last-Apart :
    (next previous : ℕ → Option ℕ) (prev p : Option ℕ) (xs : List ℕ) (last q : Option ℕ)
    (ys : List ℕ) (l : ℕ)
    → Segment next previous prev p xs last q
    → Apart xs ys
    → last ≡ some l
    → (prev ≡ some l) ⊎ NotIn l ys
last-Apart next previous prev p [] last q ys l s a e = inl (s.1 ∙ e)
last-Apart next previous prev p (x ∷ xs) last q ys l s a e =
    elim (last-Apart next previous (some x) (next x) xs last q ys l s.2 a.1 e) [
      | inl f ↦ inr (subst (λ y. NotIn y ys) (some-eq f) a.0)
      | inr f ↦ inr f
    ]

-- The new order at the end of level `i`.
pub link_last-IsSide :
    (s : OrderBookSide) (q : ℕ → List ℕ) (free : List ℕ) (i o : ℕ) (c : Order)
    → IsSide s q free
    → ((j : ℕ) → NotIn o (q j))
    → NotIn o free
    → IsResting c s.is_bid i o
    → (s.levels i).total_quantity + c.quantity_remaining < 2 ^ 32
    → IsSide (link_last i o c s.pool s) (update q i (q i ++ (o ∷ []))) free
unfolding link_last
link_last-IsSide s q free i o c v new new_free r fits =
    let p = s.pool in
    let lv = v.level i in
    let away : (k : ℕ) → (s.levels i).last ≡ some k → (j : ℕ) → j ≢ i → NotIn k (q j) = λ k e j h.
      elim (last_price p.next p.previous none (s.levels i).first (q i) (s.levels i).last none p.pool
        s.is_bid i k lv.linked lv.resting e) [
          | inl f ↦ cc
          | inr f ↦ NotIn-level p.pool s.is_bid i j k (q j) f h (v.level j).resting
        ] in
    let away_free : (k : ℕ) → (s.levels i).last ≡ some k → NotIn k free = λ k e.
      elim (last-Apart p.next p.previous none (s.levels i).first (q i) (s.levels i).last none free k
        lv.linked (v.free_apart i) e) [ inl f ↦ cc | inr f ↦ f ] in
    record {
      level = λ j.
          update_all
            (λ j ys.
              IsLevel ((link_last i o c p s).levels j) (link_last i o c p s).pool s.is_bid j ys)
            q i (q i ++ (o ∷ [])) (IsLevel-added s i o c (q i) (new i) lv r fits)
            (λ j h.
              subst (λ l. IsLevel l (link_last i o c p s).pool s.is_bid j (q j))
                (sym (update_ne s.levels i j _ h))
                (IsLevel-linked (s.levels j) p s.is_bid j (q j) o c (s.levels i).last (new j)
                  (λ k e. away k e j h) (v.level j)))
            j;
      chain = Chain-linked p.next p.next_free free o (s.levels i).last new_free away_free v.chain;
      free_distinct = v.free_distinct;
      free_apart =
          update_all (λ j ys. Apart ys free) q i (q i ++ (o ∷ []))
            (Apart-snoc (q i) o free new_free (v.free_apart i)) (λ j h. v.free_apart j);
      free_slots = AllSlots-update_ne p.pool o c free new_free v.free_slots;
    }
