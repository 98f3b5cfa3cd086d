-- ===== src/Book/LevelLoop.antt =====
-- The inner loop of `match_loop` at the best level: it ends by its test, keeps the side well formed
-- and the best index right, and every unit that leaves the incoming order is in a reported trade.
use financial_exchange.Common.{
  ℕ, suc, ◌+◌, ◌^◌, ◌≤◌, ◌<◌, ◌≡◌, sym, ap, ◌∙◌, subst, ◌≢◌, ◌⊎◌, inl, inr, true, none, some, List,
  [], ◌∷◌, arith, update, update_self, update_ne, refl, dec_lt, update_all,
}
use financial_exchange.Common.Loops.{while-stops}
use financial_exchange.Types.{num_book_levels}
use financial_exchange.Book.Best.{SameBut}
use financial_exchange.Book.Pool.{OrderPool}
use financial_exchange.Book.Side.{OrderBookSide, PriceLevel}
use financial_exchange.Book.Match.{
  Taker, MatchState, trade, remove_filled, level_body, level_test, match_level,
}
use financial_exchange.Book.Invariant.{IsLevel, IsSide, volume}
use financial_exchange.Book.Trading.{reduce, popped_level, filled_side, full-IsSide, part-IsSide}
use financial_exchange.Book.Matching.{
  trade_quantity, queue_of_first, level_body_part, level_body_full, emptied_side, full_last,
  full_more, traded, trade_moves, remove_filled_keeps,
}
use financial_exchange.Book.Matcher.{
  IsMatcher, IsOrdered, Shrinks, Shrinks-Within, LevelInv, volume_pos, level_test-true,
  level_test-false, reduce_le, filled-Shrinks,
}

module _ (t : Taker) (Best : (ℕ → PriceLevel) → ℕ → Type 0) (matcher : IsMatcher t Best)
    (base : ℕ → ℕ) (small : t.quantity < 2 ^ 32) (i : ℕ) (level_ok : i < num_book_levels)
    (crossed : t.crosses (i + 1) t.price ≡ true) where
  left_le : (start : ℕ) (m : MatchState) → LevelInv t Best base i start m → m.incoming ≤ start
  left_le start m v = elim v.progress [ inl h ↦ omega arith | inr h ↦ omega (arith, h.0) ]

  -- A write to level `i` of a side whose best index it is, when volume stays there.
  best_kept :
      (s : OrderBookSide) (l : PriceLevel)
      → Best s.levels s.best_price_index
      → s.best_price_index ≡ i
      → 0 < l.total_quantity
      → Best (update s.levels i l) s.best_price_index
  best_kept s l best at_best pos = subst (Best (update s.levels i l)) (sym at_best) (
      matcher.keep s.levels (update s.levels i l) i level_ok
        (λ j h. ap (λ (k : PriceLevel). k.total_quantity) (update_ne s.levels i j l h))
        (subst (λ (k : PriceLevel). 0 < k.total_quantity) (sym (update_self s.levels i l)) pos)
        (subst (Best s.levels) at_best best))

  -- A round whose maker is not filled: nothing is left to match.
  part_step :
      (start slot : ℕ) (xs : List ℕ) (m : MatchState)
      → (v : LevelInv t Best base i start m) → v.ordered.queue i ≡ slot ∷ xs
      → m.side.best_price_index ≡ i
      → 0 < m.incoming
      → m.incoming < (m.side.pool.pool slot).quantity_remaining
      → LevelInv t Best base i start (trade t i slot m) × ((trade t i slot m).incoming < m.incoming)
  unfolding trade
  part_step start slot xs m v e at_best pos h =
      let o = v.ordered in
      let n = trade_quantity m slot in
      let moves = trade_moves t i slot m (omega (arith, v.conserved, small)) in
      let le = left_le start m v in
      let lv = subst (IsLevel (m.side.levels i) m.side.pool m.side.is_bid i) e (o.side.level i) in
      let after = part-IsSide m.side o.queue o.free i slot xs n o.side e (omega arith) in
      let there =
        subst (IsLevel (reduce (m.side.levels i) n) (trade t i slot m).side.pool m.side.is_bid i) e
          (subst (λ l. IsLevel l (trade t i slot m).side.pool m.side.is_bid i (o.queue i))
            (update_self m.side.levels i (reduce (m.side.levels i) n)) (after.level i)) in
      (
        record {
          ordered = record {
            queue = o.queue;
            free = o.free;
            side = after;
            best =
                best_kept m.side (reduce (m.side.levels i) n) o.best at_best
                  (omega (arith, there.total, volume_pos _ m.side.is_bid i slot xs there.resting));
          };
          frontier = inl at_best;
          within =
              Shrinks-Within t base i m.side (trade t i slot m).side crossed
                (update_all
                  (λ j (k : PriceLevel).
                    (k.total_quantity ≤ (m.side.levels j).total_quantity)
                    × (j ≢ i → k.total_quantity ≡ (m.side.levels j).total_quantity))
                  m.side.levels i (reduce (m.side.levels i) n)
                  (reduce_le _ _ m.side.is_bid i slot n xs lv (omega arith), λ h. absurd (h refl))
                  (λ j k. (omega arith, λ h. refl)))
                v.within;
          conserved = omega (arith, moves.0, moves.1, v.conserved);
          progress = inl (omega (arith, moves.0));
        },
        omega (arith, moves.0),
      )

  -- What a round leaves of the side.
  abbrev Left : OrderBookSide → OrderBookSide → Type 0
  Left s s' =
      IsOrdered Best s'
      × ((s'.best_price_index ≡ i) ⊎ ((s'.levels i).first ≡ none))
      × Shrinks i s.levels s'.levels

  filled_level :
      (s : OrderBookSide) (q : ℕ → List ℕ) (free : List ℕ) (slot b : ℕ) (xs : List ℕ)
      → IsSide (filled_side s i slot b) (update q i xs) (slot ∷ free)
      → IsLevel
          (popped_level
            (reduce (s.levels i) (s.pool.pool slot).quantity_remaining)
            (s.pool.next slot))
          (filled_side s i slot b).pool
          s.is_bid
          i
          xs
  filled_level s q free slot b xs v =
      let reduced = reduce (s.levels i) (s.pool.pool slot).quantity_remaining in
      let popped = popped_level reduced (s.pool.next slot) in
      let p = (filled_side s i slot b).pool in
      subst (IsLevel popped p s.is_bid i) (update_self q i xs) (
        subst (λ l. IsLevel l p s.is_bid i (update q i xs i))
          (update_self (update s.levels i reduced) i popped) (v.level i))

  -- A round whose maker is filled, with another order behind it.
  more-Left :
      (s : OrderBookSide) (o : IsOrdered Best s) (slot x : ℕ) (xs : List ℕ)
      → o.queue i ≡ slot ∷ x ∷ xs
      → s.best_price_index ≡ i
      → Left s (filled_side s i slot s.best_price_index)
  more-Left s o slot x xs e at_best =
      let b = s.best_price_index in
      let lv = subst (IsLevel (s.levels i) s.pool s.is_bid i) e (o.side.level i) in
      let after = full-IsSide s o.queue o.free i slot (x ∷ xs) b o.side e in
      let there = filled_level s o.queue o.free slot b (x ∷ xs) after in
      let s' = filled_side s i slot b in
      let reduced = reduce (s.levels i) (s.pool.pool slot).quantity_remaining in
      let popped = popped_level reduced (s.pool.next slot) in
      (
        record {
          queue = update o.queue i (x ∷ xs);
          free = slot ∷ o.free;
          side = after;
          best = subst (Best s'.levels) (sym at_best) (
              matcher.keep s.levels s'.levels i level_ok
                (λ j h.
                  ap (λ (k : PriceLevel). k.total_quantity)
                    (update_ne (update s.levels i reduced) i j popped h
                      ∙ update_ne s.levels i j reduced h))
                (subst (λ (k : PriceLevel). 0 < k.total_quantity)
                  (sym (update_self (update s.levels i reduced) i popped))
                  (omega (arith, there.total, volume_pos _ s.is_bid i x xs there.resting)))
                (subst (Best s.levels) at_best o.best));
        },
        inl at_best,
        filled-Shrinks s i slot b (x ∷ xs) lv,
      )

  -- A round that empties the level, so that the best index moves on.
  last-Left :
      (s : OrderBookSide) (o : IsOrdered Best s) (slot : ℕ) (l : PriceLevel)
      → o.queue i ≡ slot ∷ []
      → s.best_price_index ≡ i
      → l ≡ reduce (s.levels i) (s.pool.pool slot).quantity_remaining
      → (p : OrderPool)
      → Left s (
          filled_side s i slot
            (t.advance_best (
              emptied_side
                (record s { levels = update s.levels i l; pool = p })
                i)).best_price_index)
  unfolding volume
  last-Left s o slot l e at_best l_eq p =
      let mid : OrderBookSide = record s { levels = update s.levels i l; pool = p } in
      let left = emptied_side mid i in
      let b = (t.advance_best left).best_price_index in
      let after = full-IsSide s o.queue o.free i slot [] b o.side e in
      let there = filled_level s o.queue o.free slot b [] after in
      let s' = filled_side s i slot b in
      let reduced = reduce (s.levels i) (s.pool.pool slot).quantity_remaining in
      let popped = popped_level reduced (s.pool.next slot) in
      let bare = record (update s.levels i l i) { first = none; last = none } in
      let lv = subst (IsLevel (s.levels i) s.pool s.is_bid i) e (o.side.level i) in
      let zero_there : (left.levels i).total_quantity ≡ 0 =
        ap (λ (k : PriceLevel). k.total_quantity) (update_self (update s.levels i l) i bare)
        ∙ ap (λ (k : PriceLevel). k.total_quantity) (update_self s.levels i l ∙ l_eq)
        ∙ there.total in
      let others : SameBut i s.levels left.levels = λ j h.
        ap (λ (k : PriceLevel). k.total_quantity)
          (update_ne (update s.levels i l) i j bare h ∙ update_ne s.levels i j l h) in
      let moved : Best left.levels b =
        matcher.emptied s.levels left (subst (λ k. k < num_book_levels) (sym at_best) level_ok)
          (subst (λ k. SameBut k s.levels left.levels) (sym at_best) others)
          (subst (λ k. (left.levels k).total_quantity ≡ 0) (sym at_best) zero_there) o.best in
      (
        record {
          queue = update o.queue i [];
          free = slot ∷ o.free;
          side = after;
          best =
              matcher.same left.levels s'.levels b
                (update_all
                  (λ j (k : PriceLevel). k.total_quantity ≡ (left.levels j).total_quantity)
                  (update s.levels i reduced) i popped (there.total ∙ sym zero_there)
                  (λ j h.
                    ap (λ (k : PriceLevel). k.total_quantity) (update_ne s.levels i j reduced h)
                    ∙ sym (others j h)))
                moved;
        },
        inr (
            ap (λ (k : PriceLevel). k.first) (update_self (update s.levels i reduced) i popped)
            ∙ lv.linked.2.0),
        filled-Shrinks s i slot b [] lv,
      )

  -- A round whose maker is filled.
  full_step :
      (start slot : ℕ) (xs : List ℕ) (m : MatchState)
      → (v : LevelInv t Best base i start m) → v.ordered.queue i ≡ slot ∷ xs
      → m.side.best_price_index ≡ i
      → 0 < m.incoming
      → (m.side.pool.pool slot).quantity_remaining ≤ m.incoming
      → Left m.side (remove_filled t i slot (trade t i slot m)).side
  unfolding trade
  full_step start slot [] m v e at_best pos h =
      let lv =
        subst (IsLevel (m.side.levels i) m.side.pool m.side.is_bid i) e (v.ordered.side.level i) in
      let n = trade_quantity m slot in
      let n_eq : n ≡ (m.side.pool.pool slot).quantity_remaining = omega arith in
      subst (Left m.side) (sym (full_last t i slot m matcher.advances h lv.linked.2.0)) (
        last-Left m.side v.ordered slot (reduce (m.side.levels i) n) e at_best
          (ap (reduce (m.side.levels i)) n_eq) (trade t i slot m).side.pool)
  full_step start slot (x ∷ xs) m v e at_best pos h =
      let lv =
        subst (IsLevel (m.side.levels i) m.side.pool m.side.is_bid i) e (v.ordered.side.level i) in
      subst (Left m.side) (sym (full_more t i slot x m h lv.linked.2.0))
        (more-Left m.side v.ordered slot x xs e at_best)

  -- One round of the loop.
  level_step :
      (start slot : ℕ) (m : MatchState)
      → LevelInv t Best base i start m
      → (m.side.levels i).first ≡ some slot
      → 0 < m.incoming
      → LevelInv t Best base i start (level_body t i m) × ((level_body t i m).incoming < m.incoming)
  level_step start slot m v first pos =
      let o = v.ordered in
      let (xs, e) =
        queue_of_first (m.side.levels i) m.side.pool m.side.is_bid i slot (o.queue i)
          (o.side.level i) first in
      let lv = subst (IsLevel (m.side.levels i) m.side.pool m.side.is_bid i) e (o.side.level i) in
      let r = lv.resting.0 in
      let positive = r.positive in
      let at_best : m.side.best_price_index ≡ i = elim v.frontier [ inl p ↦ p | inr p ↦ cc ] in
      elim (dec_lt m.incoming (m.side.pool.pool slot).quantity_remaining) [
        | yes h ↦
            subst (λ z. LevelInv t Best base i start z × (z.incoming < m.incoming))
              (sym (level_body_part t i slot m.side.is_bid m first r h))
              (part_step start slot xs m v e at_best pos h)
        | no h ↦
            let k : (m.side.pool.pool slot).quantity_remaining ≤ m.incoming = omega arith in
            let moves = trade_moves t i slot m (omega (arith, v.conserved, small)) in
            let keeps = remove_filled_keeps t i slot (trade t i slot m) in
            let left = full_step start slot xs m v e at_best pos k in
            let fewer : (remove_filled t i slot (trade t i slot m)).incoming < m.incoming =
              omega (arith, keeps.0, moves.0, positive) in
            subst (λ z. LevelInv t Best base i start z × (z.incoming < m.incoming))
              (sym (level_body_full t i slot m.side.is_bid m first r k))
              (
                record {
                  ordered = left.0;
                  frontier = left.1;
                  within =
                      Shrinks-Within t base i m.side
                        (remove_filled t i slot (trade t i slot m)).side crossed left.2 v.within;
                  conserved =
                      omega (arith, keeps.0, ap traded keeps.1, moves.0, moves.1, v.conserved);
                  progress = inl (omega (arith, fewer, left_le start m v));
                },
                fewer,
              )
      ]

  -- The loop ends by its test, with less to match than it began with.
  pub match_level-LevelInv :
      (m : MatchState)
      → LevelInv t Best base i m.incoming m
      → 0 < m.incoming
      → LevelInv t Best base i m.incoming (match_level t i m)
        × ((match_level t i m).incoming < m.incoming)
        × (((match_level t i m).incoming ≡ 0) ⊎ (((match_level t i m).side.levels i).first ≡ none))
  unfolding match_level
  match_level-LevelInv m v pos =
      let r =
        while-stops (level_test i) (level_body t i) (λ s. s.incoming)
          (LevelInv t Best base i m.incoming)
          (λ s go w.
            let (p, f) = level_test-true i s go in
            let next = level_step m.incoming f.0 s w f.1 p in (next.1, next.0))
          (suc m.incoming) m v (omega arith) in
      let stopped = level_test-false i (match_level t i m) r.0 in (r.1, fewer r.1 stopped, stopped)
    where
      fewer :
          {m' : MatchState}
          → LevelInv t Best base i m.incoming m'
          → (m'.incoming ≡ 0) ⊎ ((m'.side.levels i).first ≡ none)
          → m'.incoming < m.incoming
      fewer w stop = elim w.progress [
        | inl h ↦ h
        | inr h ↦ elim stop [ inl z ↦ omega arith | inr z ↦ absurd (h.1 z) ]
      ]
