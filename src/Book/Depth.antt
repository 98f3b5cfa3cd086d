-- ===== src/Book/Depth.antt =====
-- `build_snapshot` against the list of all levels of a side that have volume, best first.
use financial_exchange.Common.{
  le→ltb, lt→ltb, ℕ, zero, suc, ◌+◌, ◌-◌, ◌≤◌, ◌<◌, ◌≡◌, refl, sym, ap, ◌∙◌, true, false, List, [],
  ◌∷◌, arith, ltb, ◌==◌, take, dec_lt, Bool-cases, inl, inr, ne→==,
}
use financial_exchange.Types.{num_book_levels, order_book_message_depth}
use financial_exchange.Book.Side.{PriceLevel}
use financial_exchange.Book.Api.{OrderBook}
use financial_exchange.Book.Snapshot.{entries_down, entries_up, bid_entries, ask_entries}
use financial_exchange.Book.MatchLoop.{BestAsk, BestBid}

-- The price and the volume of every level below `n` that has volume, from the top.
abbrev pub occupied_down : (ℕ → PriceLevel) → ℕ → List (ℕ × ℕ)
occupied_down levels zero = []
occupied_down levels (suc i) = elim (ltb 0 (levels i).total_quantity) [
  | true ↦ ((levels i).price, (levels i).total_quantity) ∷ occupied_down levels i
  | false ↦ occupied_down levels i
]

-- The same for the `count` levels from `i` on, from the bottom.
abbrev pub occupied_up : (ℕ → PriceLevel) → ℕ → ℕ → List (ℕ × ℕ)
occupied_up levels zero i = []
occupied_up levels (suc count) i = elim (ltb 0 (levels i).total_quantity) [
  | true ↦ ((levels i).price, (levels i).total_quantity) ∷ occupied_up levels count (i + 1)
  | false ↦ occupied_up levels count (i + 1)
]

take_none : (room : ℕ) → take {A = ℕ × ℕ} room [] ≡ []
take_none zero = refl
take_none (suc room) = refl

room_left : (r : ℕ) → (suc r == 0) ≡ false
room_left r = ne→== (suc r) 0 (λ e. omega arith)

one_less : (r : ℕ) → suc r - 1 ≡ r
one_less r = omega arith

no_volume :
    (levels : ℕ → PriceLevel) (i : ℕ)
    → (levels i).total_quantity ≡ 0
    → ltb 0 (levels i).total_quantity ≡ false
no_volume levels i e = rw e refl

entries_down-take :
    (levels : ℕ → PriceLevel) (room n : ℕ)
    → entries_down levels room n ≡ take room (occupied_down levels n)
unfolding entries_down
entries_down-take levels room zero = sym (take_none room)
entries_down-take levels zero (suc i) = refl
entries_down-take levels (suc r) (suc i) = elim (Bool-cases (ltb 0 (levels i).total_quantity)) [
  | inl e ↦
      rw (room_left r, e, entries_down, occupied_down, take)
        (ap (λ t. ((levels i).price, (levels i).total_quantity) ∷ t)
          (ap (λ k. entries_down levels k i) (one_less r) ∙ entries_down-take levels r i))
  | inr e ↦ rw (room_left r, e, entries_down, occupied_down) (entries_down-take levels (suc r) i)
]

entries_up-take :
    (levels : ℕ → PriceLevel) (room rounds i : ℕ)
    → entries_up levels room rounds i ≡ take room (occupied_up levels rounds i)
unfolding entries_up
entries_up-take levels room zero i = sym (take_none room)
entries_up-take levels zero (suc n) i = refl
entries_up-take levels (suc r) (suc n) i = elim (Bool-cases (ltb 0 (levels i).total_quantity)) [
  | inl e ↦
      rw (room_left r, e, entries_up, occupied_up, take)
        (ap (λ t. ((levels i).price, (levels i).total_quantity) ∷ t)
          (ap (λ k. entries_up levels k n (i + 1)) (one_less r)
            ∙ entries_up-take levels r n (i + 1)))
  | inr e ↦ rw (room_left r, e, entries_up, occupied_up) (entries_up-take levels (suc r) n (i + 1))
]

-- Empty levels at the top add nothing.
occupied_down_skip :
    (levels : ℕ → PriceLevel) (n m : ℕ)
    → n ≤ m
    → ((j : ℕ) → n ≤ j → j < m → (levels j).total_quantity ≡ 0)
    → occupied_down levels m ≡ occupied_down levels n
occupied_down_skip levels n zero le h = let e : 0 ≡ n = omega arith in ap (occupied_down levels) e
occupied_down_skip levels n (suc m) le h = elim (dec_lt n (suc m)) [
  | yes l ↦
      rw (no_volume levels m (h m (omega arith) (omega arith)), occupied_down)
        (occupied_down_skip levels n m (omega arith) (λ j a b. h j a (omega arith)))
  | no l ↦ let e : suc m ≡ n = omega arith in ap (occupied_down levels) e
]

-- Empty levels at the bottom add nothing.
occupied_up_skip :
    (levels : ℕ → PriceLevel) (d count i : ℕ)
    → ((j : ℕ) → i ≤ j → j < i + d → (levels j).total_quantity ≡ 0)
    → occupied_up levels (d + count) i ≡ occupied_up levels count (i + d)
occupied_up_skip levels zero count i h =
    let a : 0 + count ≡ count = omega arith in
    let b : i ≡ i + 0 = omega arith in
    ap (λ k. occupied_up levels k i) a ∙ ap (occupied_up levels count) b
occupied_up_skip levels (suc d) count i h =
    let a : suc d + count ≡ suc (d + count) = omega arith in
    let b : (i + 1) + d ≡ i + suc d = omega arith in
    ap (λ k. occupied_up levels k i) a
    ∙ first (no_volume levels i (h i (omega arith) (omega arith)))
    ∙ occupied_up_skip levels d count (i + 1) (λ j p q. h j (omega arith) (omega arith))
    ∙ ap (occupied_up levels count) b
  where
    first :
        ltb 0 (levels i).total_quantity ≡ false
        → occupied_up levels (suc (d + count)) i ≡ occupied_up levels (d + count) (i + 1)
    first e = rw (e, occupied_up) refl

-- Where the best indices are right, the snapshot lists the ten best bids and the ten best asks: the
-- first ten, or all, of the levels with volume, with their prices and volumes.
pub bid_entries-occupied_down :
    (b : OrderBook)
    → BestBid b.bids.levels b.bids.best_price_index
    → BestAsk b.asks.levels b.asks.best_price_index
    → (bid_entries b ≡ take order_book_message_depth (occupied_down b.bids.levels num_book_levels))
      × (ask_entries b
          ≡ take order_book_message_depth (occupied_up b.asks.levels num_book_levels 0))
unfolding bid_entries ask_entries
bid_entries-occupied_down b bid ask =
    let best = b.bids.best_price_index in
    let low = b.asks.best_price_index in
    let N = num_book_levels in
    (
      elim bid [
        | inl h ↦ rw (le→ltb best N (omega arith)) (
            ap (take order_book_message_depth)
              (sym (occupied_down_skip b.bids.levels 0 N (omega arith) (λ j p q. h.1 j q))))
        | inr h ↦ rw (lt→ltb best N h.0) (
            entries_down-take b.bids.levels order_book_message_depth (best + 1)
            ∙ ap (take order_book_message_depth) (
                sym (
                  occupied_down_skip b.bids.levels (best + 1) N (omega arith)
                    (λ j p q. h.2 j (omega arith) q))))
      ],
      entries_up-take b.asks.levels order_book_message_depth (N - low) low
          ∙ ap (take order_book_message_depth) (up b.asks.levels low ask),
    )
  where
    up :
        (levels : ℕ → PriceLevel) (low : ℕ)
        → BestAsk levels low
        → occupied_up levels (num_book_levels - low) low ≡ occupied_up levels num_book_levels 0
    up levels low best =
        let a : low + (num_book_levels - low) ≡ num_book_levels = elim best [
          | inl h ↦ omega arith
          | inr h ↦ omega (arith, h.1)
        ] in
        let c : low ≡ 0 + low = omega arith in
        ap (occupied_up levels (num_book_levels - low)) c
        ∙ sym (
            occupied_up_skip levels low (num_book_levels - low) 0 (λ j p q. elim best [
              | inl h ↦ h.1 j p (omega arith)
              | inr h ↦ h.3 j p (omega arith)
            ]))
        ∙ ap (λ k. occupied_up levels k 0) a
