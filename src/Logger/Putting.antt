-- ===== src/Logger/Putting.antt =====
-- What a sink has been given: the bytes handed to the file, then those of the staging buffer.
use financial_exchange.Common.{
  ℕ, zero, suc, ◌+◌, ◌-◌, ◌≤◌, ◌<◌, ◌≡◌, refl, sym, ap, ◌∙◌, subst, Bool, true, false, ◌&&◌, none,
  some, List, [], ◌∷◌, ◌++◌, arith, length, take, joined, joined-snoc, append_assoc, append-nil,
  Bool-cases, inl, inr, ltb, leb, le→ltb, leb→lt, if◌then◌else◌, if_true, if_false, ne→==, All,
}
use financial_exchange.Spsc.Queue.{try_pop}
use financial_exchange.Spsc.Fifo.{IsCapacity, Holds, try_pop-Holds}
use financial_exchange.Logger.Sink.{
  FileSink, Channel, staging_bytes, flush_sink, flush_sink_if_nonempty, put_item, drain_loop,
}

abbrev pub content : FileSink → List ℕ
content s = joined s.writes ++ s.staging

-- An open sink with room for an item before its buffer is nearly full.
abbrev pub IsSink : ℕ → FileSink → Type 0
IsSink size s =
    (s.opened ≡ true)
    × (s.payload_size ≡ size)
    × (size ≤ 4_096)
    × (length s.staging < staging_bytes - 4_096)

abbrev Flushed : FileSink → Type 0
Flushed s =
    (content (flush_sink s) ≡ content s)
    × ((flush_sink s).staging ≡ [])
    × ((flush_sink s).opened ≡ s.opened)
    × ((flush_sink s).payload_size ≡ s.payload_size)

flush_sink-Flushed : (s : FileSink) → s.opened ≡ true → Flushed s
unfolding flush_sink
flush_sink-Flushed s up =
    subst (λ b. Flushed (record s { opened = b })) (sym up)
      (opened s.writes s.payload_size s.staging)
  where
    opened :
        (writes : List (List ℕ)) (size : ℕ) (staging : List ℕ)
        → Flushed
            (record { writes = writes; staging = staging; payload_size = size; opened = true })
    opened writes size [] = (refl, refl, refl, refl)
    opened writes size (b ∷ bytes) =
        let full = if_false _ _ _ (ne→== (suc (length bytes)) 0 (omega arith)) in
        subst
          (λ (k : FileSink).
            (content k ≡ joined writes ++ (b ∷ bytes))
            × (k.staging ≡ [])
            × (k.opened ≡ true)
            × (k.payload_size ≡ size))
          (sym full) (append-nil _ ∙ joined-snoc writes (b ∷ bytes), refl, refl, refl)

pub flush_sink-IsSink :
    (size : ℕ) (s : FileSink)
    → IsSink size s
    → IsSink size (flush_sink s)
      × (content (flush_sink s) ≡ content s)
      × ((flush_sink s).staging ≡ [])
flush_sink-IsSink size s ok =
    let f = flush_sink-Flushed s ok.0 in
    ((f.2 ∙ ok.0, f.3 ∙ ok.1, ok.2, omega (arith, ap length f.1)), f.0, f.1)

pub flush_sink_if_nonempty-IsSink :
    (size : ℕ) (s : FileSink)
    → IsSink size s
    → IsSink size (flush_sink_if_nonempty s) × (content (flush_sink_if_nonempty s) ≡ content s)
unfolding flush_sink_if_nonempty
flush_sink_if_nonempty-IsSink size s ok =
    by_flag (ltb 0 (length s.staging) && leb 4_096 (length s.staging))
  where
    by_flag :
        (b : Bool)
        → IsSink size (if b then flush_sink s else s)
          × (content (if b then flush_sink s else s) ≡ content s)
    by_flag true = let f = flush_sink-IsSink size s ok in (f.0, f.1)
    by_flag false = (ok, refl)

abbrev staged : List ℕ → FileSink → FileSink
staged bytes s = record s { staging = s.staging ++ bytes }

abbrev flush_near : FileSink → FileSink
flush_near s = if leb (staging_bytes - 4_096) (length s.staging) then flush_sink s else s

put_item-staged :
    (size : ℕ) (item : List ℕ) (s : FileSink)
    → IsSink size s
    → put_item item s ≡ flush_near (staged (take s.payload_size item) s)
unfolding put_item
put_item-staged size item s ok =
    if_false _ _ _ (le→ltb staging_bytes s.payload_size (omega (arith, ok.1)))
    ∙ ap (λ room. flush_near (staged (take s.payload_size item) room))
        (if_false _ _ _
          (le→ltb staging_bytes (length s.staging + s.payload_size) (omega (arith, ok.1, ok.3))))

-- An item's bytes are put behind the others; there is room for them in the buffer.
pub put_item-IsSink :
    (size : ℕ) (item : List ℕ) (s : FileSink)
    → IsSink size s
    → size ≤ length item
    → IsSink size (put_item item s)
      × (content (put_item item s) ≡ content s ++ take size item)
      × (length s.staging + size ≤ staging_bytes)
put_item-IsSink size item s ok long =
    let next = staged (take s.payload_size item) s in
    let done = near next ok.0 ok.1 in
    let bytes : content next ≡ content s ++ take size item =
      ap (λ n. joined s.writes ++ (s.staging ++ take n item)) ok.1
      ∙ sym (append_assoc (joined s.writes) s.staging (take size item)) in
    let same = put_item-staged size item s ok in
    (subst (IsSink size) (sym same) done.0, ap content same ∙ done.1 ∙ bytes, omega (arith, ok.3))
  where
    near :
        (next : FileSink)
        → next.opened ≡ true
        → next.payload_size ≡ size
        → IsSink size (flush_near next) × (content (flush_near next) ≡ content next)
    near next up sized = elim (Bool-cases (leb (staging_bytes - 4_096) (length next.staging))) [
      | inl over ↦
          let f = flush_sink-Flushed next up in
          subst (λ (k : FileSink). IsSink size k × (content k ≡ content next))
            (sym (if_true _ _ _ over))
            ((f.2 ∙ up, f.3 ∙ sized, ok.2, omega (arith, ap length f.1)), f.0)
      | inr under ↦
          subst (λ (k : FileSink). IsSink size k × (content k ≡ content next))
            (sym (if_false _ _ _ under)) ((up, sized, ok.2, leb→lt _ _ under), refl)
    ]

-- The bytes of the items of a queue.
abbrev pub bytes_of : ℕ → List (List ℕ) → List ℕ
bytes_of size [] = []
bytes_of size (item ∷ items) = take size item ++ bytes_of size items

pub bytes_of-append :
    (size : ℕ) (xs ys : List (List ℕ))
    → bytes_of size (xs ++ ys) ≡ bytes_of size xs ++ bytes_of size ys
bytes_of-append size [] ys = refl
bytes_of-append size (x ∷ xs) ys =
    ap (λ k. take size x ++ k) (bytes_of-append size xs ys)
    ∙ sym (append_assoc (take size x) (bytes_of size xs) (bytes_of size ys))

-- A queue that holds `xs`, whole items, with its sink; `given` are the bytes of all the items that
-- entered the queue.
abbrev pub IsChannel : ℕ → ℕ → List ℕ → List (List ℕ) → Channel → Type 0
IsChannel capacity size given xs c =
    Holds capacity c.queue xs
    × All (λ item. size ≤ length item) xs
    × IsSink size c.sink
    × (given ≡ content c.sink ++ bytes_of size xs)

drain_loop-none :
    (capacity rounds : ℕ) (did : Bool) (c : Channel)
    → (try_pop capacity c.queue).1 ≡ none
    → drain_loop capacity (suc rounds) did c ≡ (c, did)
unfolding drain_loop
drain_loop-none capacity rounds did c e = rw (drain_loop, e) refl

drain_loop-some :
    (capacity rounds : ℕ) (did : Bool) (c : Channel) (item : List ℕ)
    → (try_pop capacity c.queue).1 ≡ some item
    → drain_loop capacity (suc rounds) did c
      ≡ drain_loop capacity rounds true
          (record { queue = (try_pop capacity c.queue).0; sink = put_item item c.sink })
unfolding drain_loop
drain_loop-some capacity rounds did c item e = rw (drain_loop, e) refl

-- How a batch leaves a channel of `before` items.
abbrev pub Drained : ℕ → ℕ → List ℕ → ℕ → ℕ → Channel → Type 0
Drained capacity size given before rounds after =
    (ys : List (List ℕ)) × IsChannel capacity size given ys after × (length ys ≤ before - rounds)

-- A batch takes items from the front, as many as there are rounds or all.
pub drain_loop-Drained :
    (capacity size : ℕ) (given : List ℕ)
    → IsCapacity capacity
    → (rounds : ℕ) (did : Bool) (xs : List (List ℕ)) (c : Channel)
    → IsChannel capacity size given xs c
    → Drained capacity size given (length xs) rounds (drain_loop capacity rounds did c).0
unfolding drain_loop
drain_loop-Drained capacity size given valid zero did xs c ok = (xs, ok, omega arith)
drain_loop-Drained capacity size given valid (suc rounds) did xs c ok =
    elim (try_pop-Holds capacity valid c.queue xs ok.0) [
      | inl k ↦
          subst (λ (p : Channel × Bool). Drained capacity size given (length xs) (suc rounds) p.0)
            (sym (drain_loop-none capacity rounds did c (ap (λ p. p.1) k.1)))
            (xs, ok, omega (arith, ap length k.0))
      | inr (item, more, e, popped, first, _, _) ↦
          let next : Channel = record {
            queue = (try_pop capacity c.queue).0;
            sink = put_item item c.sink;
          } in
          let long = subst (All (λ item. size ≤ length item)) e ok.1 in
          let put = put_item-IsSink size item c.sink ok.2 long.0 in
          let bytes =
            ok.3
            ∙ ap (λ k. content c.sink ++ bytes_of size k) e
            ∙ sym (append_assoc (content c.sink) (take size item) (bytes_of size more))
            ∙ ap (λ k. k ++ bytes_of size more) (sym put.1) in
          let ih =
            drain_loop-Drained capacity size given valid rounds true more next
              (popped, long.1, put.0, bytes) in
          subst (λ (p : Channel × Bool). Drained capacity size given (length xs) (suc rounds) p.0)
            (sym (drain_loop-some capacity rounds did c item first))
            (ih.0, ih.1, omega (arith, ih.2, ap length e))
    ]
