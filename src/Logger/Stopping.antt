-- ===== src/Logger/Stopping.antt =====
-- The writer's last rounds hand everything to the files.
use financial_exchange.Common.{
  ℕ, zero, suc, ◌-◌, ◌*◌, ◌≤◌, ◌<◌, ◌≡◌, refl, sym, ap, ◌∙◌, subst, true, false, List, [], ◌∷◌,
  ◌++◌, arith, length, joined, append-nil, Bool-cases, inl, inr, ltb, ltb→le,
}
use financial_exchange.Spsc.Queue.{size_approx, add64}
use financial_exchange.Spsc.Fifo.{size_approx_lem}
use financial_exchange.Logger.Sink.{FileSink, flush_sink, close_sink}
use financial_exchange.Logger.Log.{
  Logger, queue_cap, backlog_approx, with_sinks, writer_round, writer_stop, writer_batch, destroy,
}
use financial_exchange.Logger.Putting.{content, bytes_of, flush_sink-IsSink}
use financial_exchange.Logger.Logging.{Fewer, writer_round-Fewer}
use financial_exchange.Logger.Pushing.{size_of, queue_cap-IsCapacity}

pub queue_cap-small : (k : ℕ) → queue_cap k ≤ 32_768
unfolding queue_cap
queue_cap-small k = ground arith

below_five : (P : ℕ → Type 0) → P 0 × P 1 × P 2 × P 3 × P 4 → (k : ℕ) → k < 5 → P k
below_five P p zero h = p.0
below_five P p (suc zero) h = p.1
below_five P p (suc (suc zero)) h = p.2
below_five P p (suc (suc (suc zero))) h = p.3
below_five P p (suc (suc (suc (suc zero)))) h = p.4
below_five P p (suc (suc (suc (suc (suc k))))) h = absurd (omega arith)

none_of_sum :
    (a b c d e : ℕ)
    → a ≤ 32_768
    → b ≤ 32_768
    → c ≤ 32_768
    → d ≤ 32_768
    → e ≤ 32_768
    → add64 (add64 (add64 (add64 a b) c) d) e ≤ 0
    → (a ≡ 0) × (b ≡ 0) × (c ≡ 0) × (d ≡ 0) × (e ≡ 0)
unfolding add64
none_of_sum a b c d e ha hb hc hd he h =
    (omega arith, omega arith, omega arith, omega arith, omega arith)

-- Where there is no backlog, the five queues are empty.
backlog-zero :
    (given : ℕ → List ℕ) (bound : ℕ → ℕ) (l : Logger) (ok : Fewer given bound l)
    → backlog_approx l ≤ 0
    → (k : ℕ) → k < 5
    → length (ok k).0 ≡ 0
unfolding backlog_approx
backlog-zero given bound l ok none_left =
    let all =
      none_of_sum (waiting 0) (waiting 1) (waiting 2) (waiting 3) (waiting 4) (few 0) (few 1)
        (few 2) (few 3) (few 4) none_left in
    below_five (λ k. length (ok k).0 ≡ 0)
      (
        sym (same 0) ∙ all.0,
        sym (same 1) ∙ all.1,
        sym (same 2) ∙ all.2,
        sym (same 3) ∙ all.3,
        sym (same 4) ∙ all.4,
      )
  where
    waiting : ℕ → ℕ
    waiting k = size_approx (l.channel k).queue

    same : (k : ℕ) → waiting k ≡ length (ok k).0
    same k =
        size_approx_lem (queue_cap k) (queue_cap-IsCapacity k) (l.channel k).queue (ok k).0
          (ok k).1.0

    few : (k : ℕ) → waiting k ≤ 32_768
    few k = omega (arith, same k, (ok k).1.0.3, queue_cap-small k)

-- All that was given is handed to the files.
abbrev Emptied : (ℕ → List ℕ) → Logger → Type 0
Emptied given l =
    (k : ℕ)
    → k < 5
    → ((l.channel k).sink.opened ≡ true)
      × ((l.channel k).sink.staging ≡ [])
      × (joined (l.channel k).sink.writes ≡ given k)

flushed-Emptied :
    (given : ℕ → List ℕ) (bound : ℕ → ℕ) (l : Logger) (ok : Fewer given bound l)
    → ((k : ℕ) → k < 5 → length (ok k).0 ≡ 0)
    → Emptied given (with_sinks flush_sink l)
unfolding with_sinks
flushed-Emptied given bound l ok empty k few =
    let old = ok k in
    let f = flush_sink-IsSink (size_of k) (l.channel k).sink old.1.2 in
    let after = flush_sink (l.channel k).sink in
    (
      f.0.0,
      f.2,
      sym (append-nil (joined after.writes))
          ∙ ap (λ s. joined after.writes ++ s) (sym f.2)
          ∙ f.1
          ∙ sym (append-nil (content (l.channel k).sink))
          ∙ ap (λ xs. content (l.channel k).sink ++ bytes_of (size_of k) xs)
              (sym (no_items old.0 (empty k few)))
          ∙ sym old.1.3,
    )
  where
    no_items : (xs : List (List ℕ)) → length xs ≡ 0 → xs ≡ []
    no_items [] e = refl
    no_items (x ∷ xs) e = absurd (omega (arith, e))

pub writer_stop-Emptied :
    (rounds : ℕ) (given : ℕ → List ℕ) (bound : ℕ) (l : Logger)
    → bound ≤ rounds * writer_batch
    → Fewer given (λ _. bound) l
    → Emptied given (writer_stop rounds l)
unfolding writer_stop
writer_stop-Emptied zero given bound l enough ok =
    flushed-Emptied given (λ _. bound) l ok (λ k few. omega (arith, (ok k).2))
writer_stop-Emptied (suc rounds) given bound l enough ok =
    elim (Bool-cases (ltb 0 (backlog_approx l))) [
      | inl e ↦ subst (Emptied given) (sym (go_on e)) (
          writer_stop-Emptied rounds given (bound - writer_batch) (writer_round l) (omega arith)
            (writer_round-Fewer given (λ _. bound) l ok))
      | inr e ↦ subst (Emptied given) (sym (stop e)) (
          flushed-Emptied given (λ _. bound) l ok
            (backlog-zero given (λ _. bound) l ok (ltb→le _ _ e)))
    ]
  where
    go_on :
        ltb 0 (backlog_approx l) ≡ true
        → writer_stop (suc rounds) l ≡ writer_stop rounds (writer_round l)
    go_on e = rw (writer_stop, e) refl

    stop : ltb 0 (backlog_approx l) ≡ false → writer_stop (suc rounds) l ≡ with_sinks flush_sink l
    stop e = rw (writer_stop, e) refl

pub destroy-Emptied :
    (rounds : ℕ) (given : ℕ → List ℕ) (l : Logger)
    → Emptied given (writer_stop rounds l)
    → (k : ℕ) → k < 5
    → (joined ((destroy rounds l).channel k).sink.writes ≡ given k)
      × (((destroy rounds l).channel k).sink.opened ≡ false)
unfolding destroy with_sinks flush_sink close_sink
destroy-Emptied rounds given l ok k few = closed ((writer_stop rounds l).channel k).sink (ok k few)
  where
    Closed : FileSink → Type 0
    Closed s =
        (joined (close_sink (flush_sink s)).writes ≡ given k)
        × ((close_sink (flush_sink s)).opened ≡ false)

    closed :
        (s : FileSink)
        → (s.opened ≡ true) × (s.staging ≡ []) × (joined s.writes ≡ given k)
        → (joined (close_sink (flush_sink s)).writes ≡ given k)
          × ((close_sink (flush_sink s)).opened ≡ false)
    closed s (up, e, bytes) =
        subst (λ b. Closed (record s { opened = b })) (sym up)
          (subst (λ t. Closed (record s { opened = true; staging = t })) (sym e) (bytes, refl))
