-- ===== src/Logger/Logging.antt =====
-- Runs of the logger: messages are logged and the writer's rounds are made, in any order.
use financial_exchange.Common.{
  ℕ, ◌-◌, ◌≤◌, ◌≡◌, refl, sym, ap, ◌∙◌, subst, Bool, true, false, Option, none, some, List, [],
  ◌++◌, arith, length, if◌then◌else◌, update, update_self, update_ne, ℕ_discrete,
}
use financial_exchange.Protocol.MessageType.{MessageType, payload_size_for_type}
use financial_exchange.Logger.Sink.{
  FileSink, Channel, push_payload, drain_queue, flush_sink_if_nonempty,
}
use financial_exchange.Logger.Log.{
  Logger, sink_of, queue_cap, writer_batch, log_message, drain_all, with_sinks, writer_round,
}
use financial_exchange.Logger.Putting.{
  content, bytes_of, IsChannel, IsSink, flush_sink_if_nonempty-IsSink, drain_loop-Drained,
}
use financial_exchange.Logger.Pushing.{
  size_of, queue_cap-IsCapacity, type_of-sink_of, entered, push_payload-IsChannel,
}

-- The logger with, for each channel, the bytes of the messages that entered its queue.
pub record LogRun : Type 0 where
  pub logger : Logger
  pub given : ℕ → List ℕ

abbrev pub logged : MessageType → List ℕ → LogRun → LogRun
logged t payload r = record {
  logger = log_message t payload r.logger;
  given = elim (sink_of t) [
    | none ↦ r.given
    | some k ↦ update r.given k (r.given k ++ entered (queue_cap k) payload (r.logger.channel k))
  ];
}

pub data LogStep (r : LogRun) : LogRun → Type 0 where
  log_step :
      (t : MessageType) (payload : List ℕ)
      → payload_size_for_type t ≤ length payload
      → LogStep r (logged t payload r)
  round_step : LogStep r (record r { logger = writer_round r.logger })

pub data LogReach (l : Logger) : LogRun → Type 0 where
  opened : LogReach l (record { logger = l; given = λ _. [] })
  next : {r s : LogRun} → LogReach l r → LogStep r s → LogReach l s

abbrev pub Good : ℕ → List ℕ → Channel → Type 0
Good k given c = (xs : List (List ℕ)) × IsChannel (queue_cap k) (size_of k) given xs c

-- All channels are as they should be.
abbrev pub IsLogger : (ℕ → List ℕ) → Logger → Type 0
IsLogger given l = (k : ℕ) → Good k (given k) (l.channel k)

-- As `IsLogger`, with a bound on the number of items that wait in each channel.
abbrev pub Fewer : (ℕ → List ℕ) → (ℕ → ℕ) → Logger → Type 0
Fewer given bound l =
    (k : ℕ)
    → (xs : List (List ℕ)) × IsChannel (queue_cap k) (size_of k) (given k) xs (l.channel k)
      × (length xs ≤ bound k)

drain_all-Fewer :
    (given : ℕ → List ℕ) (bound : ℕ → ℕ) (l : Logger)
    → Fewer given bound l
    → Fewer given (λ k. bound k - writer_batch) (drain_all l).0
unfolding drain_all drain_queue
drain_all-Fewer given bound l ok k =
    let old = ok k in
    let d =
      drain_loop-Drained (queue_cap k) (size_of k) (given k) (queue_cap-IsCapacity k) writer_batch
        false old.0 (l.channel k) old.1 in
    (d.0, d.1, omega (arith, d.2, old.2))

with_sinks-Fewer :
    (f : FileSink → FileSink) (given : ℕ → List ℕ) (bound : ℕ → ℕ) (l : Logger)
    → ((size : ℕ) (s : FileSink) → IsSink size s → IsSink size (f s) × (content (f s) ≡ content s))
    → Fewer given bound l
    → Fewer given bound (with_sinks f l)
unfolding with_sinks
with_sinks-Fewer f given bound l keep ok k =
    let old = ok k in
    let new = keep (size_of k) (l.channel k).sink old.1.2 in
    (
      old.0,
      (old.1.0, old.1.1, new.0, old.1.3 ∙ ap (λ b. b ++ bytes_of (size_of k) old.0) (sym new.1)),
      old.2,
    )

-- A round of the writer takes a batch from every queue.
pub writer_round-Fewer :
    (given : ℕ → List ℕ) (bound : ℕ → ℕ) (l : Logger)
    → Fewer given bound l
    → Fewer given (λ k. bound k - writer_batch) (writer_round l)
unfolding writer_round
writer_round-Fewer given bound l ok = by_flag (drain_all l).1
  where
    after : Fewer given (λ k. bound k - writer_batch) (drain_all l).0
    after = drain_all-Fewer given bound l ok

    by_flag :
        (b : Bool)
        → Fewer given
            (λ k. bound k - writer_batch)
            (if b then (drain_all l).0 else with_sinks flush_sink_if_nonempty (drain_all l).0)
    by_flag true = after
    by_flag false =
        with_sinks-Fewer flush_sink_if_nonempty given (λ k. bound k - writer_batch) (drain_all l).0
          flush_sink_if_nonempty-IsSink after

pub log_message-IsLogger :
    (t : MessageType) (payload : List ℕ) (r : LogRun)
    → payload_size_for_type t ≤ length payload
    → IsLogger r.given r.logger
    → IsLogger (logged t payload r).given (logged t payload r).logger
unfolding log_message
log_message-IsLogger t payload r long ok = by_sink (sink_of t) (λ k e.
    subst (λ u. payload_size_for_type u ≤ length payload) (sym (type_of-sink_of t k e)) long)
  where
    by_sink :
        (o : Option ℕ)
        → ((k : ℕ) → o ≡ some k → size_of k ≤ length payload)
        → IsLogger
            (elim o [
              | none ↦ r.given
              | some k ↦
                  update r.given k (r.given k ++ entered (queue_cap k) payload (r.logger.channel k))
            ])
            (elim o [
              | none ↦ r.logger
              | some k ↦ record r.logger {
                channel =
                    update r.logger.channel k
                      (push_payload (queue_cap k) payload (r.logger.channel k));
              }
            ])
    by_sink none long = ok
    by_sink (some k) long = λ j. elim (ℕ_discrete j k) [
      | yes e ↦
          let c = r.logger.channel k in
          let given = r.given k ++ entered (queue_cap k) payload c in
          let pushed = push_payload (queue_cap k) payload c in
          let old = ok k in
          let new =
            push_payload-IsChannel (queue_cap k) (size_of k) (r.given k) old.0 c payload
              (queue_cap-IsCapacity k) (long k refl) old.1 in
          subst (λ i. Good i (update r.given k given i) (update r.logger.channel k pushed i))
            (sym e)
            (subst (λ g. Good k g (update r.logger.channel k pushed k))
              (sym (update_self r.given k given))
              (subst (λ d. Good k given d) (sym (update_self r.logger.channel k pushed)) new))
      | no n ↦
          let c = r.logger.channel k in
          let given = r.given k ++ entered (queue_cap k) payload c in
          let pushed = push_payload (queue_cap k) payload c in
          subst (λ g. Good j g (update r.logger.channel k pushed j))
            (sym (update_ne r.given k j given n))
            (subst (λ d. Good j (r.given j) d) (sym (update_ne r.logger.channel k j pushed n))
              (ok j))
    ]

pub LogReach-IsLogger :
    {l : Logger} {r : LogRun} → IsLogger (λ _. []) l → LogReach l r → IsLogger r.given r.logger
LogReach-IsLogger start opened = start
LogReach-IsLogger start (next {r = r} before (log_step t payload long)) =
    log_message-IsLogger t payload r long (LogReach-IsLogger start before)
LogReach-IsLogger start (next {r = r} before round_step) =
    let old = LogReach-IsLogger start before in
    λ k.
      let new =
        writer_round-Fewer r.given (λ j. length (old j).0) r.logger
          (λ j. ((old j).0, (old j).1, omega arith)) k in
      (new.0, new.1)
