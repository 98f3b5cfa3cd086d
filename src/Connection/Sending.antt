-- ===== src/Connection/Sending.antt =====
-- `send_message` keeps the order of the messages' bytes.
use financial_exchange.Common.{
  ℕ, suc, ◌-◌, ◌≤◌, ◌<◌, ◌≡◌, refl, sym, ap, ◌∙◌, subst, true, false, List, [], ◌∷◌, ◌++◌, All,
  All-append, arith, length, take, length-append, length-replicate, append_assoc, append-nil,
  Bool-cases, ◌⊎◌, inl, inr, ltb, ltb→le, if_true, if_false, replicate,
}
use financial_exchange.Protocol.MessageType.{
  MessageType, payload_size_for_type, max_payload_size_buffer,
}
use financial_exchange.Spsc.Queue.{SpscQueue, try_push}
use financial_exchange.Spsc.Fifo.{Holds, try_push-Holds}
use financial_exchange.Connection.Frame.{OutboundMessage, outbound_q_cap, payload_array}
use financial_exchange.Connection.State.{Connection, perform, post_drain}
use financial_exchange.Connection.Write.{schedule_drain_writes, outbound_message, send_message}
use financial_exchange.Connection.Deliver.{outbound_q_cap-IsCapacity, IsSendable, encode_all}
use financial_exchange.Connection.Outgoing.{outgoing, posted, posted-snoc}
use financial_exchange.Connection.Drain.{Flow, Stream, encode_all-append}
use financial_exchange.Connection.Run.{unsent, queued}

schedule-outgoing :
    (c : Connection)
    → ((c.write_wakeup_pending ≡ true) × (schedule_drain_writes c ≡ c))
      ⊎ ((c.write_wakeup_pending ≡ false)
          × (outgoing (schedule_drain_writes c)
              ≡ record (outgoing c) { woken = true; drains = suc (posted c.performed) }))
unfolding schedule_drain_writes perform
schedule-outgoing c = elim (Bool-cases (c.write_wakeup_pending)) [
  | inl e ↦ inl (e, if_true c.write_wakeup_pending _ _ e)
  | inr e ↦ inr (
    e,
    ap outgoing (if_false c.write_wakeup_pending _ _ e)
        ∙ ap (λ n. record (outgoing c) { woken = true; drains = n })
            (posted-snoc c.performed post_drain ∙ omega arith),
  )
]

outbound_message-IsSendable :
    (id : ℕ) (t : MessageType) (payload : List ℕ)
    → payload_size_for_type t ≤ max_payload_size_buffer
    → IsSendable (outbound_message id t payload)
unfolding outbound_message payload_array
outbound_message-IsSendable id t payload h =
    let bytes = take (payload_size_for_type t) payload in
    (
      h,
      omega (
        arith,
        h,
        length-append bytes (replicate (max_payload_size_buffer - length bytes) 0),
        length-replicate {A = ℕ} (max_payload_size_buffer - length bytes) 0,
      ),
    )

-- The three ways that a call ends: the type's payload is too large or the queue is full, and nothing is
-- done; or the message is queued and a drain is asked for.
send_message_cases :
    (t : MessageType) (payload : List ℕ) (c : Connection) (xs : List OutboundMessage)
    → Holds outbound_q_cap c.outbound_from_engine xs
    → ((send_message t payload c ≡ c) × (queued t payload c ≡ []))
      ⊎ ((m : OutboundMessage) × (queue : SpscQueue OutboundMessage) × IsSendable m
          × (queued t payload c ≡ m ∷ [])
          × Holds outbound_q_cap queue (xs ++ (m ∷ []))
          × (send_message t payload c
              ≡ schedule_drain_writes (record c { outbound_from_engine = queue })))
unfolding send_message queued
send_message_cases t payload c xs h =
    elim (Bool-cases (ltb max_payload_size_buffer (payload_size_for_type t))) [
      | inl large ↦ inl (if_true _ _ _ large, if_true _ _ _ large)
      | inr small ↦
          let m = outbound_message c.id t payload in
          let pushed = try_push outbound_q_cap m c.outbound_from_engine in
          elim (try_push-Holds outbound_q_cap outbound_q_cap-IsCapacity m c.outbound_from_engine xs
            h) [
              | inl k ↦
                  let full = ap (λ k. k.1) k.1 in
                  inl (
                    if_false _ _ _ small ∙ if_false _ _ _ full,
                    if_false _ _ _ small ∙ if_false _ _ _ full,
                  )
              | inr k ↦ inr (
                m,
                pushed.0,
                outbound_message-IsSendable c.id t payload (ltb→le _ _ small),
                if_false _ _ _ small ∙ if_true _ _ _ k.2,
                k.1,
                if_false _ _ _ small ∙ if_true _ _ _ k.2,
              )
            ]
    ]

-- A message behind those that wait.
queued_bytes :
    (acc xs : List OutboundMessage) (m : OutboundMessage) (written rest : List ℕ)
    → encode_all acc ≡ written ++ (rest ++ encode_all xs)
    → encode_all (acc ++ (m ∷ [])) ≡ written ++ (rest ++ encode_all (xs ++ (m ∷ [])))
queued_bytes acc xs m written rest e =
    let one = encode_all (m ∷ []) in
    encode_all-append acc (m ∷ [])
    ∙ ap (λ k. k ++ one) e
    ∙ append_assoc written (rest ++ encode_all xs) one
    ∙ ap (λ k. written ++ k)
        (append_assoc rest (encode_all xs) one
          ∙ ap (λ k. rest ++ k) (sym (encode_all-append xs (m ∷ []))))

pub send_message-Stream :
    (t : MessageType) (payload : List ℕ) (c : Connection) (run : ℕ) (written : List ℕ)
    (acc : List OutboundMessage)
    → All IsSendable acc
    → Stream (outgoing c) run written acc
    → All IsSendable (acc ++ queued t payload c)
      × Stream (outgoing (send_message t payload c)) run written (acc ++ queued t payload c)
send_message-Stream t payload c run written acc good s =
    elim (send_message_cases t payload c s.0 s.1.0) [
      | inl k ↦
          subst (λ l. All IsSendable l × Stream (outgoing (send_message t payload c)) run written l)
            (sym (ap (λ l. acc ++ l) k.1 ∙ append-nil acc))
            (good, subst (λ d. Stream (outgoing d) run written acc) (sym k.0) s)
      | inr (m, queue, ok, one, holds, call) ↦
          let c' : Connection = record c { outbound_from_engine = queue } in
          subst (λ l. All IsSendable l × Stream (outgoing (send_message t payload c)) run written l)
            (sym (ap (λ l. acc ++ l) one))
            (
              All-append IsSendable acc (m ∷ []) good (ok, tt),
              subst (λ d. Stream (outgoing d) run written (acc ++ (m ∷ []))) (sym call)
                  (scheduled c' (s.0 ++ (m ∷ [])) (acc ++ (m ∷ []))
                    (
                      holds,
                      All-append IsSendable s.0 (m ∷ []) s.1.1 (ok, tt),
                      queued_bytes acc s.0 m written (unsent c) s.1.2,
                      s.1.3,
                      s.1.4,
                      s.1.5,
                      s.1.6,
                    )
                    s.2),
            )
    ]
  where
    scheduled :
        (c' : Connection) (xs acc' : List OutboundMessage)
        → Flow xs (outgoing c') run written acc'
        → (c'.write_wakeup_pending ≡ false) ⊎ (run < posted c'.performed)
        → Stream (outgoing (schedule_drain_writes c')) run written acc'
    scheduled c' xs acc' flow wake = elim (schedule-outgoing c') [
      | inl k ↦
          subst (λ d. Stream (outgoing d) run written acc') (sym k.1)
            (xs, flow, wake, inr (inr k.0))
      | inr k ↦
          subst (λ o. Stream o run written acc') (sym k.1)
            (
              xs,
              (flow.0, flow.1, flow.2, flow.3, flow.4, flow.5, omega (arith, flow.6)),
              inr (omega (arith, flow.6)),
              inr (inr refl),
            )
    ]
