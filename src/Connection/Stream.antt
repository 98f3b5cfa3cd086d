-- ===== src/Connection/Stream.antt =====
-- Every handler keeps the order of the messages' bytes, and no message waits for ever.
use financial_exchange.Common.{
  ℕ, suc, ◌≤◌, ◌<◌, ◌≡◌, refl, sym, ◌∙◌, subst, Bool, true, false, List, [], ◌++◌, All, arith,
  length, ◌⊎◌, inl, inr,
}
use financial_exchange.Spsc.Queue.{SpscQueue}
use financial_exchange.Spsc.Fifo.{Holds}
use financial_exchange.Connection.Frame.{InboundMessage, OutboundMessage, outbound_q_cap}
use financial_exchange.Connection.State.{Connection, new_connection}
use financial_exchange.Connection.Write.{batch_capacity}
use financial_exchange.Connection.Deliver.{IsSendable, encode_all}
use financial_exchange.Connection.Outgoing.{
  outgoing, outgoing-handle_read, outgoing-run_ready, posted,
}
use financial_exchange.Connection.Drain.{Stream, drain_writes-Stream, opposite}
use financial_exchange.Connection.Run.{
  Run, Step, send_step, drain_step, wrote_step, write_failed_step, read_step, ready_step, Reach,
  begun, later, begin, unsent,
}
use financial_exchange.Connection.Sending.{send_message-Stream}
use financial_exchange.Connection.Writing.{wrote-Stream}

-- A run whose writes have not failed.
abbrev pub IsFlowing : Run → Type 0
IsFlowing r =
    All IsSendable r.accepted × Stream (outgoing r.connection) r.drains_run r.written r.accepted

Step-IsFlowing :
    {r s : Run} → Step r s → (r.failed ≡ true) ⊎ IsFlowing r → (s.failed ≡ true) ⊎ IsFlowing s
Step-IsFlowing {r} (send_step t payload) (inr h) =
    inr (send_message-Stream t payload r.connection r.drains_run r.written r.accepted h.0 h.1)
Step-IsFlowing {r} (drain_step more) (inr h) =
    let flow = h.1.1 in
    inr (
      h.0,
      drain_writes-Stream r.connection h.1.0 (suc r.drains_run) r.written r.accepted
          (flow.0, flow.1, flow.2, flow.3, flow.4, flow.5, omega arith),
    )
Step-IsFlowing {r} (wrote_step n busy few) (inr h) =
    inr (h.0, wrote-Stream n r.connection r.drains_run r.written r.accepted busy few h.1)
Step-IsFlowing {r} (write_failed_step busy) h = inl refl
Step-IsFlowing {r} (read_step result) (inr h) = inr (
  h.0,
  subst (λ o. Stream o r.drains_run r.written r.accepted)
      (sym (outgoing-handle_read result r.connection)) h.1,
)
Step-IsFlowing {r} ready_step (inr h) = inr (
  h.0,
  subst (λ o. Stream o r.drains_run r.written r.accepted) (sym (outgoing-run_ready r.connection))
      h.1,
)
Step-IsFlowing {r} (send_step t payload) (inl e) = inl e
Step-IsFlowing {r} (drain_step more) (inl e) = inl e
Step-IsFlowing {r} (wrote_step n busy few) (inl e) = inl e
Step-IsFlowing {r} (read_step result) (inl e) = inl e
Step-IsFlowing {r} ready_step (inl e) = inl e

Reach-IsFlowing :
    {c : Connection} {r : Run} → IsFlowing (begin c) → Reach c r → (r.failed ≡ true) ⊎ IsFlowing r
Reach-IsFlowing start begun = inr start
Reach-IsFlowing start (later r s) = Step-IsFlowing s (Reach-IsFlowing start r)

module _ (id : ℕ) (inbound : SpscQueue InboundMessage) (outbound : SpscQueue OutboundMessage)
    (disconnected inbound_ready large_message : Bool)
    (empty : Holds outbound_q_cap outbound []) where
  new-IsFlowing :
      IsFlowing
        (begin (new_connection id inbound outbound disconnected inbound_ready large_message))
  unfolding new_connection
  new-IsFlowing = (
    tt,
    ([], (empty, tt, refl, omega arith, omega arith, inr refl, omega arith), inl refl, inl refl),
  )

  pub flowing :
      {r : Run}
      → Reach (new_connection id inbound outbound disconnected inbound_ready large_message) r
      → r.failed ≡ false
      → IsFlowing r
  flowing reach ok = elim (Reach-IsFlowing new-IsFlowing reach) [
    | inl e ↦ absurd (opposite (sym ok ∙ e))
    | inr k ↦ k
  ]

  -- In every run of a new connection whose outbound queue is empty, of calls of `send_message` and of
  -- its handlers in any order, and until a write fails: the bytes that the socket took, then those of
  -- the batch that it has not, then the frames of the messages in the queue are the frames of all the
  -- messages accepted, each whole, once and in order. The batch fits its array.
  pub accepted-written :
      {r : Run}
      → Reach (new_connection id inbound outbound disconnected inbound_ready large_message) r
      → r.failed ≡ false
      → (xs : List OutboundMessage) × Holds outbound_q_cap r.connection.outbound_from_engine xs
        × (encode_all r.accepted ≡ r.written ++ (unsent r.connection ++ encode_all xs))
        × (length r.connection.out_batch ≤ batch_capacity)
  accepted-written reach ok = let s = (flowing reach ok).1 in (s.0, s.1.0, s.1.2, s.1.4)

  -- In every such run, until a write fails: where bytes of the batch are not sent, a write is in
  -- progress; where messages wait in the queue, a write is in progress or a task that drains the queue
  -- is posted and has not run.
  pub waiting-drained :
      {r : Run}
      → Reach (new_connection id inbound outbound disconnected inbound_ready large_message) r
      → r.failed ≡ false
      → ((unsent r.connection ≡ []) ⊎ (r.connection.write_in_progress ≡ true))
        × (Holds outbound_q_cap r.connection.outbound_from_engine []
            ⊎ (r.connection.write_in_progress ≡ true)
            ⊎ (r.drains_run < posted r.connection.performed))
  waiting-drained {r} reach ok = let s = (flowing reach ok).1 in (swap s.1.5, wakes s)
    where
      swap : {A B : Type 0} → A ⊎ B → B ⊎ A
      swap (inl a) = inr a
      swap (inr b) = inl b

      wakes :
          Stream (outgoing r.connection) r.drains_run r.written r.accepted
          → Holds outbound_q_cap r.connection.outbound_from_engine []
            ⊎ (r.connection.write_in_progress ≡ true)
            ⊎ (r.drains_run < posted r.connection.performed)
      wakes (xs, flow, wake, inl e) =
          inl (subst (Holds outbound_q_cap r.connection.outbound_from_engine) e flow.0)
      wakes (xs, flow, wake, inr (inl e)) = inr (inl e)
      wakes (xs, flow, inl e, inr (inr f)) = absurd (opposite (sym e ∙ f))
      wakes (xs, flow, inr more, inr (inr f)) = inr (inr more)
