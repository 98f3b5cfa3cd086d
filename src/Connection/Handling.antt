-- ===== src/Connection/Handling.antt =====
-- What is done with one whole frame.
use financial_exchange.Common.{
  ℕ, ◌≤◌, ◌<◌, ◌≡◌, refl, ◌⊎◌, inl, inr, Bool, true, false, List, leb→le, leb→lt, ltb→lt, ltb→le,
  Bool-cases, ltb, leb, if◌then◌else◌,
}
use financial_exchange.Protocol.MessageType.{max_payload_size, max_payload_size_buffer}
use financial_exchange.Spsc.Queue.{try_push}
use financial_exchange.Connection.Frame.{inbound_q_cap}
use financial_exchange.Connection.State.{
  Connection, perform, call_large_message, notify_disconnect_once, notify_inbound_ready,
}
use financial_exchange.Connection.Read.{handle_frame, inbound_message}

choose :
    (b : Bool) (x y : Connection)
    → ◌≡◌ {A = Connection × Bool} (if b then (x, true) else (y, true)) (if b then x else y, true)
choose true x y = refl
choose false x y = refl

-- A payload above the limit ends the connection; one that fits the queue's messages is queued, or ends
-- the connection where the queue is full; one between goes to the callback for large messages.
pub handle_frame_cases :
    (t size : ℕ) (payload : List ℕ) (c : Connection)
    → let pushed =
        try_push inbound_q_cap (inbound_message c.id t size payload) c.inbound_to_engine in
      ((max_payload_size < size)
        × (handle_frame t size payload c ≡ (notify_disconnect_once c, false)))
      ⊎ ((size ≤ max_payload_size)
          × (size ≤ max_payload_size_buffer)
          × (pushed.1 ≡ true)
          × (handle_frame t size payload c
              ≡ (notify_inbound_ready (record c { inbound_to_engine = pushed.0 }), true)))
      ⊎ ((size ≤ max_payload_size)
          × (size ≤ max_payload_size_buffer)
          × (pushed.1 ≡ false)
          × (handle_frame t size payload c ≡ (notify_disconnect_once c, false)))
      ⊎ ((size ≤ max_payload_size)
          × (max_payload_size_buffer < size)
          × (handle_frame t size payload c ≡ (
            (if c.has_large_message then perform (call_large_message t payload) c else c),
            true,
          )))
unfolding handle_frame
handle_frame_cases t size payload c = elim (Bool-cases (ltb max_payload_size size)) [
  | inl e ↦ inl (ltb→lt _ _ e, rw e refl)
  | inr e ↦ elim (Bool-cases (leb size max_payload_size_buffer)) [
    | inl f ↦
        let pushed =
          try_push inbound_q_cap (inbound_message c.id t size payload) c.inbound_to_engine in
        elim (Bool-cases (pushed.1)) [
          | inl g ↦ inr (inl (ltb→le _ _ e, leb→le _ _ f, g, rw (e, f, g) refl))
          | inr g ↦ inr (inr (inl (ltb→le _ _ e, leb→le _ _ f, g, rw (e, f, g) refl)))
        ]
    | inr f ↦
        inr (inr (inr (ltb→le _ _ e, leb→lt _ _ f, rw (e, f) (choose c.has_large_message _ _))))
  ]
]
