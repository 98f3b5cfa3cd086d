-- ===== src/Connection/EndToEnd.antt =====
-- Two connections: what one was given to send, and what the other gives to its engine.
use financial_exchange.Common.{
  joined, ℕ, ◌≤◌, ◌≡◌, refl, sym, ap, ◌∙◌, subst, Bool, false, none, List, [], ◌++◌, map, arith,
  length, append-nil,
}
use financial_exchange.Spsc.Queue.{SpscQueue, peek}
use financial_exchange.Spsc.Fifo.{Holds}
use financial_exchange.Connection.Frame.{
  InboundMessage, OutboundMessage, inbound_q_cap, outbound_q_cap, next_frame,
}
use financial_exchange.Connection.State.{Connection, new_connection}
use financial_exchange.Connection.Run.{Run, Reach, unsent}
use financial_exchange.Connection.Chunks.{parse}
use financial_exchange.Connection.Receive.{ReadEvent, receive, reads}
use financial_exchange.Connection.Reads.{receive-queue}
use financial_exchange.Connection.Deliver.{encode_all, received, parse_loop-Delivered}
use financial_exchange.Connection.Stream.{flowing}
use financial_exchange.Connection.Writing.{nothing_waits}

no_frame : next_frame [] ≡ none
unfolding next_frame
no_frame = refl

-- For a run of a new connection with an empty outbound queue, in which no write has failed, no byte of a
-- batch is unsent and no accepted message waits; and for a peer that is not given up, with no bytes
-- accumulated, an empty inbound queue, and room there for the messages: once the peer has read the bytes
-- written, cut into reads in any way and with its notifications run at any times between them, its queue
-- holds the accepted messages, in order.
pub receive-accepted :
    (id : ℕ) (inbound : SpscQueue InboundMessage) (outbound : SpscQueue OutboundMessage)
    (disconnected inbound_ready large_message : Bool)
    → Holds outbound_q_cap outbound []
    → {r : Run}
    → Reach (new_connection id inbound outbound disconnected inbound_ready large_message) r
    → r.failed ≡ false
    → unsent r.connection ≡ []
    → peek outbound_q_cap r.connection.outbound_from_engine ≡ none
    → (peer : Connection) (events : List ReadEvent) → peer.disconnect_notified ≡ false
    → peer.in_accum ≡ []
    → Holds inbound_q_cap peer.inbound_to_engine []
    → length r.accepted ≤ inbound_q_cap
    → joined (reads events) ≡ r.written
    → Holds inbound_q_cap
        (receive events peer).inbound_to_engine
        (map (received peer.id) r.accepted)
receive-accepted id inbound outbound d i l empty {r} reach ok none_unsent waits peer events up fresh
      h room bytes =
    let flow = flowing id inbound outbound d i l empty reach ok in
    let s = flow.1 in
    let none_left = nothing_waits r.connection.outbound_from_engine s.0 s.1.0 waits in
    let all_written : encode_all r.accepted ≡ r.written =
      s.1.2
      ∙ ap (λ k. r.written ++ (k ++ encode_all s.0)) none_unsent
      ∙ ap (λ k. r.written ++ encode_all k) none_left
      ∙ append-nil r.written in
    let wire : encode_all r.accepted ++ [] ≡ peer.in_accum ++ joined (reads events) =
      append-nil (encode_all r.accepted)
      ∙ all_written
      ∙ sym bytes
      ∙ ap (λ k. k ++ joined (reads events)) (sym fresh) in
    subst (λ q. Holds inbound_q_cap q (map (received peer.id) r.accepted))
      (ap (λ b. (parse b peer).0.inbound_to_engine) wire
        ∙ sym (receive-queue events peer up (ap next_frame fresh ∙ no_frame)))
      (parse_loop-Delivered _ r.accepted [] [] peer (omega arith) no_frame flow.0 h
        (omega (arith, room))).1
