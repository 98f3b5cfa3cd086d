-- ===== src/Connection/Deliver.antt =====
-- From the bytes of a batch to the messages of the other end's queue.
use financial_exchange.Common.{
  ℕ, zero, suc, ◌+◌, ◌^◌, ◌≤◌, ◌<◌, ◌≡◌, refl, sym, ap, ◌∙◌, subst, Bool, true, false, Option, none,
  some, List, [], ◌∷◌, ◌++◌, map, All, arith, length, take, length-append, inl, inr, append_assoc,
  append-nil,
}
use financial_exchange.Protocol.MessageType.{max_payload_size, max_payload_size_buffer}
use financial_exchange.Spsc.Fifo.{IsCapacity, Holds, try_push-Holds}
use financial_exchange.Connection.Frame.{
  InboundMessage, OutboundMessage, inbound_q_cap, outbound_q_cap, frame, next_frame,
}
use financial_exchange.Connection.State.{Connection, notify_inbound_ready, perform}
use financial_exchange.Connection.Read.{
  handle_frame, inbound_message, parse_loop, parse_accumulator,
}
use financial_exchange.Connection.Framing.{next_frame-frame, next_frame-append}
use financial_exchange.Connection.Handling.{handle_frame_cases}
use financial_exchange.Connection.Chunks.{parse, go_on, parse_loop-none, parse_loop-some}
use financial_exchange.Connection.Ending.{notify_inbound-told}
use financial_exchange.Connection.Receive.{finish, parse_accumulator-finish}

pub inbound_q_cap-IsCapacity : IsCapacity inbound_q_cap
inbound_q_cap-IsCapacity = (omega arith, omega arith, refl)

pub outbound_q_cap-IsCapacity : IsCapacity outbound_q_cap
outbound_q_cap-IsCapacity = (omega arith, omega arith, refl)

-- What `send_message` puts into the queue: a payload that fits the messages, and is there whole.
abbrev pub IsSendable : OutboundMessage → Type 0
IsSendable m = (m.payload_size ≤ max_payload_size_buffer) × (m.payload_size ≤ length m.payload)

-- The bytes that a message is on the wire, and those of a sequence of messages.
abbrev pub encode : OutboundMessage → List ℕ
encode m = frame m.message_type m.payload_size m.payload

abbrev pub encode_all : List OutboundMessage → List ℕ
encode_all [] = []
encode_all (m ∷ ms) = encode m ++ encode_all ms

-- The message that the other end's engine is given.
abbrev pub received : ℕ → OutboundMessage → InboundMessage
received id m = inbound_message id m.message_type m.payload_size (take m.payload_size m.payload)

notify_inbound-queue :
    (c : Connection)
    → ((notify_inbound_ready c).inbound_to_engine ≡ c.inbound_to_engine)
      × ((notify_inbound_ready c).id ≡ c.id)
unfolding notify_inbound_ready perform
notify_inbound-queue c = (ground arith, ground arith)

-- One message is queued where there is room.
buffer_small : max_payload_size_buffer < 2 ^ 16
unfolding max_payload_size_buffer
buffer_small = omega arith

handle_frame-received :
    (m : OutboundMessage) (c : Connection) (xs : List InboundMessage)
    → IsSendable m
    → Holds inbound_q_cap c.inbound_to_engine xs
    → length xs < inbound_q_cap
    → let handled = handle_frame m.message_type m.payload_size (take m.payload_size m.payload) c in
      (handled.1 ≡ true)
      × Holds inbound_q_cap handled.0.inbound_to_engine (xs ++ (received c.id m ∷ []))
      × (handled.0.id ≡ c.id)
      × (handled.0.disconnect_notified ≡ c.disconnect_notified)
unfolding max_payload_size max_payload_size_buffer
handle_frame-received m c xs ok h room =
    let pushed =
      try_push-Holds inbound_q_cap inbound_q_cap-IsCapacity (received c.id m) c.inbound_to_engine xs
        h in
    elim (handle_frame_cases m.message_type m.payload_size (take m.payload_size m.payload) c) [
      | inl k ↦ absurd (omega (arith, k.0, ok.0))
      | inr (inl k) ↦ elim pushed [
        | inl p ↦ absurd (omega (arith, p.0))
        | inr p ↦
            let queue = notify_inbound-queue _ in
            rw (k.3) (
              refl,
              subst (λ q. Holds inbound_q_cap q (xs ++ (received c.id m ∷ []))) (sym queue.0) p.1,
              queue.1,
              notify_inbound-told _,
            )
      ]
      | inr (inr (inl k)) ↦ elim pushed [
        | inl p ↦ absurd (omega (arith, p.0))
        | inr p ↦ absurd (opposite (sym k.2 ∙ p.2))
      ]
      | inr (inr (inr k)) ↦ absurd (omega (arith, k.1, ok.0))
    ]
  where
    opposite : false ≡ true → ⊥
    opposite e = ground arith

-- How the loop has gone on frames that were there whole.
abbrev pub Delivered :
    List ℕ → List InboundMessage → Connection → Connection × Option (List ℕ) → Type 0
Delivered partial xs c parsed =
    (parsed.1 ≡ some partial)
    × Holds inbound_q_cap parsed.0.inbound_to_engine xs
    × (parsed.0.id ≡ c.id)
    × (parsed.0.disconnect_notified ≡ c.disconnect_notified)

pub parse_loop-Delivered :
    (f : ℕ) (ms : List OutboundMessage) (partial : List ℕ) (xs : List InboundMessage)
    (c : Connection)
    → length (encode_all ms ++ partial) < f
    → next_frame partial ≡ none
    → All IsSendable ms
    → Holds inbound_q_cap c.inbound_to_engine xs
    → length xs + length ms ≤ inbound_q_cap
    → Delivered partial (xs ++ map (received c.id) ms) c (parse_loop f (encode_all ms ++ partial) c)
parse_loop-Delivered zero ms partial xs c enough e ok h room = absurd (omega arith)
parse_loop-Delivered (suc f) [] partial xs c enough e ok h room =
    subst (Delivered partial (xs ++ []) c) (sym (parse_loop-none (suc f) partial c e))
      (refl, subst (Holds inbound_q_cap c.inbound_to_engine) (sym (append-nil xs)) h, refl, refl)
parse_loop-Delivered (suc f) (m ∷ ms) partial xs c enough e ok h room =
    let rest = encode_all ms ++ partial in
    let payload = take m.payload_size m.payload in
    let whole =
      ap next_frame (append_assoc (encode m) (encode_all ms) partial)
      ∙ next_frame-frame m.message_type m.payload_size m.payload rest (small m.payload_size ok.0.0)
          ok.0.1 in
    let less = (next_frame-append _ [] m.message_type m.payload_size payload rest whole).1 in
    let handled = handle_frame m.message_type m.payload_size payload c in
    let one = handle_frame-received m c xs ok.0 h (omega arith) in
    let ys = xs ++ (received c.id m ∷ []) in
    let ih =
      parse_loop-Delivered f ms partial ys handled.0 (omega arith) e ok.1 one.1
        (omega (arith, length-append xs (received c.id m ∷ []))) in
    subst (Delivered partial (xs ++ map (received c.id) (m ∷ ms)) c)
      (sym (
        parse_loop-some f ((encode m ++ encode_all ms) ++ partial) c m.message_type m.payload_size
          payload rest whole))
      (follow handled rest one.0 (
        ih.0,
        subst (Holds inbound_q_cap (parse_loop f rest handled.0).0.inbound_to_engine)
            (ap (λ i. ys ++ map (received i) ms) one.2
              ∙ append_assoc xs (received c.id m ∷ []) (map (received c.id) ms))
            ih.1,
        ih.2 ∙ one.2,
        ih.3 ∙ one.3,
      ))
  where
    small : (n : ℕ) → n ≤ max_payload_size_buffer → n < 2 ^ 16
    small n k = omega (arith, k, buffer_small)

    follow :
        (handled : Connection × Bool) (rest : List ℕ)
        → handled.1 ≡ true
        → Delivered partial (xs ++ map (received c.id) (m ∷ ms)) c (parse_loop f rest handled.0)
        → Delivered partial (xs ++ map (received c.id) (m ∷ ms)) c (go_on f rest handled)
    follow handled rest k d = rw k d

-- For messages that can be sent, a partial frame, and an inbound queue with room for them all: where
-- the accumulator has the messages' bytes and then the partial frame, parsing puts the messages behind
-- those of the queue, in order, with their types, sizes and payloads, keeps the partial frame, and does
-- not give the connection up.
pub parse_accumulator-encode :
    (ms : List OutboundMessage) (partial : List ℕ) (xs : List InboundMessage) (c : Connection)
    → c.in_accum ≡ encode_all ms ++ partial
    → next_frame partial ≡ none
    → All IsSendable ms
    → Holds inbound_q_cap c.inbound_to_engine xs
    → length xs + length ms ≤ inbound_q_cap
    → let parsed = parse_accumulator c in
      Holds inbound_q_cap parsed.inbound_to_engine (xs ++ map (received c.id) ms)
      × (parsed.in_accum ≡ partial)
      × (parsed.disconnect_notified ≡ c.disconnect_notified)
parse_accumulator-encode ms partial xs c bytes e ok h room =
    let parsed = parse c.in_accum c in
    let loop =
      subst (λ b. Delivered partial (xs ++ map (received c.id) ms) c (parse b c)) (sym bytes)
        (parse_loop-Delivered _ ms partial xs c (omega arith) e ok h room) in
    subst
      (λ k.
        Holds inbound_q_cap k.inbound_to_engine (xs ++ map (received c.id) ms)
        × (k.in_accum ≡ partial)
        × (k.disconnect_notified ≡ c.disconnect_notified))
      (sym (parse_accumulator-finish c ∙ finished parsed loop.0)) (loop.1, refl, loop.3)
  where
    finished :
        (parsed : Connection × Option (List ℕ))
        → parsed.1 ≡ some partial
        → finish parsed ≡ (record parsed.0 { in_accum = partial })
    finished parsed k = rw k refl
