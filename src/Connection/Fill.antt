-- ===== src/Connection/Fill.antt =====
-- The loop that moves messages of the queue to the batch.
use financial_exchange.Common.{
  ℕ, zero, suc, ◌+◌, ◌-◌, ◌≤◌, ◌<◌, ◌≡◌, refl, sym, ap, ◌∙◌, subst, none, some, List, [], ◌∷◌, ◌++◌,
  All, arith, length, length-append, length-take, append_assoc, append-nil, Bool-cases, ◌⊎◌, inl,
  inr, ltb, ltb→lt, ltb→le, lt→ltb, le→ltb,
}
use financial_exchange.Protocol.MessageType.{max_payload_size_buffer}
use financial_exchange.Spsc.Queue.{peek, consume_one}
use financial_exchange.Spsc.Fifo.{Holds, try_pop-Holds}
use financial_exchange.Connection.Frame.{
  OutboundMessage, outbound_q_cap, wire_header_size, frame, write_u16_be,
}
use financial_exchange.Connection.State.{Connection}
use financial_exchange.Connection.Write.{fill_loop, fill, batch_capacity}
use financial_exchange.Connection.Deliver.{outbound_q_cap-IsCapacity, IsSendable, encode_all}

length-frame :
    (t size : ℕ) (payload : List ℕ)
    → size ≤ length payload
    → length (frame t size payload) ≡ wire_header_size + size
unfolding frame write_u16_be
length-frame t size payload h = omega (arith, length-take size payload h)

-- How the loop leaves a connection: `ys` are the messages moved, `zs` those that still wait.
abbrev pub Filled : List OutboundMessage → Connection → Connection → Type 0
Filled xs c after =
    (ys zs : List OutboundMessage) × (xs ≡ ys ++ zs)
    × Holds outbound_q_cap after.outbound_from_engine zs
    × (after.out_batch ≡ c.out_batch ++ encode_all ys)
    × (length after.out_batch ≤ batch_capacity)
    × ((zs ≡ [])
        ⊎ (batch_capacity - (wire_header_size + max_payload_size_buffer) < length after.out_batch))
    × (after ≡ record c {
      out_batch = after.out_batch;
      outbound_from_engine = after.outbound_from_engine;
    })

-- One round that moves the first message.
unfoldable pub fill_loop-one : (f : ℕ) (m : OutboundMessage) (c : Connection) → Connection
fill_loop-one f m c = fill_loop f (record c {
  out_batch = c.out_batch ++ frame m.message_type m.payload_size m.payload;
  outbound_from_engine = (consume_one c.outbound_from_engine).0;
})

pub fill_loop-none :
    (f : ℕ) (c : Connection) → peek outbound_q_cap c.outbound_from_engine ≡ none → fill_loop f c ≡ c
unfolding fill_loop
fill_loop-none zero c e = refl
fill_loop-none (suc f) c e = rw (fill_loop, e) refl

pub fill_loop-full :
    (f : ℕ) (m : OutboundMessage) (c : Connection)
    → peek outbound_q_cap c.outbound_from_engine ≡ some m
    → batch_capacity < length c.out_batch + (wire_header_size + m.payload_size)
    → fill_loop (suc f) c ≡ c
unfolding fill_loop
fill_loop-full f m c e over = rw (fill_loop, e, lt→ltb batch_capacity _ over) refl

pub fill_loop-some :
    (f : ℕ) (m : OutboundMessage) (c : Connection)
    → peek outbound_q_cap c.outbound_from_engine ≡ some m
    → length c.out_batch + (wire_header_size + m.payload_size) ≤ batch_capacity
    → fill_loop (suc f) c ≡ fill_loop-one f m c
unfolding fill_loop fill_loop-one
fill_loop-some f m c e fits = rw (fill_loop, e, le→ltb batch_capacity _ fits) refl

pub fill_loop-Filled :
    (f : ℕ) (xs : List OutboundMessage) (c : Connection)
    → length xs < f
    → All IsSendable xs
    → Holds outbound_q_cap c.outbound_from_engine xs
    → length c.out_batch ≤ batch_capacity
    → Filled xs c (fill_loop f c)
unfolding fill_loop-one max_payload_size_buffer
fill_loop-Filled zero xs c enough ok h room = absurd (omega arith)
fill_loop-Filled (suc f) xs c enough ok h room =
    elim (try_pop-Holds outbound_q_cap outbound_q_cap-IsCapacity c.outbound_from_engine xs h) [
      | inl k ↦ subst (Filled xs c) (sym (fill_loop-none (suc f) c k.2)) (
        [],
        [],
        k.0,
        subst (Holds outbound_q_cap c.outbound_from_engine) k.0 h,
        sym (append-nil c.out_batch),
        room,
        inl refl,
        refl,
      )
      | inr (m, more, e, popped, _, first, consumed) ↦
          let good = subst (All IsSendable) e ok in
          elim (Bool-cases
            (ltb batch_capacity (length c.out_batch + (wire_header_size + m.payload_size)))) [
              | inl over ↦
                  let full = ltb→lt batch_capacity _ over in
                  subst (Filled xs c) (sym (fill_loop-full f m c first full)) (
                    [],
                    xs,
                    refl,
                    h,
                    sym (append-nil c.out_batch),
                    room,
                    inr (omega (arith, full, good.0.0)),
                    refl,
                  )
              | inr under ↦
                  let fits =
                    ltb→le batch_capacity (length c.out_batch + (wire_header_size + m.payload_size))
                      under in
                  let bytes = frame m.message_type m.payload_size m.payload in
                  let next : Connection = record c {
                    out_batch = c.out_batch ++ bytes;
                    outbound_from_engine = (consume_one c.outbound_from_engine).0;
                  } in
                  let ih =
                    fill_loop-Filled f more next (omega (arith, enough, ap length e)) good.1
                      (subst (λ q. Holds outbound_q_cap q more) (sym (ap (λ k. k.0) consumed))
                        popped)
                      (omega (
                        arith,
                        fits,
                        length-append c.out_batch bytes,
                        length-frame m.message_type m.payload_size m.payload good.0.1,
                      )) in
                  subst (Filled xs c) (sym (fill_loop-some f m c first fits)) (
                    m ∷ ih.0,
                    ih.1,
                    e ∙ ap (λ k. m ∷ k) ih.2,
                    ih.3,
                    ih.4 ∙ append_assoc c.out_batch bytes (encode_all ih.0),
                    ih.5,
                    ih.6,
                    ih.7,
                  )
            ]
    ]

-- The queue's bound is enough rounds.
pub fill-Filled :
    (xs : List OutboundMessage) (c : Connection)
    → All IsSendable xs
    → Holds outbound_q_cap c.outbound_from_engine xs
    → length c.out_batch ≤ batch_capacity
    → Filled xs c (fill c)
unfolding fill
fill-Filled xs c ok h room =
    fill_loop-Filled (suc outbound_q_cap) xs c (omega (arith, h.3)) ok h room
