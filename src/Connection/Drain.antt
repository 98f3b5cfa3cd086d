-- ===== src/Connection/Drain.antt =====
-- What is true of the bytes and messages between two handlers, and that `drain_writes` keeps it.
use financial_exchange.Common.{
  ℕ, suc, ◌+◌, ◌-◌, ◌≤◌, ◌<◌, ◌≡◌, refl, sym, ap, ◌∙◌, subst, Bool, true, false, not, List, [], ◌∷◌,
  ◌++◌, All, arith, length, drop, append_assoc, Bool-cases, ◌⊎◌, inl, inr, ◌==◌, if◌then◌else◌,
  if_true, if_false, ne→==, split_All,
}
use financial_exchange.Protocol.MessageType.{max_payload_size_buffer}
use financial_exchange.Spsc.Queue.{SpscQueue}
use financial_exchange.Spsc.Fifo.{Holds}
use financial_exchange.Connection.Frame.{OutboundMessage, outbound_q_cap, wire_header_size}
use financial_exchange.Connection.State.{Connection, start_write}
use financial_exchange.Connection.Write.{fill, write_batch, drain_writes, batch_capacity}
use financial_exchange.Connection.Deliver.{IsSendable, encode, encode_all}
use financial_exchange.Connection.Outgoing.{Outgoing, outgoing, outgoing-perform, posted}
use financial_exchange.Connection.Fill.{fill-Filled}

pub encode_all-append :
    (xs ys : List OutboundMessage) → encode_all (xs ++ ys) ≡ encode_all xs ++ encode_all ys
encode_all-append [] ys = refl
encode_all-append (x ∷ xs) ys =
    ap (λ k. encode x ++ k) (encode_all-append xs ys)
    ∙ sym (append_assoc (encode x) (encode_all xs) (encode_all ys))

-- The queue holds `xs`. The bytes of the messages accepted are those written, those of the batch that
-- are not, and those of `xs`. A batch fits its array, and is sent whole unless a write is in progress.
-- Of the drains posted, `run` were run.
abbrev pub Flow : List OutboundMessage → Outgoing → ℕ → List ℕ → List OutboundMessage → Type 0
Flow xs o run written accepted =
    Holds outbound_q_cap o.queue xs
    × All IsSendable xs
    × (encode_all accepted ≡ written ++ (drop o.sent o.batch ++ encode_all xs))
    × (o.sent ≤ length o.batch)
    × (length o.batch ≤ batch_capacity)
    × ((o.writing ≡ true) ⊎ (drop o.sent o.batch ≡ []))
    × (run ≤ o.drains)

-- A drain is yet to be run where one is asked for, and messages wait for a write in progress or a drain.
abbrev pub Stream : Outgoing → ℕ → List ℕ → List OutboundMessage → Type 0
Stream o run written accepted =
    (xs : List OutboundMessage) × Flow xs o run written accepted
    × ((o.woken ≡ false) ⊎ (run < o.drains))
    × ((xs ≡ []) ⊎ (o.writing ≡ true) ⊎ (o.woken ≡ true))

pub write_batch-outgoing :
    (c : Connection) → outgoing (write_batch c) ≡ record (outgoing c) { writing = true }
unfolding write_batch
write_batch-outgoing c =
    outgoing-perform (start_write (drop c.out_batch_sent c.out_batch))
      (record c { write_in_progress = true }) refl

abbrev emptied : Connection → Connection
emptied c = record c { write_wakeup_pending = false; out_batch = []; out_batch_sent = 0 }

pub opposite : false ≡ true → ⊥
opposite e = ground arith

drain_writes-busy :
    (c : Connection)
    → c.write_in_progress ≡ true
    → drain_writes c ≡ record c { write_wakeup_pending = false }
unfolding drain_writes
drain_writes-busy c busy = if_true c.write_in_progress _ _ busy

-- What `drain_writes` leaves where no write is in progress.
drain_writes-outgoing :
    (c : Connection)
    → c.write_in_progress ≡ false
    → let filled = fill (emptied c) in
      filled ≡ record (emptied c) {
        out_batch = filled.out_batch;
        outbound_from_engine = filled.outbound_from_engine;
      }
      → outgoing (drain_writes c) ≡ (record {
        queue = filled.outbound_from_engine;
        batch = filled.out_batch;
        sent = 0;
        writing = not (length filled.out_batch == 0);
        woken = false;
        drains = posted c.performed;
      })
unfolding drain_writes
drain_writes-outgoing c idle e =
    let filled = fill (emptied c) in
    ap outgoing (if_false c.write_in_progress _ _ idle)
    ∙ ap (λ f. outgoing (if length f.out_batch == 0 then f else write_batch f)) e
    ∙ by_flag (length filled.out_batch == 0) filled.out_batch filled.outbound_from_engine
  where
    by_flag :
        (b : Bool) (batch : List ℕ) (queue : SpscQueue OutboundMessage)
        → let f : Connection = record (emptied c) {
          out_batch = batch;
          outbound_from_engine = queue;
        } in
          outgoing (if b then f else write_batch f) ≡ (record {
            queue = queue;
            batch = batch;
            sent = 0;
            writing = not b;
            woken = false;
            drains = posted c.performed;
          })
    by_flag true batch queue =
        ap
          (λ b. record {
            queue = queue;
            batch = batch;
            sent = 0;
            writing = b;
            woken = false;
            drains = posted c.performed;
          })
          idle
    by_flag false batch queue =
        write_batch-outgoing
          (record (emptied c) { out_batch = batch; outbound_from_engine = queue })

-- A batch that has room for one message more, but got none, was given all there were.
abbrev Moved : List OutboundMessage → List ℕ → Bool → Type 0
Moved zs batch writing =
    ((writing ≡ true) ⊎ (batch ≡ [])) × ((zs ≡ []) ⊎ (writing ≡ true) ⊎ (false ≡ true))

moved :
    (zs : List OutboundMessage) (batch : List ℕ)
    → (zs ≡ []) ⊎ (batch_capacity - (wire_header_size + max_payload_size_buffer) < length batch)
    → Moved zs batch (not (length batch == 0))
unfolding max_payload_size_buffer
moved zs [] (inl e) = (inr refl, inl e)
moved zs [] (inr k) = absurd (omega (arith, k))
moved zs (b ∷ batch) k =
    let busy = ap not (ne→== (suc (length batch)) 0 (omega arith)) in (inl busy, inr (inl busy))

pub drain_writes-Stream :
    (c : Connection) (xs : List OutboundMessage) (run : ℕ) (written : List ℕ)
    (accepted : List OutboundMessage)
    → Flow xs (outgoing c) run written accepted
    → Stream (outgoing (drain_writes c)) run written accepted
drain_writes-Stream c xs run written accepted flow = elim (Bool-cases (c.write_in_progress)) [
  | inl busy ↦
      subst (λ o. Stream o run written accepted) (sym (ap outgoing (drain_writes-busy c busy)))
        (xs, flow, inl refl, inr (inl busy))
  | inr idle ↦
      let f = fill-Filled xs (emptied c) flow.1 flow.0 (omega arith) in
      let filled = fill (emptied c) in
      let done = moved f.1 filled.out_batch f.6 in
      subst (λ o. Stream o run written accepted) (sym (drain_writes-outgoing c idle f.7))
        (
          f.1,
          (
            f.3,
            (split_All IsSendable f.0 f.1 (subst (All IsSendable) f.2 flow.1)).1,
            flow.2
                ∙ ap (λ k. written ++ (k ++ encode_all xs)) (none_unsent idle flow.5)
                ∙ ap (λ k. written ++ k)
                    (ap encode_all f.2
                      ∙ encode_all-append f.0 f.1
                      ∙ ap (λ k. k ++ encode_all f.1) (sym f.4)),
            omega arith,
            f.5,
            done.0,
            flow.6,
          ),
          inl refl,
          done.1,
        )
]
  where
    none_unsent :
        c.write_in_progress ≡ false
        → (c.write_in_progress ≡ true) ⊎ (drop c.out_batch_sent c.out_batch ≡ [])
        → drop c.out_batch_sent c.out_batch ≡ []
    none_unsent idle (inl busy) = absurd (opposite (sym idle ∙ busy))
    none_unsent idle (inr e) = e
