-- ===== src/Connection/Writing.antt =====
-- `handle_write_` keeps the order of the messages' bytes.
use financial_exchange.Common.{
  ℕ, zero, suc, ◌+◌, ◌≤◌, ◌<◌, ◌≡◌, refl, sym, ap, ◌∙◌, subst, true, false, none, some, List, [],
  ◌∷◌, ◌++◌, arith, length, take, drop, length-drop, append_assoc, take-drop, Bool-cases,
  Option-cases, ◌⊎◌, inl, inr, ltb, ltb→lt, ltb→le, if_true, if_false, is_some,
}
use financial_exchange.Spsc.Queue.{SpscQueue, peek}
use financial_exchange.Spsc.Fifo.{Holds, try_pop-Holds}
use financial_exchange.Connection.Frame.{OutboundMessage, outbound_q_cap}
use financial_exchange.Connection.State.{Connection}
use financial_exchange.Connection.Write.{write_batch, drain_writes, bytes_written, handle_write}
use financial_exchange.Connection.Deliver.{outbound_q_cap-IsCapacity, encode_all}
use financial_exchange.Connection.Outgoing.{outgoing}
use financial_exchange.Connection.Drain.{Stream, write_batch-outgoing, drain_writes-Stream}
use financial_exchange.Connection.Run.{unsent}

drop_nil {ℓ} : {A : Type ℓ} (n : ℕ) → drop {A = A} n [] ≡ []
drop_nil zero = refl
drop_nil (suc n) = refl

drop_more {ℓ} : {A : Type ℓ} (m n : ℕ) (xs : List A) → drop (m + n) xs ≡ drop n (drop m xs)
drop_more zero n xs = ap (λ k. drop k xs) (omega arith)
drop_more (suc m) n [] = drop_nil (suc m + n) ∙ sym (drop_nil n)
drop_more (suc m) n (x ∷ xs) = ap (λ k. drop k (x ∷ xs)) (plus_suc m n) ∙ drop_more m n xs
  where
    plus_suc : (m n : ℕ) → suc m + n ≡ suc (m + n)
    plus_suc m n = omega arith

drop_all {ℓ} : {A : Type ℓ} (n : ℕ) (xs : List A) → length xs ≤ n → drop n xs ≡ []
drop_all zero [] h = refl
drop_all zero (x ∷ xs) h = absurd (omega arith)
drop_all (suc n) [] h = refl
drop_all (suc n) (x ∷ xs) h = drop_all n xs (omega arith)

abbrev pub advanced : ℕ → Connection → Connection
advanced n c = record c { out_batch_sent = c.out_batch_sent + n }

abbrev pub finished : ℕ → Connection → Connection
finished n c = record c { out_batch_sent = c.out_batch_sent + n; write_in_progress = false }

abbrev pub finished_asleep : ℕ → Connection → Connection
finished_asleep n c = record c {
  out_batch_sent = c.out_batch_sent + n;
  write_in_progress = false;
  write_wakeup_pending = false;
}

-- After a write: more of the batch, a drain as there are messages or as one is asked for, or nothing.
pub handle_write_cases :
    (n : ℕ) (c : Connection)
    → ((c.out_batch_sent + n < length c.out_batch)
        × (handle_write (bytes_written n) c ≡ write_batch (advanced n c)))
      ⊎ ((length c.out_batch ≤ c.out_batch_sent + n)
          × (handle_write (bytes_written n) c ≡ drain_writes (finished n c)))
      ⊎ ((length c.out_batch ≤ c.out_batch_sent + n)
          × (handle_write (bytes_written n) c ≡ drain_writes (finished_asleep n c)))
      ⊎ ((length c.out_batch ≤ c.out_batch_sent + n)
          × (peek outbound_q_cap c.outbound_from_engine ≡ none)
          × (c.write_wakeup_pending ≡ false)
          × (handle_write (bytes_written n) c ≡ finished n c))
unfolding handle_write
handle_write_cases n c = elim (Bool-cases (ltb (c.out_batch_sent + n) (length c.out_batch))) [
  | inl e ↦ inl (ltb→lt _ _ e, if_true _ _ _ e)
  | inr e ↦ elim (Option-cases (peek outbound_q_cap c.outbound_from_engine)) [
    | inr (m, f) ↦ inr (inl (ltb→le _ _ e, if_false _ _ _ e ∙ if_true _ _ _ (ap is_some f)))
    | inl f ↦ elim (Bool-cases (c.write_wakeup_pending)) [
      | inl g ↦ inr (
          inr (
            inl (ltb→le _ _ e, if_false _ _ _ e ∙ if_false _ _ _ (ap is_some f) ∙ if_true _ _ _ g)))
      | inr g ↦ inr (
          inr (
            inr (
              ltb→le _ _ e,
              f,
              g,
              if_false _ _ _ e ∙ if_false _ _ _ (ap is_some f) ∙ if_false _ _ _ g,
            )))
    ]
  ]
]

-- The bytes written are the next ones.
written_bytes :
    (n : ℕ) (c : Connection) (written more : List ℕ)
    → written ++ (unsent c ++ more)
      ≡ (written ++ take n (unsent c)) ++ (drop (c.out_batch_sent + n) c.out_batch ++ more)
written_bytes n c written more =
    let u = unsent c in
    ap (λ k. written ++ (k ++ more)) (sym (take-drop n u))
    ∙ ap (λ k. written ++ k) (append_assoc (take n u) (drop n u) more)
    ∙ sym (append_assoc written (take n u) (drop n u ++ more))
    ∙ ap (λ k. (written ++ take n u) ++ (k ++ more))
        (sym (drop_more c.out_batch_sent n c.out_batch))

pub nothing_waits :
    (queue : SpscQueue OutboundMessage) (xs : List OutboundMessage)
    → Holds outbound_q_cap queue xs
    → peek outbound_q_cap queue ≡ none
    → xs ≡ []
nothing_waits queue xs h e =
    elim (try_pop-Holds outbound_q_cap outbound_q_cap-IsCapacity queue xs h) [
      | inl k ↦ k.0
      | inr k ↦ absurd (none_some k.0 (sym e ∙ k.5))
    ]
  where
    none_some : (m : OutboundMessage) → none ≡ some m → ⊥
    none_some m e = ground arith

pub wrote-Stream :
    (n : ℕ) (c : Connection) (run : ℕ) (written : List ℕ) (acc : List OutboundMessage)
    → c.write_in_progress ≡ true
    → n ≤ length (unsent c)
    → Stream (outgoing c) run written acc
    → Stream (outgoing (handle_write (bytes_written n) c)) run (written ++ take n (unsent c)) acc
wrote-Stream n c run written acc busy few (xs, flow, wake, wait) =
    let bytes = flow.2 ∙ written_bytes n c written (encode_all xs) in
    let within : c.out_batch_sent + n ≤ length c.out_batch =
      omega (arith, flow.3, few, length-drop c.out_batch_sent c.out_batch) in
    elim (handle_write_cases n c) [
      | inl k ↦
          subst (λ o. Stream o run (written ++ take n (unsent c)) acc)
            (sym (ap outgoing k.1 ∙ write_batch-outgoing (advanced n c)))
            (xs, (flow.0, flow.1, bytes, within, flow.4, inl refl, flow.6), wake, inr (inl refl))
      | inr (inl k) ↦
          subst (λ d. Stream (outgoing d) run (written ++ take n (unsent c)) acc) (sym k.1)
            (drain_writes-Stream (finished n c) xs run (written ++ take n (unsent c)) acc
              (flow.0, flow.1, bytes, within, flow.4, inr (drop_all _ c.out_batch k.0), flow.6))
      | inr (inr (inl k)) ↦
          subst (λ d. Stream (outgoing d) run (written ++ take n (unsent c)) acc) (sym k.1)
            (drain_writes-Stream (finished_asleep n c) xs run (written ++ take n (unsent c)) acc
              (flow.0, flow.1, bytes, within, flow.4, inr (drop_all _ c.out_batch k.0), flow.6))
      | inr (inr (inr k)) ↦
          subst (λ d. Stream (outgoing d) run (written ++ take n (unsent c)) acc) (sym k.3)
            (
              xs,
              (flow.0, flow.1, bytes, within, flow.4, inr (drop_all _ c.out_batch k.0), flow.6),
              inl k.2,
              inl (nothing_waits c.outbound_from_engine xs flow.0 k.1),
            )
    ]
