-- ===== src/Logger/Pushing.antt =====
-- A message that is logged enters its queue.
use financial_exchange.Common.{
  ℕ, ◌-◌, ◌≤◌, ◌≡◌, refl, sym, ap, ◌∙◌, subst, Bool, true, false, some, List, [], ◌∷◌, ◌++◌, arith,
  length, take, replicate, length-append, length-take, append_assoc, append-nil, take-append, inl,
  inr, ltb, if◌then◌else◌, if_true, if_false, All-append,
}
use financial_exchange.Protocol.MessageType.{MessageType, payload_size_for_type}
use financial_exchange.Spsc.Queue.{SpscQueue, try_push}
use financial_exchange.Spsc.Fifo.{IsCapacity, Holds, try_push-Holds}
use financial_exchange.Logger.Sink.{Channel, payload_item, push_payload, max_logged_size}
use financial_exchange.Logger.Log.{type_of, sink_of, queue_cap}
use financial_exchange.Logger.Putting.{content, bytes_of, bytes_of-append, IsChannel}

abbrev pub size_of : ℕ → ℕ
size_of k = payload_size_for_type (type_of k)

size_of-small : (k : ℕ) → size_of k ≤ 4_096
unfolding type_of payload_size_for_type
size_of-small k = ground arith

pub queue_cap-IsCapacity : (k : ℕ) → IsCapacity (queue_cap k)
unfolding queue_cap
queue_cap-IsCapacity k = by_flag (ltb k 2)
  where
    by_flag : (b : Bool) → IsCapacity (if b then 32_768 else 16_384)
    by_flag true = (omega arith, omega arith, refl)
    by_flag false = (omega arith, omega arith, refl)

pub type_of-sink_of : (t : MessageType) (k : ℕ) → sink_of t ≡ some k → type_of k ≡ t
unfolding type_of sink_of
type_of-sink_of t k e = ground arith

-- The bytes that a call of `log_message` puts into a queue of a channel.
unfoldable pub entered : ℕ → List ℕ → Channel → List ℕ
entered capacity payload c =
    if (try_push capacity (payload_item c.sink.payload_size payload) c.queue).1
    then take c.sink.payload_size payload
    else []

pub push_payload-IsChannel :
    (capacity size : ℕ) (given : List ℕ) (xs : List (List ℕ)) (c : Channel) (payload : List ℕ)
    → IsCapacity capacity
    → size ≤ length payload
    → IsChannel capacity size given xs c
    → (ys : List (List ℕ)) × IsChannel capacity size
        (given ++ entered capacity payload c)
        ys
        (push_payload capacity payload c)
unfolding push_payload entered payload_item
push_payload-IsChannel capacity size given xs c payload valid long ok =
    let item = payload_item c.sink.payload_size payload in
    let whole = length-take size payload long in
    let front : take size item ≡ take size payload =
      ap (λ n. take size (take n payload ++ replicate (max_logged_size - n) 0)) ok.2.1
      ∙ ap (λ n. take n (take size payload ++ replicate (max_logged_size - size) 0)) (sym whole)
      ∙ take-append (take size payload) (replicate (max_logged_size - size) 0) in
    let p = c.sink.payload_size in
    let whole_item : size ≤ length item = omega (
      arith,
      ok.2.1,
      length-append (take p payload) (replicate {A = ℕ} (max_logged_size - p) 0),
      length-take p payload (omega (arith, ok.2.1, long)),
    ) in
    elim (try_push-Holds capacity valid item c.queue xs ok.0) [
      | inl k ↦
          let bytes =
            ap (λ l. given ++ l) (if_false _ _ _ (ap (λ p. p.1) k.1)) ∙ append-nil given ∙ ok.3 in
          (
            xs,
            (
              subst (λ (q : SpscQueue (List ℕ)). Holds capacity q xs) (sym (ap (λ p. p.0) k.1))
                  ok.0,
              ok.1,
              ok.2,
              bytes,
            ),
          )
      | inr k ↦
          let bytes =
            ap (λ l. given ++ l) (if_true _ _ _ k.2 ∙ ap (λ n. take n payload) ok.2.1)
            ∙ ap (λ l. l ++ take size payload) ok.3
            ∙ append_assoc (content c.sink) (bytes_of size xs) (take size payload)
            ∙ ap (λ l. content c.sink ++ l)
                (ap (λ l. bytes_of size xs ++ l)
                    (sym (append-nil (take size payload)) ∙ ap (λ l. l ++ []) (sym front))
                  ∙ sym (bytes_of-append size xs (item ∷ []))) in
          (
            xs ++ (item ∷ []),
            (
              k.1,
              All-append (λ i. size ≤ length i) xs (item ∷ []) ok.1 (whole_item, tt),
              ok.2,
              bytes,
            ),
          )
    ]
