-- ===== src/Exchange/Numbering.antt =====
-- The sequence numbers of the market feed.
use Prim.Native.String.{String}
use financial_exchange.Common.{
  append_assoc, ℕ, zero, suc, ◌+◌, ◌%◌, ◌^◌, ◌<◌, ◌≡◌, refl, sym, ap, ◌∙◌, List, [], ◌∷◌, ◌++◌,
  arith, add32, add32-lt, Bool-cases, inl, inr,
}
use financial_exchange.Book.Side.{
  Event, on_trade, on_order_inserted, on_order_cancelled, on_order_amended, on_level_update,
  on_error,
}
use financial_exchange.Protocol.Make.{
  make_trade_event, make_order_inserted_event, make_order_cancelled_event, make_order_amended_event,
  make_price_level_update,
}
use financial_exchange.Exchange.Messages.{
  Message, Output, sent, logged, posted_removal, Exchange, send_to, broadcast,
  broadcast_to_subscribers, conn_ptr, trade_message, insert_message, cancel_message,
  amended_message, level_message,
}
use financial_exchange.Exchange.Callbacks.{handle_event, handle_events, publish, next_sequence}

-- The number that a message of the feed bears.
abbrev pub number : Message → List ℕ
number (trade_message p) = p.sequence_number ∷ []
number (insert_message p) = p.sequence_number ∷ []
number (cancel_message p) = p.sequence_number ∷ []
number (amended_message p) = p.sequence_number ∷ []
number (level_message p) = p.sequence_number ∷ []
number _ = []

-- The numbers of the messages that went to the event logger, in order.
abbrev pub feed_numbers : List Output → List ℕ
feed_numbers [] = []
feed_numbers (sent c m ∷ out) = feed_numbers out
feed_numbers (logged m ∷ out) = number m ++ feed_numbers out
feed_numbers (posted_removal id ∷ out) = feed_numbers out

-- All callbacks but an error make one message of the feed.
abbrev pub feed_count : List Event → ℕ
feed_count [] = 0
feed_count (on_error a b c d e ∷ es) = feed_count es
feed_count (_ ∷ es) = suc (feed_count es)

-- `count` numbers from `n` on, as an `Id_t` counts.
abbrev pub consecutive : ℕ → ℕ → List ℕ
consecutive n zero = []
consecutive n (suc count) = n ∷ consecutive (add32 n 1) count

feed_numbers-append :
    (xs ys : List Output) → feed_numbers (xs ++ ys) ≡ feed_numbers xs ++ feed_numbers ys
feed_numbers-append [] ys = refl
feed_numbers-append (sent c m ∷ xs) ys = feed_numbers-append xs ys
feed_numbers-append (logged m ∷ xs) ys =
    ap (λ t. number m ++ t) (feed_numbers-append xs ys)
    ∙ sym (append_assoc (number m) (feed_numbers xs) (feed_numbers ys))
feed_numbers-append (posted_removal id ∷ xs) ys = feed_numbers-append xs ys

feed_numbers-send_to : (c : ℕ) (m : Message) (x : Exchange) → feed_numbers (send_to c m x) ≡ []
unfolding send_to
feed_numbers-send_to c m x = elim (Bool-cases (conn_ptr c x)) [
  | inl e ↦ rw e refl
  | inr e ↦ rw e refl
]

-- A message to one party is not of the feed.
skip_sent :
    (c : ℕ) (m : Message) (x : Exchange) (out : List Output)
    → feed_numbers (send_to c m x ++ out) ≡ feed_numbers out
skip_sent c m x out =
    feed_numbers-append (send_to c m x) out
    ∙ ap (λ t. t ++ feed_numbers out) (feed_numbers-send_to c m x)

feed_numbers-publish : (m : Message) (x : Exchange) → feed_numbers (publish m x) ≡ number m ++ []
unfolding publish broadcast_to_subscribers
feed_numbers-publish m x =
    feed_numbers-append (broadcast x.market_data_subscribers m x) (logged m ∷ [])
    ∙ ap (λ t. t ++ (number m ++ [])) (only_sent x.market_data_subscribers)
  where
    only_sent : (cs : List ℕ) → feed_numbers (broadcast cs m x) ≡ []
    only_sent [] = refl
    only_sent (c ∷ cs) = skip_sent c m x (broadcast cs m x) ∙ only_sent cs

-- An `Id_t` after `count` increments.
abbrev ahead : ℕ → ℕ → ℕ
ahead n zero = n
ahead n (suc count) = ahead (add32 n 1) count

ahead_lem : (n count : ℕ) → n < 2 ^ 32 → ahead n count ≡ (n + count) % 2 ^ 32
unfolding add32
ahead_lem n zero h = omega arith
ahead_lem n (suc count) h = omega (arith, ahead_lem (add32 n 1) count (add32-lt n 1))

zero_plus : (b : ℕ) → b ≡ 0 + b
zero_plus b = omega arith

suc-add : (a b : ℕ) → suc (a + b) ≡ suc a + b
suc-add a b = omega arith

consecutive-append :
    (n a b : ℕ) → consecutive n a ++ consecutive (ahead n a) b ≡ consecutive n (a + b)
consecutive-append n zero b = ap (consecutive n) (omega arith)
consecutive-append n (suc a) b =
    ap (λ t. n ∷ t) (consecutive-append (add32 n 1) a b) ∙ ap (consecutive n) (suc-add a b)

ahead-add : (n a b : ℕ) → ahead (ahead n a) b ≡ ahead n (a + b)
ahead-add n zero b = ap (ahead n) (zero_plus b)
ahead-add n (suc a) b = ahead-add (add32 n 1) a b ∙ ap (ahead n) (suc-add a b)

feed_count-cons :
    (e : Event) (es : List Event) → feed_count (e ∷ es) ≡ feed_count (e ∷ []) + feed_count es
feed_count-cons (on_error a b c d e) es = omega arith
feed_count-cons _ es = omega arith

module _ (text : String → List ℕ) where
  handle_event-numbers :
      (e : Event) (x : Exchange)
      → (feed_numbers (handle_event text e x).1
          ≡ consecutive x.sequence_number (feed_count (e ∷ [])))
        × ((handle_event text e x).0.sequence_number
            ≡ ahead x.sequence_number (feed_count (e ∷ [])))
  unfolding handle_event next_sequence make_trade_event make_order_inserted_event
      make_order_cancelled_event make_order_amended_event make_price_level_update
  handle_event-numbers (on_trade maker a b c d e f g) x =
      (skip_sent _ _ _ _ ∙ skip_sent _ _ _ _ ∙ feed_numbers-publish _ _, refl)
  handle_event-numbers (on_order_inserted r o now) x =
      (skip_sent _ _ _ _ ∙ feed_numbers-publish _ _, refl)
  handle_event-numbers (on_order_cancelled r o now) x =
      (skip_sent _ _ _ _ ∙ feed_numbers-publish _ _, refl)
  handle_event-numbers (on_order_amended r q o now) x =
      (skip_sent _ _ _ _ ∙ feed_numbers-publish _ _, refl)
  handle_event-numbers (on_level_update side level now) x = (feed_numbers-publish _ _, refl)
  handle_event-numbers (on_error c r k message now) x = (feed_numbers-send_to _ _ _, refl)

  numbers_run :
      (es : List Event) (x : Exchange)
      → (feed_numbers (handle_events text es x).1 ≡ consecutive x.sequence_number (feed_count es))
        × ((handle_events text es x).0.sequence_number ≡ ahead x.sequence_number (feed_count es))
  unfolding handle_events
  numbers_run [] x = (refl, refl)
  numbers_run (e ∷ es) x =
      let (now, moved) = handle_event-numbers e x in
      let (rest, last) = numbers_run es (handle_event text e x).0 in
      let n = x.sequence_number in
      let a = feed_count (e ∷ []) in
      let counts = feed_count-cons e es in
      (
        feed_numbers-append (handle_event text e x).1 _
            ∙ ap (λ t. t ++ feed_numbers (handle_events text es (handle_event text e x).0).1) now
            ∙ ap (λ t. consecutive n a ++ t) (rest ∙ ap (λ k. consecutive k (feed_count es)) moved)
            ∙ consecutive-append n a (feed_count es)
            ∙ ap (consecutive n) (sym counts),
        last
            ∙ ap (λ k. ahead k (feed_count es)) moved
            ∙ ahead-add n a (feed_count es)
            ∙ ap (ahead n) (sym counts),
      )

  -- The messages of the feed that a run of callbacks makes bear consecutive numbers, one for each
  -- callback but the errors, from the exchange's number on; its next number is the one after them. The
  -- number is an `Id_t`, so it counts modulo 2^32.
  pub handle_events-numbers :
      (es : List Event) (x : Exchange)
      → x.sequence_number < 2 ^ 32
      → (feed_numbers (handle_events text es x).1 ≡ consecutive x.sequence_number (feed_count es))
        × ((handle_events text es x).0.sequence_number
            ≡ (x.sequence_number + feed_count es) % 2 ^ 32)
  handle_events-numbers es x small =
      ((numbers_run es x).0, (numbers_run es x).1 ∙ ahead_lem _ (feed_count es) small)
