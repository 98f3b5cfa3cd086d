-- ===== src/Connection/Receive.antt =====
-- The handlers that a connection runs as it reads, and how one read ends: src/connectivity.cpp.
use financial_exchange.Common.{
  ℕ, suc, ◌≡◌, refl, ap, ◌∙◌, Bool, true, false, Option, none, some, List, [], ◌∷◌, ◌++◌, arith,
  length, ◌⊎◌, inl, inr, if◌then◌else◌,
}
use financial_exchange.Connection.Frame.{next_frame}
use financial_exchange.Connection.State.{Connection, perform, start_read, run_inbound_ready}
use financial_exchange.Connection.Read.{parse_accumulator, accumulate, handle_read, bytes_read}
use financial_exchange.Connection.Chunks.{parse, with_accum, parse_loop-with}
use financial_exchange.Connection.Ending.{parse_loop-Ended}
use financial_exchange.Connection.Masking.{seen, unseen, run_inbound-unseen, run_inbound-told}

-- What the strand of a connection runs as it reads: the handler of a read that brought bytes, and the
-- task that `notify_inbound_ready_` posted.
pub data ReadEvent : Type 0 where
  read_bytes : List ℕ → ReadEvent
  ready_task : ReadEvent

-- A read completes only where one was begun, which the handler does until the connection is given up;
-- a task runs only where one was posted.
unfoldable pub receive_event : ReadEvent → Connection → Connection
receive_event (read_bytes bytes) c =
    if c.disconnect_notified then c else handle_read (bytes_read bytes) c
receive_event ready_task c = if c.inbound_ready_pending then run_inbound_ready c else c

unfoldable pub receive : List ReadEvent → Connection → Connection
receive [] c = c
receive (e ∷ events) c = receive events (receive_event e c)

-- The bytes of each read.
unfoldable pub reads : List ReadEvent → List (List ℕ)
reads [] = []
reads (read_bytes bytes ∷ events) = bytes ∷ reads events
reads (ready_task ∷ events) = reads events

abbrev pub finish : Connection × Option (List ℕ) → Connection
finish parsed = elim (parsed.1) [
  | none ↦ parsed.0
  | some rest ↦ record parsed.0 { in_accum = rest }
]

pub parse_accumulator-finish : (c : Connection) → parse_accumulator c ≡ finish (parse c.in_accum c)
unfolding parse_accumulator
parse_accumulator-finish c = refl

-- The two ways that a read ends, told by the loop.
abbrev pub ReadEnded : Connection → Connection × Option (List ℕ) → Type 0
ReadEnded after parsed =
    ((parsed.1 ≡ none) × (after.disconnect_notified ≡ true) × (seen [] after ≡ seen [] parsed.0))
    ⊎ ((rest : List ℕ) × (parsed.1 ≡ some rest)
        × (after.disconnect_notified ≡ false)
        × (next_frame rest ≡ none)
        × (after.in_accum ≡ rest)
        × (seen [] after ≡ seen [] parsed.0))

parsed-ended :
    (a : List ℕ) (c : Connection)
    → c.disconnect_notified ≡ false
    → ReadEnded (parse_accumulator (accumulate a c)) (parse (c.in_accum ++ a) c)
unfolding accumulate
parsed-ended a c h =
    let bytes = c.in_accum ++ a in
    let start = accumulate a c in
    let parsed = parse bytes c in
    let same = parse_loop-with (suc (length bytes)) bytes start.accum_size bytes c in
    elim (parse_loop-Ended (suc (length bytes)) bytes c (omega arith)) [
      | inl k ↦
          let after = ended_none start parsed same k.0 in
          inl (k.0, ap (λ k. k.disconnect_notified) after ∙ k.1, ap (seen []) after)
      | inr k ↦
          let after = ended_some start parsed k.0 same k.1 in
          inr (
            k.0,
            k.1,
            ap (λ k. k.disconnect_notified) after ∙ k.2 ∙ h,
            k.3,
            ap (λ k. k.in_accum) after,
            ap (seen []) after,
          )
    ]
  where
    ended_none :
        (start : Connection) (parsed : Connection × Option (List ℕ))
        → parse start.in_accum start
          ≡ (with_accum start.accum_size start.in_accum parsed.0, parsed.1)
        → parsed.1 ≡ none
        → parse_accumulator start ≡ with_accum start.accum_size start.in_accum parsed.0
    ended_none start parsed e f = parse_accumulator-finish start ∙ ap finish e ∙ rw f refl

    ended_some :
        (start : Connection) (parsed : Connection × Option (List ℕ)) (rest : List ℕ)
        → parse start.in_accum start
          ≡ (with_accum start.accum_size start.in_accum parsed.0, parsed.1)
        → parsed.1 ≡ some rest
        → parse_accumulator start ≡ with_accum start.accum_size rest parsed.0
    ended_some start parsed rest e f = parse_accumulator-finish start ∙ ap finish e ∙ rw f refl

-- The next read is begun.
pub read-ended :
    (a : List ℕ) (c : Connection)
    → c.disconnect_notified ≡ false
    → ReadEnded (receive_event (read_bytes a) c) (parse (c.in_accum ++ a) c)
unfolding receive_event handle_read perform
read-ended a c h =
    skipped c.disconnect_notified h _
      (begun _ (parse_accumulator (accumulate a c)) refl (parsed-ended a c h))
  where
    parsed : Connection × Option (List ℕ)
    parsed = parse (c.in_accum ++ a) c

    again :
        (after : Connection) → ReadEnded after parsed → ReadEnded (perform start_read after) parsed
    again after (inl (e, told, same)) = inl (e, told, unseen start_read after refl ∙ same)
    again after (inr (rest, e, up, short, left, same)) =
        inr (rest, e, up, short, left, unseen start_read after refl ∙ same)

    begun :
        (b : Bool) (after : Connection)
        → after.disconnect_notified ≡ b
        → ReadEnded after parsed
        → ReadEnded (if b then after else perform start_read after) parsed
    begun true after e k = k
    begun false after e k = again after k

    skipped :
        (b : Bool)
        → b ≡ false
        → (after : Connection) → ReadEnded after parsed
        → ReadEnded (if b then c else after) parsed
    skipped true e after k = absurd (ground arith)
    skipped false e after k = k

-- A task that runs between the reads changes nothing that is compared.
pub task-unseen :
    (c : Connection)
    → (seen [] (receive_event ready_task c) ≡ seen [] c)
      × ((receive_event ready_task c).disconnect_notified ≡ c.disconnect_notified)
      × ((receive_event ready_task c).in_accum ≡ c.in_accum)
unfolding receive_event
task-unseen c = by_flag c.inbound_ready_pending
  where
    by_flag :
        (b : Bool)
        → let after = if b then run_inbound_ready c else c in
          (seen [] after ≡ seen [] c)
          × (after.disconnect_notified ≡ c.disconnect_notified)
          × (after.in_accum ≡ c.in_accum)
    by_flag true = (run_inbound-unseen c, (run_inbound-told c).0, (run_inbound-told c).1)
    by_flag false = (refl, refl, refl)
