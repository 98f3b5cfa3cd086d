-- ===== src/Connection/Reads.antt =====
-- How a stream is cut into reads does not matter: src/connectivity.cpp, run by its handlers.
use financial_exchange.Common.{
  joined, ℕ, suc, ◌≡◌, refl, sym, ap, ◌∙◌, Bool, true, false, Option, none, some, List, [], ◌∷◌,
  ◌++◌, arith, length, inl, inr, if◌then◌else◌, append_assoc, append-nil,
}
use financial_exchange.Connection.Frame.{next_frame}
use financial_exchange.Connection.State.{Connection}
use financial_exchange.Connection.Read.{handle_read, bytes_read}
use financial_exchange.Connection.Chunks.{parse, resume, parse_loop-none, parse_loop-append}
use financial_exchange.Connection.Masking.{seen, seen_with, parse_loop-seen}
use financial_exchange.Connection.Receive.{
  ReadEvent, read_bytes, ready_task, receive_event, receive, reads, read-ended, task-unseen,
}

-- What is compared of a connection: not the capacity of its vector, nor the bytes that a connection
-- given up leaves there, nor how often a read is begun and the engine is notified.
pub observed : Connection → Connection
observed c = seen (if c.disconnect_notified then [] else c.in_accum) c

pub settled : Connection × Option (List ℕ) → Connection
settled parsed = elim (parsed.1) [ none ↦ seen [] parsed.0 | some rest ↦ seen rest parsed.0 ]

-- A connection that is given up reads nothing more.
given_up :
    (events : List ReadEvent) (c : Connection)
    → c.disconnect_notified ≡ true
    → observed (receive events c) ≡ seen [] c
unfolding receive observed receive_event
given_up [] c h = ap (λ (b : Bool). seen (if b then [] else c.in_accum) c) h
given_up (read_bytes a ∷ events) c h = skipped c.disconnect_notified h (given_up events c h)
  where
    skipped :
        (b : Bool)
        → b ≡ true
        → observed (receive events c) ≡ seen [] c
        → observed (receive events (if b then c else handle_read (bytes_read a) c)) ≡ seen [] c
    skipped true e k = k
    skipped false e k = absurd (ground arith)
given_up (ready_task ∷ events) c h =
    let task = task-unseen c in given_up events (receive_event ready_task c) (task.1 ∙ h) ∙ task.0

settled-seen :
    (bytes : List ℕ) (c d : Connection)
    → seen [] c ≡ seen [] d
    → settled (parse bytes c) ≡ settled (parse bytes d)
unfolding settled
settled-seen bytes c d same =
    let rounds = suc (length bytes) in
    ap compared (
      parse_loop-seen rounds bytes c
      ∙ ap (λ k. seen_with (parse bytes k)) same
      ∙ sym (parse_loop-seen rounds bytes d))
  where
    compared : Connection × Option (List ℕ) → Connection
    compared r = elim (r.1) [ none ↦ r.0 | some rest ↦ record r.0 { in_accum = rest } ]

-- For a connection that is not given up and that waits for more bytes, while the engine takes no
-- message: the outcome of reading a stream depends on its bytes and not on how they are cut into reads,
-- nor on when the notifications to the engine run between them. The messages queued, the other calls
-- made, the bytes left over and whether the connection is given up are those of the loop on all the
-- bytes at once. (How many notifications the engine gets does depend on the cut.)
pub receive-joined :
    (events : List ReadEvent) (c : Connection)
    → c.disconnect_notified ≡ false
    → next_frame c.in_accum ≡ none
    → observed (receive events c) ≡ settled (parse (c.in_accum ++ joined (reads events)) c)
unfolding receive observed settled reads
receive-joined [] c h waits =
    ap (λ (b : Bool). seen (if b then [] else c.in_accum) c) h
    ∙ sym (
        ap settled (
          ap (λ k. parse k c) (append-nil c.in_accum)
          ∙ parse_loop-none (suc (length c.in_accum)) c.in_accum c waits))
receive-joined (ready_task ∷ events) c h waits =
    let after = receive_event ready_task c in
    let task = task-unseen c in
    receive-joined events after (task.1 ∙ h) (ap next_frame task.2 ∙ waits)
    ∙ ap (λ k. settled (parse (k ++ joined (reads events)) after)) task.2
    ∙ settled-seen (c.in_accum ++ joined (reads events)) after c task.0
receive-joined (read_bytes a ∷ events) c h waits =
    let bytes = c.in_accum ++ a in
    let more = joined (reads events) in
    let after = receive_event (read_bytes a) c in
    let split =
      ap (λ k. parse k c) (sym (append_assoc c.in_accum a more))
      ∙ parse_loop-append (suc (length bytes)) bytes more c (omega arith) in
    elim (read-ended a c h) [
      | inl k ↦ stopped after (parse bytes c) k ∙ sym (ap settled split)
      | inr k ↦
          going after (parse bytes c) k (λ h w. receive-joined events after h w)
          ∙ sym (ap settled split)
    ]
  where
    left_none :
        (parsed : Connection × Option (List ℕ))
        → parsed.1 ≡ none
        → seen [] parsed.0 ≡ settled (resume (joined (reads events)) parsed)
    left_none parsed e = rw e refl

    left_some :
        (parsed : Connection × Option (List ℕ)) (rest : List ℕ)
        → parsed.1 ≡ some rest
        → settled (parse (rest ++ joined (reads events)) parsed.0)
          ≡ settled (resume (joined (reads events)) parsed)
    left_some parsed rest e = rw e refl

    stopped :
        (after : Connection) (parsed : Connection × Option (List ℕ))
        → (parsed.1 ≡ none)
          × (after.disconnect_notified ≡ true)
          × (seen [] after ≡ seen [] parsed.0)
        → observed (receive events after) ≡ settled (resume (joined (reads events)) parsed)
    stopped after parsed k = given_up events after k.1 ∙ k.2 ∙ left_none parsed k.0

    going :
        (after : Connection) (parsed : Connection × Option (List ℕ))
        → ((rest : List ℕ) × (parsed.1 ≡ some rest)
            × (after.disconnect_notified ≡ false)
            × (next_frame rest ≡ none)
            × (after.in_accum ≡ rest)
            × (seen [] after ≡ seen [] parsed.0))
        → (after.disconnect_notified ≡ false
            → next_frame after.in_accum ≡ none
            → observed (receive events after)
              ≡ settled (parse (after.in_accum ++ joined (reads events)) after))
        → observed (receive events after) ≡ settled (resume (joined (reads events)) parsed)
    going after parsed k ih =
        ih k.2 (ap next_frame k.4 ∙ k.3)
        ∙ ap (λ l. settled (parse (l ++ joined (reads events)) after)) k.4
        ∙ settled-seen (k.0 ++ joined (reads events)) after parsed.0 k.5
        ∙ left_some parsed k.0 k.1

-- The messages queued, by that.
pub receive-queue :
    (events : List ReadEvent) (c : Connection)
    → c.disconnect_notified ≡ false
    → next_frame c.in_accum ≡ none
    → (receive events c).inbound_to_engine
      ≡ (parse (c.in_accum ++ joined (reads events)) c).0.inbound_to_engine
unfolding observed settled
receive-queue events c h waits =
    ap (λ k. k.inbound_to_engine) (receive-joined events c h waits)
    ∙ same (parse (c.in_accum ++ joined (reads events)) c)
  where
    same :
        (parsed : Connection × Option (List ℕ))
        → (settled parsed).inbound_to_engine ≡ parsed.0.inbound_to_engine
    same (c', none) = refl
    same (c', some rest) = refl
