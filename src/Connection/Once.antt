-- ===== src/Connection/Once.antt =====
-- The callback for a disconnection is called once at most.
use financial_exchange.Common.{
  ℕ, zero, suc, ◌+◌, ◌≤◌, ◌≡◌, refl, sym, ◌∙◌, subst, Bool, true, false, not, ◌&&◌, Option, none,
  some, List, [], ◌∷◌, ◌++◌, arith, length, Bool-cases, Option-cases, ◌⊎◌, inl, inr, ltb, ltb→lt,
  ltb→le, if_both, if_true, if_false, drop,
}
use financial_exchange.Protocol.MessageType.{
  MessageType, max_payload_size_buffer, payload_size_for_type,
}
use financial_exchange.Spsc.Queue.{SpscQueue, peek, try_push}
use financial_exchange.Connection.Frame.{
  InboundMessage, OutboundMessage, next_frame, outbound_q_cap, wire_header_size,
}
use financial_exchange.Connection.State.{
  Action, start_read, start_write, write_unbuffered, post_drain, post_inbound_ready, close_socket,
  call_disconnected, call_inbound_ready, call_large_message, Connection, perform, close,
  notify_disconnect_once, notify_inbound_ready, run_inbound_ready, new_connection,
}
use financial_exchange.Connection.Read.{
  handle_frame, parse_loop, parse_accumulator, accumulate, handle_read, ReadResult, read_error,
  bytes_read,
}
use financial_exchange.Connection.Write.{
  schedule_drain_writes, send_message, outbound_message, write_batch, fill_loop, fill, drain_writes,
  WriteResult, write_error, bytes_written, handle_write, batch_capacity,
}
use financial_exchange.Connection.Handling.{handle_frame_cases}
use financial_exchange.Connection.Chunks.{parse, go_on, parse_loop-none, parse_loop-some}
use financial_exchange.Connection.Receive.{finish, parse_accumulator-finish}
use financial_exchange.Connection.Fill.{
  fill_loop-one, fill_loop-none, fill_loop-full, fill_loop-some,
}
use financial_exchange.Connection.Writing.{advanced, finished, finished_asleep, handle_write_cases}
use financial_exchange.Connection.Run.{
  Run, Step, send_step, drain_step, wrote_step, write_failed_step, read_step, ready_step, Reach,
  begun, later,
}

abbrev pub calls : Action → ℕ
calls start_read = 0
calls (start_write bytes) = 0
calls (write_unbuffered bytes) = 0
calls post_drain = 0
calls post_inbound_ready = 0
calls close_socket = 0
calls call_disconnected = 1
calls call_inbound_ready = 0
calls (call_large_message t payload) = 0

abbrev pub called : List Action → ℕ
called [] = 0
called (a ∷ acts) = calls a + called acts

called-snoc : (acts : List Action) (a : Action) → called (acts ++ (a ∷ [])) ≡ called acts + calls a
called-snoc [] a = omega arith
called-snoc (b ∷ acts) a = omega (arith, called-snoc acts a)

-- Not called before the connection is given up, and once at most then.
abbrev Once : Bool → ℕ → Type 0
Once told n = ((told ≡ false) × (n ≡ 0)) ⊎ ((told ≡ true) × (n ≤ 1))

abbrev pub IsOnce : Connection → Type 0
IsOnce c = Once c.disconnect_notified (called c.performed)

perform-IsOnce : (a : Action) (c : Connection) → calls a ≡ 0 → IsOnce c → IsOnce (perform a c)
unfolding perform
perform-IsOnce a c e h =
    subst (Once c.disconnect_notified) (sym (called-snoc c.performed a ∙ omega (arith, e))) h

notify_disconnect_once-IsOnce : (c : Connection) → IsOnce c → IsOnce (notify_disconnect_once c)
unfolding notify_disconnect_once close perform
notify_disconnect_once-IsOnce c (inr h) =
    subst IsOnce (sym (if_true c.disconnect_notified _ _ h.0)) (inr h)
notify_disconnect_once-IsOnce c (inl h) =
    let told : Connection = record c { disconnect_notified = true } in
    let closed = perform close_socket told in
    let silent : called closed.performed ≡ 0 = none_called told close_socket refl h.1 in
    subst IsOnce (sym (if_false c.disconnect_notified _ _ h.0)) (
      if_both IsOnce c.has_disconnected (inr (refl, one_called closed silent))
        (inr (refl, omega (arith, silent))))
  where
    none_called :
        (t : Connection) (a : Action)
        → calls a ≡ 0
        → called t.performed ≡ 0
        → called (perform a t).performed ≡ 0
    none_called t a e h = called-snoc t.performed a ∙ omega (arith, e, h)

    one_called :
        (t : Connection)
        → called t.performed ≡ 0
        → called (perform call_disconnected t).performed ≤ 1
    one_called t h = omega (arith, called-snoc t.performed call_disconnected, h)

notify_inbound_ready-IsOnce : (c : Connection) → IsOnce c → IsOnce (notify_inbound_ready c)
unfolding notify_inbound_ready
notify_inbound_ready-IsOnce c h = if_both IsOnce (not c.has_inbound_ready) h (
    if_both IsOnce c.inbound_ready_pending h
      (perform-IsOnce post_inbound_ready (record c { inbound_ready_pending = true }) refl h))

run_inbound_ready-IsOnce : (c : Connection) → IsOnce c → IsOnce (run_inbound_ready c)
unfolding run_inbound_ready
run_inbound_ready-IsOnce c h =
    if_both IsOnce (c.has_inbound_ready && not c.disconnect_notified)
      (perform-IsOnce call_inbound_ready (record c { inbound_ready_pending = false }) refl h) h

handle_frame-IsOnce :
    (t size : ℕ) (payload : List ℕ) (c : Connection)
    → IsOnce c
    → IsOnce (handle_frame t size payload c).0
handle_frame-IsOnce t size payload c h = elim (handle_frame_cases t size payload c) [
  | inl k ↦
      subst (λ (p : Connection × Bool). IsOnce p.0) (sym k.1) (notify_disconnect_once-IsOnce c h)
  | inr (inl k) ↦
      subst (λ (p : Connection × Bool). IsOnce p.0) (sym k.3) (notify_inbound_ready-IsOnce _ h)
  | inr (inr (inl k)) ↦
      subst (λ (p : Connection × Bool). IsOnce p.0) (sym k.3) (notify_disconnect_once-IsOnce c h)
  | inr (inr (inr k)) ↦
      subst (λ (p : Connection × Bool). IsOnce p.0) (sym k.2)
        (if_both IsOnce c.has_large_message (perform-IsOnce (call_large_message t payload) c refl h)
          h)
]

parse_loop-IsOnce :
    (f : ℕ) (bytes : List ℕ) (c : Connection) → IsOnce c → IsOnce (parse_loop f bytes c).0
unfolding parse_loop
parse_loop-IsOnce zero bytes c h = h
parse_loop-IsOnce (suc f) bytes c h = elim (Option-cases (next_frame bytes)) [
  | inl e ↦
      subst (λ (p : Connection × Option (List ℕ)). IsOnce p.0)
        (sym (parse_loop-none (suc f) bytes c e)) h
  | inr ((t, size, payload, rest), e) ↦
      let handled = handle_frame t size payload c in
      let one = handle_frame-IsOnce t size payload c h in
      subst (λ (p : Connection × Option (List ℕ)). IsOnce p.0)
        (sym (parse_loop-some f bytes c t size payload rest e))
        (follow handled rest one (parse_loop-IsOnce f rest handled.0 one))
]
  where
    follow :
        (handled : Connection × Bool) (rest : List ℕ)
        → IsOnce handled.0
        → IsOnce (parse_loop f rest handled.0).0
        → IsOnce (go_on f rest handled).0
    follow (c', true) rest one ih = ih
    follow (c', false) rest one ih = one

handle_read-IsOnce :
    (result : ReadResult) (c : Connection) → IsOnce c → IsOnce (handle_read result c)
unfolding handle_read accumulate
handle_read-IsOnce read_error c h = notify_disconnect_once-IsOnce c h
handle_read-IsOnce (bytes_read bytes) c h =
    let start = accumulate bytes c in
    let after = parse_accumulator start in
    let parsed = parse start.in_accum start in
    let one =
      subst IsOnce (sym (parse_accumulator-finish start))
        (ended parsed (parse_loop-IsOnce _ start.in_accum start h)) in
    if_both IsOnce after.disconnect_notified one (perform-IsOnce start_read after refl one)
  where
    ended : (parsed : Connection × Option (List ℕ)) → IsOnce parsed.0 → IsOnce (finish parsed)
    ended (c', none) one = one
    ended (c', some rest) one = one

schedule-IsOnce : (c : Connection) → IsOnce c → IsOnce (schedule_drain_writes c)
unfolding schedule_drain_writes
schedule-IsOnce c h =
    if_both IsOnce c.write_wakeup_pending h
      (perform-IsOnce post_drain (record c { write_wakeup_pending = true }) refl h)

send_message-IsOnce :
    (t : MessageType) (payload : List ℕ) (c : Connection)
    → IsOnce c
    → IsOnce (send_message t payload c)
unfolding send_message
send_message-IsOnce t payload c h =
    let pushed = try_push outbound_q_cap (outbound_message c.id t payload) c.outbound_from_engine in
    if_both IsOnce (ltb max_payload_size_buffer (payload_size_for_type t)) h
      (if_both IsOnce pushed.1 (schedule-IsOnce (record c { outbound_from_engine = pushed.0 }) h) h)

fill_loop-IsOnce : (f : ℕ) (c : Connection) → IsOnce c → IsOnce (fill_loop f c)
unfolding fill_loop fill_loop-one
fill_loop-IsOnce zero c h = h
fill_loop-IsOnce (suc f) c h = elim (Option-cases (peek outbound_q_cap c.outbound_from_engine)) [
  | inl e ↦ subst IsOnce (sym (fill_loop-none (suc f) c e)) h
  | inr (m, e) ↦
      elim (Bool-cases
        (ltb batch_capacity (length c.out_batch + (wire_header_size + m.payload_size)))) [
          | inl over ↦ subst IsOnce (sym (fill_loop-full f m c e (ltb→lt _ _ over))) h
          | inr under ↦
              subst IsOnce (sym (fill_loop-some f m c e (ltb→le _ _ under)))
                (fill_loop-IsOnce f _ h)
        ]
]

write_batch-IsOnce : (c : Connection) → IsOnce c → IsOnce (write_batch c)
unfolding write_batch
write_batch-IsOnce c h =
    perform-IsOnce (start_write (drop c.out_batch_sent c.out_batch))
      (record c { write_in_progress = true }) refl h

fill-IsOnce : (c : Connection) → IsOnce c → IsOnce (fill c)
unfolding fill
fill-IsOnce c h = fill_loop-IsOnce (suc outbound_q_cap) c h

drain_writes-IsOnce : (c : Connection) → IsOnce c → IsOnce (drain_writes c)
unfolding drain_writes
drain_writes-IsOnce c h =
    let filled =
      fill-IsOnce (record c { write_wakeup_pending = false; out_batch = []; out_batch_sent = 0 })
        h in
    if_both IsOnce c.write_in_progress h (if_both IsOnce _ filled (write_batch-IsOnce _ filled))

handle_write-IsOnce :
    (result : WriteResult) (c : Connection) → IsOnce c → IsOnce (handle_write result c)
unfolding handle_write
handle_write-IsOnce write_error c h =
    notify_disconnect_once-IsOnce (record c { write_in_progress = false }) h
handle_write-IsOnce (bytes_written n) c h = elim (handle_write_cases n c) [
  | inl k ↦ subst IsOnce (sym k.1) (write_batch-IsOnce (advanced n c) h)
  | inr (inl k) ↦ subst IsOnce (sym k.1) (drain_writes-IsOnce (finished n c) h)
  | inr (inr (inl k)) ↦ subst IsOnce (sym k.1) (drain_writes-IsOnce (finished_asleep n c) h)
  | inr (inr (inr k)) ↦ subst IsOnce (sym k.3) h
]

Step-IsOnce : {r s : Run} → Step r s → IsOnce r.connection → IsOnce s.connection
Step-IsOnce {r} (send_step t payload) h = send_message-IsOnce t payload r.connection h
Step-IsOnce {r} (drain_step more) h = drain_writes-IsOnce r.connection h
Step-IsOnce {r} (wrote_step n busy few) h = handle_write-IsOnce (bytes_written n) r.connection h
Step-IsOnce {r} (write_failed_step busy) h = handle_write-IsOnce write_error r.connection h
Step-IsOnce {r} (read_step result) h = handle_read-IsOnce result r.connection h
Step-IsOnce {r} ready_step h = run_inbound_ready-IsOnce r.connection h

Reach-IsOnce : {c : Connection} {r : Run} → IsOnce c → Reach c r → IsOnce r.connection
Reach-IsOnce start begun = start
Reach-IsOnce start (later r s) = Step-IsOnce s (Reach-IsOnce start r)

-- In every run of a new connection, whatever fails and however often: the callback `disconnected` has
-- not been called while the connection is not given up, and has been called once at most after that.
pub new_connection-IsOnce :
    {r : Run} (id : ℕ) (inbound : SpscQueue InboundMessage) (outbound : SpscQueue OutboundMessage)
    (disconnected inbound_ready large_message : Bool)
    → Reach (new_connection id inbound outbound disconnected inbound_ready large_message) r
    → ((r.connection.disconnect_notified ≡ false) × (called r.connection.performed ≡ 0))
      ⊎ ((r.connection.disconnect_notified ≡ true) × (called r.connection.performed ≤ 1))
unfolding new_connection
new_connection-IsOnce id inbound outbound d i l reach = Reach-IsOnce (inl (refl, refl)) reach
