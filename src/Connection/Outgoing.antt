-- ===== src/Connection/Outgoing.antt =====
-- What of a connection's state is about writing; reading leaves it as it is.
use financial_exchange.Common.{
  ℕ, zero, suc, ◌+◌, ◌≡◌, refl, ap, ◌∙◌, Bool, true, false, Option, none, some, List, [], ◌∷◌, ◌++◌,
  arith, Option-cases, inl, inr, if◌then◌else◌, not, ◌&&◌,
}
use financial_exchange.Spsc.Queue.{SpscQueue}
use financial_exchange.Connection.Frame.{OutboundMessage, next_frame}
use financial_exchange.Connection.State.{
  Action, start_read, start_write, write_unbuffered, post_drain, post_inbound_ready, close_socket,
  call_disconnected, call_inbound_ready, call_large_message, Connection, perform, close,
  notify_disconnect_once, notify_inbound_ready, run_inbound_ready,
}
use financial_exchange.Connection.Read.{
  handle_frame, parse_loop, parse_accumulator, accumulate, handle_read, ReadResult, read_error,
  bytes_read,
}
use financial_exchange.Connection.Handling.{handle_frame_cases}
use financial_exchange.Connection.Chunks.{parse, go_on, parse_loop-none, parse_loop-some}
use financial_exchange.Connection.Receive.{finish, parse_accumulator-finish}

-- Whether an action posts the task that drains the queue, and how many of a sequence do.
abbrev pub posts : Action → ℕ
posts start_read = 0
posts (start_write bytes) = 0
posts (write_unbuffered bytes) = 0
posts post_drain = 1
posts post_inbound_ready = 0
posts close_socket = 0
posts call_disconnected = 0
posts call_inbound_ready = 0
posts (call_large_message t payload) = 0

abbrev pub posted : List Action → ℕ
posted [] = 0
posted (a ∷ acts) = posts a + posted acts

pub posted-snoc :
    (acts : List Action) (a : Action) → posted (acts ++ (a ∷ [])) ≡ posted acts + posts a
posted-snoc [] a = omega arith
posted-snoc (b ∷ acts) a = omega (arith, posted-snoc acts a)

pub record Outgoing : Type 0 where
  pub queue : SpscQueue OutboundMessage
  pub batch : List ℕ
  pub sent : ℕ
  pub writing : Bool
  pub woken : Bool
  pub drains : ℕ

abbrev pub outgoing : Connection → Outgoing
outgoing c = record {
  queue = c.outbound_from_engine;
  batch = c.out_batch;
  sent = c.out_batch_sent;
  writing = c.write_in_progress;
  woken = c.write_wakeup_pending;
  drains = posted c.performed;
}

-- An action that posts no drain changes nothing of it.
pub outgoing-perform :
    (a : Action) (c : Connection) → posts a ≡ 0 → outgoing (perform a c) ≡ outgoing c
unfolding perform
outgoing-perform a c e =
    ap (λ n. record (outgoing c) { drains = n }) (posted-snoc c.performed a ∙ omega (arith, e))

pub outgoing-disconnect : (c : Connection) → outgoing (notify_disconnect_once c) ≡ outgoing c
unfolding notify_disconnect_once close
outgoing-disconnect c = by_flags c.disconnect_notified c.has_disconnected
  where
    by_flags :
        (b d : Bool)
        → let closed = perform close_socket (record c { disconnect_notified = true }) in
          outgoing (if b then c else (if d then perform call_disconnected closed else closed))
          ≡ outgoing c
    by_flags true d = refl
    by_flags false true =
        let told = record c { disconnect_notified = true } in
        outgoing-perform call_disconnected (perform close_socket told) refl
        ∙ outgoing-perform close_socket told refl
    by_flags false false =
        outgoing-perform close_socket (record c { disconnect_notified = true }) refl

pub outgoing-ready : (c : Connection) → outgoing (notify_inbound_ready c) ≡ outgoing c
unfolding notify_inbound_ready
outgoing-ready c = by_flags (not c.has_inbound_ready) c.inbound_ready_pending
  where
    by_flags :
        (b d : Bool)
        → outgoing (
            if b
            then c
            else (if d
                then c
                else perform post_inbound_ready (record c { inbound_ready_pending = true })))
          ≡ outgoing c
    by_flags true d = refl
    by_flags false true = refl
    by_flags false false =
        outgoing-perform post_inbound_ready (record c { inbound_ready_pending = true }) refl

pub outgoing-run_ready : (c : Connection) → outgoing (run_inbound_ready c) ≡ outgoing c
unfolding run_inbound_ready
outgoing-run_ready c = by_flag (c.has_inbound_ready && not c.disconnect_notified)
  where
    by_flag :
        (b : Bool)
        → let cleared = record c { inbound_ready_pending = false } in
          outgoing (if b then perform call_inbound_ready cleared else cleared) ≡ outgoing c
    by_flag true =
        outgoing-perform call_inbound_ready (record c { inbound_ready_pending = false }) refl
    by_flag false = refl

outgoing-handle_frame :
    (t size : ℕ) (payload : List ℕ) (c : Connection)
    → outgoing (handle_frame t size payload c).0 ≡ outgoing c
outgoing-handle_frame t size payload c = elim (handle_frame_cases t size payload c) [
  | inl k ↦ ap (λ k. outgoing k.0) k.1 ∙ outgoing-disconnect c
  | inr (inl k) ↦ ap (λ k. outgoing k.0) k.3 ∙ outgoing-ready _
  | inr (inr (inl k)) ↦ ap (λ k. outgoing k.0) k.3 ∙ outgoing-disconnect c
  | inr (inr (inr k)) ↦ ap (λ k. outgoing k.0) k.2 ∙ called c.has_large_message
]
  where
    called :
        (b : Bool)
        → outgoing (if b then perform (call_large_message t payload) c else c) ≡ outgoing c
    called true = outgoing-perform (call_large_message t payload) c refl
    called false = refl

outgoing-parse_loop :
    (f : ℕ) (bytes : List ℕ) (c : Connection) → outgoing (parse_loop f bytes c).0 ≡ outgoing c
unfolding parse_loop
outgoing-parse_loop zero bytes c = refl
outgoing-parse_loop (suc f) bytes c = elim (Option-cases (next_frame bytes)) [
  | inl e ↦ ap (λ k. outgoing k.0) (parse_loop-none (suc f) bytes c e)
  | inr ((t, size, payload, rest), e) ↦
      let handled = handle_frame t size payload c in
      ap (λ k. outgoing k.0) (parse_loop-some f bytes c t size payload rest e)
      ∙ follow handled rest (outgoing-parse_loop f rest handled.0)
      ∙ outgoing-handle_frame t size payload c
]
  where
    follow :
        (handled : Connection × Bool) (rest : List ℕ)
        → outgoing (parse_loop f rest handled.0).0 ≡ outgoing handled.0
        → outgoing (go_on f rest handled).0 ≡ outgoing handled.0
    follow (c', true) rest ih = ih
    follow (c', false) rest ih = refl

-- Reading leaves all that is about writing as it is.
pub outgoing-handle_read :
    (result : ReadResult) (c : Connection) → outgoing (handle_read result c) ≡ outgoing c
unfolding handle_read accumulate
outgoing-handle_read read_error c = outgoing-disconnect c
outgoing-handle_read (bytes_read bytes) c =
    let start = accumulate bytes c in
    let after = parse_accumulator start in
    next_read after.disconnect_notified after
    ∙ ap outgoing (parse_accumulator-finish start)
    ∙ finished (parse start.in_accum start)
    ∙ outgoing-parse_loop _ start.in_accum start
  where
    next_read :
        (b : Bool) (after : Connection)
        → outgoing (if b then after else perform start_read after) ≡ outgoing after
    next_read true after = refl
    next_read false after = outgoing-perform start_read after refl

    finished :
        (parsed : Connection × Option (List ℕ)) → outgoing (finish parsed) ≡ outgoing parsed.0
    finished (c', none) = refl
    finished (c', some rest) = refl
