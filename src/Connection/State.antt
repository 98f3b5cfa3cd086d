-- ===== src/Connection/State.antt =====
-- What a `Connection` keeps, what it asks of the sockets and of its owner, and the notifications.
-- The two queues are shared with the engine; they stand in the state for a call's time.
use financial_exchange.Common.{
  ℕ, ◌*◌, Bool, true, false, not, ◌&&◌, List, [], ◌∷◌, ◌++◌, if◌then◌else◌,
}
use financial_exchange.Spsc.Queue.{SpscQueue}
use financial_exchange.Connection.Frame.{InboundMessage, OutboundMessage}

-- In the order of the calls: a socket read or write is begun (a write with the bytes handed over),
-- a task is posted to the strand, a callback is called, the socket is closed.
pub data Action : Type 0 where
  start_read : Action
  start_write : List ℕ → Action
  write_unbuffered : List ℕ → Action
  post_drain : Action
  post_inbound_ready : Action
  close_socket : Action
  call_disconnected : Action
  call_inbound_ready : Action
  call_large_message : ℕ → List ℕ → Action

-- `accum_size` is the size of the vector `in_accum_`, and `in_accum` its first `in_used_` bytes;
-- `out_batch` is the first `out_batch_len_` bytes of that array. `has_` says which callbacks are set.
pub record Connection : Type 0 where
  pub id : ℕ
  pub inbound_to_engine : SpscQueue InboundMessage
  pub outbound_from_engine : SpscQueue OutboundMessage
  pub accum_size : ℕ
  pub in_accum : List ℕ
  pub out_batch : List ℕ
  pub out_batch_sent : ℕ
  pub write_in_progress : Bool
  pub write_wakeup_pending : Bool
  pub disconnect_notified : Bool
  pub inbound_ready_pending : Bool
  pub has_disconnected : Bool
  pub has_inbound_ready : Bool
  pub has_large_message : Bool
  pub performed : List Action

unfoldable pub perform : Action → Connection → Connection
perform a c = record c { performed = c.performed ++ (a ∷ []) }

unfoldable pub close : Connection → Connection
unfolding perform
close c = perform close_socket c

unfoldable pub notify_disconnect_once : Connection → Connection
unfolding perform close
notify_disconnect_once c =
    if c.disconnect_notified
    then c
    else let closed = close (record c { disconnect_notified = true }) in
      if c.has_disconnected then perform call_disconnected closed else closed

unfoldable pub notify_inbound_ready : Connection → Connection
unfolding perform
notify_inbound_ready c =
    if not c.has_inbound_ready
    then c
    else if c.inbound_ready_pending
    then c
    else perform post_inbound_ready (record c { inbound_ready_pending = true })

-- The task that `notify_inbound_ready_` posts.
unfoldable pub run_inbound_ready : Connection → Connection
unfolding perform
run_inbound_ready c =
    let cleared = record c { inbound_ready_pending = false } in
    if c.has_inbound_ready && not c.disconnect_notified
    then perform call_inbound_ready cleared
    else cleared

abbrev pub read_size : ℕ
read_size = 65_535

-- The constructor, with the callbacks that the owner sets.
unfoldable pub new_connection :
    ℕ → SpscQueue InboundMessage → SpscQueue OutboundMessage → Bool → Bool → Bool → Connection
new_connection id inbound outbound disconnected inbound_ready large_message = record {
  id = id;
  inbound_to_engine = inbound;
  outbound_from_engine = outbound;
  accum_size = read_size * 2;
  in_accum = [];
  out_batch = [];
  out_batch_sent = 0;
  write_in_progress = false;
  write_wakeup_pending = false;
  disconnect_notified = false;
  inbound_ready_pending = false;
  has_disconnected = disconnected;
  has_inbound_ready = inbound_ready;
  has_large_message = large_message;
  performed = [];
}
