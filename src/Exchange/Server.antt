-- ===== src/Exchange/Server.antt =====
-- Accepting connections, the table of connections, and the drain of the inbox: the rest of
-- src/exchange.cpp. What is asked of the acceptor, the strands and the connections is a list.
use Prim.Native.String.{String}
use financial_exchange.Common.{
  ℕ, zero, suc, Bool, true, false, not, ◌&&◌, none, some, List, [], ◌∷◌, ◌++◌, leb, ◌==◌,
  if◌then◌else◌, update, add32,
}
use financial_exchange.Protocol.MessageType.{disconnect, code}
use financial_exchange.Book.Api.{OrderBook, Times}
use financial_exchange.Spsc.Queue.{SpscQueue, try_push, try_pop, size_approx}
use financial_exchange.Connection.Frame.{InboundMessage, inbound_q_cap}
use financial_exchange.Connection.Read.{inbound_message}
use financial_exchange.Exchange.Messages.{Exchange, Output, max_connections}
use financial_exchange.Exchange.Engine.{dispatch}

-- `post_close` and `post_engine_drain` are tasks for a strand; `make_connection` is the constructor of
-- a connection with its callbacks, `begin_read` its `async_read`, `destroy_connection` its destructor.
pub data ServerAction : Type 0 where
  begin_accept : ServerAction
  close_acceptor : ServerAction
  post_close : ServerAction
  post_engine_drain : ServerAction
  make_connection : ℕ → ServerAction
  begin_read : ℕ → ServerAction
  close_connection : ℕ → ServerAction
  destroy_connection : ℕ → ServerAction

-- `clients` are the keys of `clients_`.
pub record Server : Type 0 where
  pub exchange : Exchange
  pub inbox : SpscQueue InboundMessage
  pub running : Bool
  pub engine_drain_scheduled : Bool
  pub acceptor_open : Bool
  pub clients : List ℕ
  pub next_connection_id : ℕ
  pub asked : List ServerAction

-- The constructor.
unfoldable pub new_server : OrderBook → SpscQueue InboundMessage → Server
new_server book inbox = record {
  exchange = record {
    order_book = book;
    connected = λ id. false;
    market_data_subscribers = [];
    trade_id = 0;
    sequence_number = 0;
  };
  inbox = inbox;
  running = false;
  engine_drain_scheduled = false;
  acceptor_open = true;
  clients = [];
  next_connection_id = 0;
  asked = [];
}

unfoldable pub ask : ServerAction → Server → Server
ask a s = record s { asked = s.asked ++ (a ∷ []) }

unfoldable pub ask_each : (ℕ → ServerAction) → List ℕ → Server → Server
unfolding ask
ask_each f [] s = s
ask_each f (id ∷ ids) s = ask_each f ids (ask (f id) s)

unfoldable pub start : Server → Server
start s = ask begin_accept (record s { running = true })

-- The task that `stop` hands to the acceptor's strand.
unfoldable pub run_close : Server → Server
run_close s =
    ask_each close_connection s.clients (ask close_acceptor (record s { acceptor_open = false }))

-- The clients are destroyed as the map is cleared.
unfoldable pub stop : Server → Server
stop s =
    let posted = ask post_close (record s { running = false }) in
    let cleared = record s.exchange { connected = λ id. false; market_data_subscribers = [] } in
    ask_each destroy_connection s.clients (record posted { exchange = cleared; clients = [] })

unfoldable pub schedule_engine_drain : Server → Server
schedule_engine_drain s =
    if s.engine_drain_scheduled
    then s
    else ask post_engine_drain (record s { engine_drain_scheduled = true })

abbrev pub engine_budget : ℕ
engine_budget = 10_000

unfoldable pub member : ℕ → List ℕ → Bool
member id [] = false
member id (x ∷ xs) = if x == id then true else member id xs

unfoldable pub erase : ℕ → List ℕ → List ℕ
erase id [] = []
erase id (x ∷ xs) = if x == id then xs else x ∷ erase id xs

-- An id that is there already is not put in again; one past the table is not published.
unfoldable pub publish_connection : ℕ → Server → Server
publish_connection id s = if leb max_connections id then s else record s {
  clients = if member id s.clients then s.clients else id ∷ s.clients;
  exchange = record s.exchange { connected = update s.exchange.connected id true };
}

pub data AcceptResult : Type 0 where
  accept_aborted : AcceptResult
  accept_failed : AcceptResult
  accepted : AcceptResult

unfoldable pub accept_again : Server → Server
accept_again s = if s.acceptor_open then ask begin_accept s else s

-- The connection of a client that was not published dies as the handler ends.
unfoldable pub on_accepted : AcceptResult → Server → Server
on_accepted accept_aborted s = s
on_accepted accept_failed s = accept_again s
on_accepted accepted s =
    let id = s.next_connection_id in
    let made = ask (make_connection id) (record s { next_connection_id = add32 id 1 }) in
    let again = accept_again (publish_connection id (ask (begin_read id) made)) in
    if leb max_connections id then ask (destroy_connection id) again else again

-- The callback `disconnected` of a connection.
unfoldable pub on_disconnected : ℕ → Server → Server
on_disconnected id s =
    let pushed = try_push inbound_q_cap (inbound_message id (code disconnect) 0 []) s.inbox in
    if pushed.1 then schedule_engine_drain (record s { inbox = pushed.0 }) else s

-- The callback `inbound_ready` of a connection.
unfoldable pub on_inbound_ready : Server → Server
on_inbound_ready s = if not s.running then s else schedule_engine_drain s

-- The task that `remove_connection_` hands to the acceptor's strand.
unfoldable pub run_remove_client : ℕ → Server → Server
run_remove_client id s =
    if member id s.clients
    then ask (destroy_connection id)
        (ask (close_connection id) (record s { clients = erase id s.clients }))
    else s

module _ (text : String → List ℕ) where
  -- The loop of the drain; `now` has the times for each message.
  unfoldable pub run_inbox : ℕ → (ℕ → Times) → Server → Server × List Output
  run_inbox zero now s = (s, [])
  run_inbox (suc budget) now s =
      let popped = try_pop inbound_q_cap s.inbox in
      elim (popped.1) [
        | none ↦ (s, [])
        | some msg ↦
            let done = dispatch text msg (now budget) s.exchange in
            let rest = run_inbox budget now (record s { inbox = popped.0; exchange = done.0 }) in
            (rest.0, done.1 ++ rest.1)
      ]

  -- The task that `schedule_engine_drain` posts.
  unfoldable pub engine_drain : (ℕ → Times) → Server → Server × List Output
  engine_drain now s =
      let drained = run_inbox engine_budget now (record s { engine_drain_scheduled = false }) in
      (
        if s.running && not (size_approx drained.0.inbox == 0)
            then schedule_engine_drain drained.0
            else drained.0,
        drained.1,
      )
