-- ===== src/Exchange/Tests.antt =====
-- An exchange with one subscriber: the theorems at inputs that meet their hypotheses.
use Prim.Native.String.{String}
use financial_exchange.Common.{
  false, refl, ltb, ◌&&◌, drop, ℕ, ◌+◌, ◌%◌, ◌^◌, ◌≡◌, ◌⊎◌, true, none, List, [], ◌∷◌, arith,
}
use financial_exchange.Types.{buy, invalid_volume}
use financial_exchange.Book.Pool.{Order}
use financial_exchange.Book.Side.{Event, PriceLevel, on_level_update, on_error, on_order_inserted}
use financial_exchange.Book.Api.{new_book, Times}
use financial_exchange.Spsc.Fifo.{Holds}
use financial_exchange.Connection.Frame.{InboundMessage, inbound_q_cap}
use financial_exchange.Exchange.Server.{Server, post_engine_drain, engine_budget, engine_drain}
use financial_exchange.Exchange.Draining.{dispatch_each, engine_drain_lem}
use financial_exchange.Exchange.Accepting.{Accepted, accept_each, accept_each-Accepted}
use financial_exchange.Exchange.Messages.{Exchange}
use financial_exchange.Exchange.Callbacks.{handle_events}
use financial_exchange.Exchange.Engine.{swap_out}
use financial_exchange.Exchange.Numbering.{
  feed_numbers, consecutive, feed_count, handle_events-numbers,
}
use financial_exchange.Exchange.Subscribers.{count, swap_out_cases}

abbrev order : Order
order = record {
  client_id = 1;
  order_id = 7;
  order_handle = 0;
  price = 100;
  quantity = 5;
  quantity_remaining = 5;
  quantity_cumulative = 0;
  is_bid = true;
}

abbrev level : PriceLevel
level = record { first = none; last = none; total_quantity = 5; price = 100; idx = 99 }

abbrev open_exchange : Exchange
open_exchange = record {
  order_book = new_book (λ i. order) (λ i. none);
  connected = λ i. true;
  market_data_subscribers = 3 ∷ [];
  trade_id = 0;
  sequence_number = 4_294_967_295;
}

abbrev no_text : String → List ℕ
no_text s = []

abbrev events : List Event
events =
    on_level_update buy level 9
    ∷ on_error 1 2 invalid_volume "Invalid order size." 9
    ∷ on_order_inserted 2 order 9
    ∷ []

handle_events-numbers_example :
    (feed_numbers (handle_events no_text events open_exchange).1
      ≡ consecutive open_exchange.sequence_number (feed_count events))
    × ((handle_events no_text events open_exchange).0.sequence_number
        ≡ (open_exchange.sequence_number + feed_count events) % 2 ^ 32)
handle_events-numbers_example = handle_events-numbers no_text events open_exchange (omega arith)

swap_out_cases_example :
    let xs : List ℕ = 3 ∷ 5 ∷ 4 ∷ [] in
    ((count 5 xs ≡ 0) × (swap_out 5 xs ≡ xs)) ⊎ ((j : ℕ) → count j (5 ∷ swap_out 5 xs) ≡ count j xs)
swap_out_cases_example = swap_out_cases 5 (3 ∷ 5 ∷ 4 ∷ [])

-- A request to unsubscribe waits in the inbox.
abbrev unsubscribing : InboundMessage
unsubscribing = record { connection_id = 3; message_type = 6; payload_size = 0; payload = [] }

abbrev server : Server
server = record {
  exchange = open_exchange;
  inbox = record { head = 1; tail = 0; buffer = λ i. unsubscribing };
  running = true;
  engine_drain_scheduled = true;
  acceptor_open = true;
  clients = 3 ∷ [];
  next_connection_id = 4;
  asked = [];
}

inbox-Holds : Holds inbound_q_cap server.inbox (unsubscribing ∷ [])
inbox-Holds = (0, refl, refl, omega arith, (refl, tt))

abbrev any_time : ℕ → Times
any_time i = record { request = 1; matching = 2; adding = 3 }

engine_drain_lem_example :
    let r = engine_drain no_text any_time server in
    let each = dispatch_each no_text engine_budget any_time (unsubscribing ∷ []) server.exchange in
    (r.0.exchange ≡ each.0)
    × (r.1 ≡ each.1)
    × Holds inbound_q_cap r.0.inbox (drop engine_budget (unsubscribing ∷ []))
    × (((r.0.engine_drain_scheduled ≡ true) × (r.0.asked ≡ post_engine_drain ∷ []))
        ⊎ ((r.0.engine_drain_scheduled ≡ false)
            × (r.0.asked ≡ [])
            × ((server.running ≡ false)
                ⊎ (◌≡◌ {A = List InboundMessage} (drop engine_budget (unsubscribing ∷ [])) []))))
engine_drain_lem_example = engine_drain_lem no_text any_time (unsubscribing ∷ []) server inbox-Holds

abbrev empty_server : Server
empty_server = record server {
  exchange = record open_exchange { connected = λ i. false };
  next_connection_id = 0;
}

none_below : (id : ℕ) → false ≡ (ltb id 0 && ltb id 32)
none_below id = ground arith

accept_each-Accepted_example : Accepted 40 (accept_each 40 empty_server)
accept_each-Accepted_example = accept_each-Accepted 40 empty_server (omega arith) (refl, none_below)
