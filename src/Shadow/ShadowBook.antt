-- ===== src/Shadow/ShadowBook.antt =====
-- `ShadowOrderBook` of apps/market_simulator/shadow_order_book.hpp.
use financial_exchange.Common.{ℕ, Option, none, some, List, [], ◌∷◌, ltb, if◌then◌else◌, ◌==◌, ℤ}
use financial_exchange.Types.{Side, buy, sell}
use financial_exchange.Protocol.Payloads.{PayloadOrderBookSnapshot, PayloadPriceLevelUpdate}
use financial_exchange.Shadow.Levels.{Levels, find_level, set_level, erase_level}

pub record ShadowOrderBook : Type 0 where
  pub bids : Levels
  pub asks : Levels

-- The loop over the places of the four arrays.
unfoldable pub snapshot_loop : List ℤ → List ℕ → List ℤ → List ℕ → ShadowOrderBook → ShadowOrderBook
snapshot_loop (ask_price ∷ ask_prices) (ask_volume ∷ ask_volumes) (bid_price ∷ bid_prices)
      (bid_volume ∷ bid_volumes) s =
    snapshot_loop ask_prices ask_volumes bid_prices bid_volumes (record {
      asks = if ltb 0 ask_volume then set_level ask_price ask_volume s.asks else s.asks;
      bids = if ltb 0 bid_volume then set_level bid_price bid_volume s.bids else s.bids;
    })
snapshot_loop _ _ _ _ s = s

unfoldable pub on_order_book_snapshot : PayloadOrderBookSnapshot → ShadowOrderBook → ShadowOrderBook
on_order_book_snapshot m s =
    snapshot_loop m.ask_prices m.ask_volumes m.bid_prices m.bid_volumes
      (record { bids = []; asks = [] })

unfoldable pub update_levels : PayloadPriceLevelUpdate → Levels → Levels
update_levels m levels =
    if m.total_volume == 0
    then erase_level m.price levels
    else set_level m.price m.total_volume levels

unfoldable pub update_side : Side → PayloadPriceLevelUpdate → ShadowOrderBook → ShadowOrderBook
update_side buy m s = record s { bids = update_levels m s.bids }
update_side sell m s = record s { asks = update_levels m s.asks }

unfoldable pub on_price_level_update : PayloadPriceLevelUpdate → ShadowOrderBook → ShadowOrderBook
on_price_level_update m s = update_side m.side m s

unfoldable pub first_price : Levels → Option ℤ
first_price [] = none
first_price (e ∷ rest) = some e.0

unfoldable pub last_price : Levels → Option ℤ
last_price [] = none
last_price (e ∷ []) = some e.0
last_price (e ∷ f ∷ rest) = last_price (f ∷ rest)

unfoldable pub best_bid_price : ShadowOrderBook → Option ℤ
best_bid_price s = last_price s.bids

unfoldable pub best_ask_price : ShadowOrderBook → Option ℤ
best_ask_price s = first_price s.asks

abbrev pub levels_of : Side → ShadowOrderBook → Levels
levels_of buy s = s.bids
levels_of sell s = s.asks

unfoldable pub volume_at : Side → ℤ → ShadowOrderBook → ℕ
volume_at side price s = elim (find_level price (levels_of side s)) [ none ↦ 0 | some v ↦ v ]
