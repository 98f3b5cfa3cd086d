-- ===== src/Shadow/Tests.antt =====
-- A copy of a book with two bids and an ask.
use financial_exchange.Common.{ℕ, ◌≡◌, ◌⊎◌, refl, true, none, some, List, [], ◌∷◌, ℤ, pos}
use financial_exchange.Types.{Side, buy, sell}
use financial_exchange.Protocol.Payloads.{PayloadPriceLevelUpdate}
use financial_exchange.Shadow.Levels.{less, find_level}
use financial_exchange.Shadow.ShadowBook.{
  ShadowOrderBook, best_bid_price, best_ask_price, volume_at,
}
use financial_exchange.Shadow.Tracking.{IsShadow, on_updates, last_volume, on_updates-last_volume}
use financial_exchange.Shadow.BestPrices.{best_prices}

abbrev copy : ShadowOrderBook
copy = record { bids = (pos 99, 5) ∷ (pos 100, 2) ∷ []; asks = (pos 101, 4) ∷ [] }

copy-IsShadow : IsShadow copy
unfolding less
copy-IsShadow = (((refl, tt), (tt, tt)), (tt, tt))

-- The bids at 100 go; asks at 103 come.
abbrev updates : List PayloadPriceLevelUpdate
updates =
    record { sequence_number = 1; side = buy; price = pos 100; total_volume = 0; timestamp = 7 }
    ∷ record { sequence_number = 2; side = sell; price = pos 103; total_volume = 6; timestamp = 8 }
    ∷ []

on_updates-last_volume_example :
    IsShadow (on_updates updates copy)
    × ((side : Side) (p : ℤ)
        → volume_at side p (on_updates updates copy)
          ≡ last_volume side p updates (volume_at side p copy))
on_updates-last_volume_example = on_updates-last_volume updates copy copy-IsShadow

best_prices_example :
    (((best_bid_price copy ≡ none) × ((q : ℤ) → volume_at buy q copy ≡ 0))
      ⊎ ((p : ℤ) × (v : ℕ) × (best_bid_price copy ≡ some p)
          × (find_level p copy.bids ≡ some v)
          × ((q : ℤ) → less p q ≡ true → volume_at buy q copy ≡ 0)))
    × (((best_ask_price copy ≡ none) × ((q : ℤ) → volume_at sell q copy ≡ 0))
        ⊎ ((p : ℤ) × (v : ℕ) × (best_ask_price copy ≡ some p)
            × (find_level p copy.asks ≡ some v)
            × ((q : ℤ) → less q p ≡ true → volume_at sell q copy ≡ 0)))
best_prices_example = best_prices copy copy-IsShadow
