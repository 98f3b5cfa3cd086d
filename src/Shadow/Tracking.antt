-- ===== src/Shadow/Tracking.antt =====
-- The copy of the book says what the updates said.
use financial_exchange.Common.{
  ℕ, ◌≡◌, refl, sym, ap, ◌∙◌, inl, inr, Bool, true, false, Option, none, some, List, [], ◌∷◌,
  Bool-cases, if◌then◌else◌, if_true, if_false, if_both, ◌==◌, ==→eq, ℤ,
}
use financial_exchange.Types.{Side, buy, sell}
use financial_exchange.Protocol.Payloads.{PayloadPriceLevelUpdate}
use financial_exchange.Shadow.Levels.{Levels, same_price, find_level, IsLevels}
use financial_exchange.Shadow.Keeping.{
  find_level-set_level, find_level-erase_level, set_level-IsLevels, erase_level-IsLevels,
}
use financial_exchange.Shadow.ShadowBook.{
  ShadowOrderBook, update_levels, update_side, on_price_level_update, volume_at,
}

abbrev pub IsShadow : ShadowOrderBook → Type 0
IsShadow s = IsLevels s.bids × IsLevels s.asks

volume_of : Option ℕ → ℕ
volume_of o = elim o [ none ↦ 0 | some v ↦ v ]

-- Whether an update is about a price of a side.
unfoldable pub is_about : Side → ℤ → PayloadPriceLevelUpdate → Bool
is_about buy p m = elim (m.side) [ buy ↦ same_price p m.price | sell ↦ false ]
is_about sell p m = elim (m.side) [ buy ↦ false | sell ↦ same_price p m.price ]

update_levels-volume_of :
    (m : PayloadPriceLevelUpdate) (p : ℤ) (l : Levels)
    → IsLevels l
    → volume_of (find_level p (update_levels m l))
      ≡ (if same_price p m.price then m.total_volume else volume_of (find_level p l))
unfolding update_levels volume_of
update_levels-volume_of m p l ok = elim (Bool-cases (m.total_volume == 0)) [
  | inl e ↦
      ap (λ k. volume_of (find_level p k)) (if_true _ _ _ e)
      ∙ ap volume_of (find_level-erase_level m.price p l ok)
      ∙ by_flag (same_price p m.price) none (sym (==→eq m.total_volume 0 e))
  | inr e ↦
      ap (λ k. volume_of (find_level p k)) (if_false _ _ _ e)
      ∙ ap volume_of (find_level-set_level m.price p m.total_volume l)
      ∙ by_flag (same_price p m.price) (some m.total_volume) refl
]
  where
    by_flag :
        (b : Bool) (v : Option ℕ)
        → volume_of v ≡ m.total_volume
        → volume_of (if b then v else find_level p l)
          ≡ (if b then m.total_volume else volume_of (find_level p l))
    by_flag true v h = h
    by_flag false v h = refl

update_levels-IsLevels :
    (m : PayloadPriceLevelUpdate) (l : Levels) → IsLevels l → IsLevels (update_levels m l)
unfolding update_levels
update_levels-IsLevels m l ok =
    if_both IsLevels (m.total_volume == 0) (erase_level-IsLevels m.price l ok)
      (set_level-IsLevels m.price m.total_volume l ok)

on_price_level_update-IsShadow :
    (m : PayloadPriceLevelUpdate) (s : ShadowOrderBook)
    → IsShadow s
    → IsShadow (on_price_level_update m s)
unfolding on_price_level_update update_side
on_price_level_update-IsShadow m s ok = by_side m.side
  where
    by_side : (side : Side) → IsShadow (update_side side m s)
    by_side buy = (update_levels-IsLevels m s.bids ok.0, ok.1)
    by_side sell = (ok.0, update_levels-IsLevels m s.asks ok.1)

volume_at-on_price_level_update :
    (side : Side) (p : ℤ) (m : PayloadPriceLevelUpdate) (s : ShadowOrderBook)
    → IsShadow s
    → volume_at side p (on_price_level_update m s)
      ≡ (if is_about side p m then m.total_volume else volume_at side p s)
unfolding on_price_level_update update_side volume_at is_about volume_of
volume_at-on_price_level_update buy p m s ok = by_side m.side
  where
    by_side :
        (side : Side)
        → volume_of (find_level p (update_side side m s).bids) ≡ (
            if elim side as (λ x. Bool) [ buy ↦ same_price p m.price | sell ↦ false ]
            then m.total_volume
            else volume_of (find_level p s.bids))
    by_side buy = update_levels-volume_of m p s.bids ok.0
    by_side sell = refl
volume_at-on_price_level_update sell p m s ok = by_side m.side
  where
    by_side :
        (side : Side)
        → volume_of (find_level p (update_side side m s).asks) ≡ (
            if elim side as (λ x. Bool) [ buy ↦ false | sell ↦ same_price p m.price ]
            then m.total_volume
            else volume_of (find_level p s.asks))
    by_side buy = refl
    by_side sell = update_levels-volume_of m p s.asks ok.1

-- A sequence of updates.
unfoldable pub on_updates : List PayloadPriceLevelUpdate → ShadowOrderBook → ShadowOrderBook
on_updates [] s = s
on_updates (m ∷ ms) s = on_updates ms (on_price_level_update m s)

-- The volume that the last update about a price said, or the volume before.
unfoldable pub last_volume : Side → ℤ → List PayloadPriceLevelUpdate → ℕ → ℕ
last_volume side p [] old = old
last_volume side p (m ∷ ms) old =
    last_volume side p ms (if is_about side p m then m.total_volume else old)

-- For a copy whose maps are in order: after any sequence of level updates they are so still, and the
-- volume of a side at a price is what the last update about it said, 0 included, or else what it was.
pub on_updates-last_volume :
    (ms : List PayloadPriceLevelUpdate) (s : ShadowOrderBook)
    → IsShadow s
    → IsShadow (on_updates ms s)
      × ((side : Side) (p : ℤ)
          → volume_at side p (on_updates ms s) ≡ last_volume side p ms (volume_at side p s))
unfolding on_updates last_volume
on_updates-last_volume [] s ok = (ok, λ side p. refl)
on_updates-last_volume (m ∷ ms) s ok =
    let rest =
      on_updates-last_volume ms (on_price_level_update m s)
        (on_price_level_update-IsShadow m s ok) in
    (
      rest.0,
      λ side p.
          rest.1 side p
          ∙ ap (last_volume side p ms) (volume_at-on_price_level_update side p m s ok),
    )
