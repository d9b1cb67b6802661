-- ===== src/Trading/PlaceOrder/Updates.antt =====
-- How the service updates the position of an order.
use self_learning_trading_ag.Base.{
  ◌≡◌, refl, ◌⊎◌, inl, inr, Option, none, some, Text, true, if◌then◌else◌, Except, ok, raise,
}
use self_learning_trading_ag.Decimal.{Decimal, lt, zero_dec}
use self_learning_trading_ag.Trading.Position.{Position, empty}
use self_learning_trading_ag.Trading.Order.{OrderStatus, TradeOrder, side_value}
use self_learning_trading_ag.Trading.Order.Lifecycle.{
  IsWellFormed, Records, open_order, filled_at, rejected_for,
}
use self_learning_trading_ag.Trading.Position.Laws.{apply_fill-IsValid}
use self_learning_trading_ag.Trading.Ports.{StoreError}
use self_learning_trading_ag.Trading.PlaceOrder.{
  Escape, store_failed, Ports, is_filled, save_fill, position_before, update_position,
}

module _ (p : Ports) where
  -- The update of the position returns, or raises what the store of the positions raises.
  abbrev pub Updates : Except Escape p.positions.Table → Type 0
  Updates r =
      ((t' : p.positions.Table) × (r ≡ ok t')) ⊎ ((e : StoreError) × (r ≡ raise (store_failed e)))

  save_fill-Updates :
      (o : TradeOrder) (price : Decimal) (before : Position) (t : p.positions.Table)
      → lt zero_dec o.quantity ≡ true
      → lt zero_dec price ≡ true
      → Updates (save_fill p o price before t)
  unfolding save_fill
  save_fill-Updates o price before t a b =
      let (position, applied, _, _, _) =
        apply_fill-IsValid (side_value o.side) o.quantity price before a b in
      rw (applied, save_fill) (by_save (p.positions.save position t))
    where
      by_save :
          (r : Except StoreError p.positions.Table)
          → Updates (elim r [ raise e ↦ raise (store_failed e) | ok t' ↦ ok t' ])
      by_save (raise e) = inr (e, refl)
      by_save (ok t') = inl (t', refl)

  position_before_lem :
      (symbol : Text) (t : p.positions.Table)
      → ((before : Position) × (position_before p symbol t ≡ ok before))
        ⊎ ((e : StoreError) × (position_before p symbol t ≡ raise (store_failed e)))
  unfolding position_before
  position_before_lem symbol t = by_get (p.positions.get symbol t) refl
    where
      by_get :
          (r : Except StoreError (Option Position))
          → p.positions.get symbol t ≡ r
          → ((before : Position) × (position_before p symbol t ≡ ok before))
            ⊎ ((e : StoreError) × (position_before p symbol t ≡ raise (store_failed e)))
      by_get (raise e) h = inr (e, rw (h, position_before) refl)
      by_get (ok none) h = inl (empty symbol, rw (h, position_before) refl)
      by_get (ok (some before)) h = inl (before, rw (h, position_before) refl)

  filled-Updates :
      (o : TradeOrder) (price : Decimal) (t : p.positions.Table)
      → lt zero_dec o.quantity ≡ true
      → lt zero_dec price ≡ true
      → Updates (elim (position_before p o.symbol t) [
        | raise e ↦ raise e
        | ok before ↦ save_fill p o price before t
      ])
  filled-Updates o price t a b = elim (position_before_lem o.symbol t) [
    | inl (before, h) ↦ rw h (save_fill-Updates o price before t a b)
    | inr (e, h) ↦ rw h (inr (e, refl))
  ]

  pub update_position-Updates :
      (o : TradeOrder) (t : p.positions.Table) → IsWellFormed o → Updates (update_position p o t)
  unfolding update_position
  update_position-Updates o t w = by_records o.status o.executed_price o.rejection_reason w.records
    where
      by_records :
          (s : OrderStatus) (e : Option Decimal) (r : Option Text)
          → Records s e r
          → Updates (elim e [
            | none ↦ ok t
            | some price ↦
                if is_filled s
                then elim (position_before p o.symbol t) [
                  | raise x ↦ raise x
                  | ok before ↦ save_fill p o price before t
                ]
                else ok t
          ])
      by_records s e r open_order = inl (t, refl)
      by_records s e r (filled_at price q) = filled-Updates o price t w.quantity_positive q
      by_records s e r (rejected_for reason) = inl (t, refl)
