-- ===== src/Trading/PlaceOrder/Gate.antt =====
-- The service over the risk service: what the risk gate lets through to the exchange.
use self_learning_trading_ag.Base.{
  ℕ, ◌≡◌, refl, ◌⊎◌, inl, inr, true, false, not, ◌&&◌, ◌||◌, none, Text, text, ◌++◌, ok, arith,
  Bool-cases,
}
use self_learning_trading_ag.Core.Result.{ok_result, err_result}
use self_learning_trading_ag.Int.{pos}
use self_learning_trading_ag.Decimal.{Decimal, mul, lt, zero_dec, of_int}
use self_learning_trading_ag.Risk.Store.{Codecs, get_profile, get_kill_switch}
use self_learning_trading_ag.Risk.Service.{RiskState, reason_or, check_order}
use self_learning_trading_ag.Risk.Service.Gates.{
  within, check_profile-approved, check_profile-nonneg,
}
use self_learning_trading_ag.Trading.Order.{TradeOrder}
use self_learning_trading_ag.Trading.Ports.{
  OrderRepository, PositionRepository, OrderGateway, EventPublisher,
}
use self_learning_trading_ag.Trading.Gateways.Risk.{position_pct, authorize, risk_gate}
use self_learning_trading_ag.Trading.PlaceOrder.{
  PlaceOrderCommand, risk_rejected, Ports, World, place, execute,
}

module _ (k : Codecs) (symbol : Text) (notional equity : Decimal) (s : RiskState) where
  -- The risk adapter approves an order only while the switch is released and only if it keeps the
  -- three limits, with a daily loss of zero.
  authorize-approved :
      (authorize k symbol notional equity s).0.0 ≡ true
      → ((get_kill_switch k s.redis).active ≡ false)
        × (within zero_dec (position_pct notional equity) (get_profile k s.redis) ≡ true)
  unfolding authorize check_order
  authorize-approved e = elim (Bool-cases (get_kill_switch k s.redis).active) [
    | inl active ↦ absurd (ground arith)
    | inr released ↦ (
      released,
      ground (
        arith,
        check_profile-approved symbol zero_dec (position_pct notional equity)
            (get_profile k s.redis) s,
      ),
    )
  ]

  -- Under limits that are not negative the adapter approves exactly an order that comes while the
  -- switch is released, keeps the limit on the share of the equity, and needs no leverage that the
  -- profile forbids: the limits on the daily loss and on the drawdown decide nothing, and no event
  -- is published.
  pub authorize-nonneg :
      lt (get_profile k s.redis).max_position_pct zero_dec ≡ false
      → lt (get_profile k s.redis).max_daily_loss_pct zero_dec ≡ false
      → ((authorize k symbol notional equity s).0.0 ≡ (
          not (get_kill_switch k s.redis).active
          && ((get_profile k s.redis).allow_leverage
              || not (lt (of_int (pos 1)) (position_pct notional equity)))
          && not (lt (get_profile k s.redis).max_position_pct (position_pct notional equity))))
        × ((authorize k symbol notional equity s).1 ≡ s)
  unfolding authorize check_order
  authorize-nonneg hp hl = ground (
    arith,
    check_profile-nonneg symbol zero_dec (position_pct notional equity) (get_profile k s.redis) s hp
        hl,
  )

module _ (k : Codecs) (orders : OrderRepository) (gateway : OrderGateway)
    (positions : PositionRepository) (publisher : EventPublisher) where
  -- The service as the program wires it, with the risk service as its gate.
  abbrev pub guarded : Ports
  guarded = record {
    orders = orders;
    gateway = gateway;
    risk = risk_gate k;
    positions = positions;
    publisher = publisher;
  }

  -- The share of the equity that a command asks for.
  abbrev pub share : PlaceOrderCommand → Decimal
  share c = position_pct (mul c.quantity c.price) c.equity

  module _ (id now : ℕ) (c : PlaceOrderCommand) (w : World guarded)
      (fresh : orders.get_by_client_order_id c.client_order_id w.orders ≡ ok none) where
    -- While the kill switch is set, a new command is refused with the reason of the switch, and
    -- nothing at all changes: neither the books nor the exchange nor the risk state.
    pub execute-kill_switch :
        (get_kill_switch k w.risk.redis).active ≡ true
        → execute guarded id now c w ≡ (
          ok (
              err_result (
                risk_rejected (
                  text "kill_switch: "
                  ++ reason_or (get_kill_switch k w.risk.redis).reason (text "active")))),
          w,
        )
    unfolding execute place authorize check_order
    execute-kill_switch active = rw (fresh, execute) (rw active)

    placed-allowed :
        {o : TradeOrder} {w' : World guarded}
        → execute guarded id now c w ≡ (ok (ok_result o), w')
        → (authorize k c.symbol (mul c.quantity c.price) c.equity w.risk).0.0 ≡ true
    unfolding execute place
    placed-allowed e =
        let ((allowed, reason), risk) =
          authorize k c.symbol (mul c.quantity c.price) c.equity w.risk in
        elim (Bool-cases allowed) [
          | inl passed ↦ passed
          | inr stopped ↦
              let refused : execute guarded id now c w
                  ≡ (ok (err_result (risk_rejected reason)), record w { risk = risk }) =
                rw (fresh, execute) (rw stopped refl) in
              cc
        ]

    -- An order is placed only while the switch is released, only within the profile's limit on the
    -- share of the equity, and only without leverage unless the profile allows it.
    pub execute-within :
        {o : TradeOrder} {w' : World guarded}
        → execute guarded id now c w ≡ (ok (ok_result o), w')
        → ((get_kill_switch k w.risk.redis).active ≡ false)
          × (lt (get_profile k w.risk.redis).max_position_pct (share c) ≡ false)
          × (((get_profile k w.risk.redis).allow_leverage ≡ true)
              ⊎ (lt (of_int (pos 1)) (share c) ≡ false))
    execute-within e =
        let (released, kept) =
          authorize-approved k c.symbol (mul c.quantity c.price) c.equity w.risk
            (placed-allowed e) in
        (released, ground arith, ground arith)
