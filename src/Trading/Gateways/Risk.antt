-- ===== src/Trading/Gateways/Risk.antt =====
-- app/modules/trading/infrastructure/risk.py: the risk service as the trading slice's gate.
use self_learning_trading_ag.Base.{Bool, none, some, Text}
use self_learning_trading_ag.Int.{pos}
use self_learning_trading_ag.Decimal.{Decimal, zero_dec, of_int, div}
use self_learning_trading_ag.Risk.Store.{Codecs}
use self_learning_trading_ag.Risk.Service.{RiskState, check_order}
use self_learning_trading_ag.Trading.Ports.{RiskGate}

-- `notional / equity if equity else Decimal("1")`: the division is by zero exactly where the
-- source does not divide.
unfoldable pub position_pct : Decimal → Decimal → Decimal
position_pct notional equity = elim (div notional equity) [ none ↦ of_int (pos 1) | some pct ↦ pct ]

module _ (c : Codecs) where
  -- `RiskServiceAdapter.authorize`; the daily loss is always zero.
  unfoldable pub authorize : Text → Decimal → Decimal → RiskState → (Bool × Text) × RiskState
  authorize symbol notional equity s =
      let (decision, s') =
        check_order c symbol notional equity zero_dec (position_pct notional equity) s in
      ((decision.approved, decision.reason), s')

  abbrev pub risk_gate : RiskGate
  risk_gate = record { State = RiskState; authorize = authorize }
