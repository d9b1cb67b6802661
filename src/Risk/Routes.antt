-- ===== src/Risk/Routes.antt =====
-- app/modules/risk/presentation: the routes over the risk service, which ask for no user. An
-- amount that is not finite is not modelled, and refused like one that is no decimal.
use self_learning_trading_ag.Base.{Option, none, some, Bool, Text, if◌then◌else◌}
use self_learning_trading_ag.Int.{pos}
use self_learning_trading_ag.Decimal.{Decimal, zero_dec, is_zero, div}
use self_learning_trading_ag.Core.Answers.{Reply, replied, exception}
use self_learning_trading_ag.MarketData.Vendors.{decimal_of_text}
use self_learning_trading_ag.Risk.Entities.{RiskProfile, RiskDecision, KillSwitchState}
use self_learning_trading_ag.Risk.Store.{Codecs}
use self_learning_trading_ag.Risk.Service.{
  RiskState, service_profile, set_profile, check_order, kill_switch,
}

-- `Decimal(notional) / Decimal(equity) if Decimal(equity) else Decimal("0")`
unfoldable pub asked_pct : (notional equity : Decimal) → Decimal
asked_pct notional equity =
    if is_zero equity
    then zero_dec
    else elim (div notional equity) [ some pct ↦ pct | none ↦ zero_dec ]

module _ (c : Codecs) where
  -- `GET /risk/profile`
  unfoldable pub profile_route : RiskState → RiskProfile
  profile_route s = service_profile c s

  -- `PUT /risk/profile`
  unfoldable pub set_profile_route : RiskProfile → RiskState → RiskProfile × RiskState
  set_profile_route profile s = set_profile c profile s

  -- `POST /risk/check`: with a daily loss of 0.001, whatever it was.
  unfoldable pub check_route :
      (symbol notional equity : Text) → RiskState → Reply RiskDecision × RiskState
  check_route symbol notional equity s = elim (decimal_of_text notional) [
    | none ↦ (exception, s)
    | some n ↦ elim (decimal_of_text equity) [
      | none ↦ (exception, s)
      | some e ↦
          let (decision, s') =
            check_order c symbol n e (record { coeff = pos 1; scale = 3 }) (asked_pct n e) s in
          (replied decision, s')
    ]
  ]

  -- `PUT /risk/kill-switch`
  unfoldable pub kill_switch_route :
      (active : Bool) (reason : Option Text) → RiskState → KillSwitchState × RiskState
  kill_switch_route active reason s = kill_switch c active reason s
