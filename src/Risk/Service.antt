-- ===== src/Risk/Service.antt =====
-- app/modules/risk/application/services.py: the risk gates.
pub mod Gates
pub mod Switch
use self_learning_trading_ag.Base.{
  Bool, true, false, not, ◌&&◌, ◌||◌, Option, none, some, List, [], ◌∷◌, ◌++◌, Text, text, is_empty,
  if◌then◌else◌,
}
use self_learning_trading_ag.Int.{pos}
use self_learning_trading_ag.Decimal.{Decimal, of_int, mul, lt}
use self_learning_trading_ag.Risk.Entities.{
  RiskProfile, RiskDecision, KillSwitchState, RiskEvent, risk_breached, kill_switch_triggered,
}
use self_learning_trading_ag.Risk.Store.{
  Codecs, Redis, get_profile, save_profile, get_kill_switch, set_kill_switch,
}

-- The store, and the events published so far, the newest last.
pub record RiskState : Type 0 where
  pub redis : Redis
  pub published : List RiskEvent

abbrev pub publish : RiskEvent → RiskState → RiskState
publish e s = record s { published = s.published ++ (e ∷ []) }

-- `reason or default`
abbrev pub reason_or : Option Text → Text → Text
reason_or none default = default
reason_or (some reason) default = if is_empty reason then default else reason

abbrev pub refuse : Text → RiskDecision
refuse reason = record { approved = false; reason = reason }

-- `Decimal("1.5")`
abbrev pub margin : Decimal
margin = record { coeff = pos 15; scale = 1 }

-- The test in `_breach_notify`.
unfoldable pub is_breach : Decimal → Decimal → RiskProfile → Bool
is_breach position_pct daily_loss profile =
    lt (mul profile.max_position_pct margin) position_pct
    || lt (mul profile.max_daily_loss_pct margin) daily_loss

-- `_breach_notify`: what it returns, and the state with the event that it may publish.
unfoldable pub breach_notify : Text → Decimal → Decimal → RiskProfile → RiskState → Bool × RiskState
breach_notify symbol position_pct daily_loss profile s =
    if is_breach position_pct daily_loss profile
    then (not profile.failed_closed, publish (risk_breached symbol (text "posture_breach")) s)
    else (false, s)

-- The gates after the kill switch, in order.
unfoldable pub check_profile :
    Text → Decimal → Decimal → RiskProfile → RiskState → RiskDecision × RiskState
check_profile symbol daily_loss position_pct profile s =
    if not profile.allow_leverage && lt (of_int (pos 1)) position_pct
    then (refuse (text "leverage_disabled"), s)
    else if lt profile.max_position_pct position_pct
    then (refuse (text "max_position_exceeded"), s)
    else if lt profile.max_daily_loss_pct daily_loss
    then (refuse (text "daily_loss_exceeded"), s)
    else let (breached, s') = breach_notify symbol position_pct daily_loss profile s in
      if breached
      then (refuse (text "posture_breach"), s')
      else (record { approved = true; reason = text "ok" }, s')

module _ (c : Codecs) where
  -- `get_profile` and `set_profile` of the service.
  unfoldable pub service_profile : RiskState → RiskProfile
  service_profile s = get_profile c s.redis

  unfoldable pub set_profile : RiskProfile → RiskState → RiskProfile × RiskState
  set_profile profile s = (profile, record s { redis = save_profile c profile s.redis })

  -- `check_order`; like the source it reads neither the notional nor the equity.
  unfoldable pub check_order :
      (symbol : Text) (notional equity daily_loss position_pct : Decimal)
      → RiskState
      → RiskDecision × RiskState
  check_order symbol notional equity daily_loss position_pct s =
      let state = get_kill_switch c s.redis in
      if state.active
      then (refuse (text "kill_switch: " ++ reason_or state.reason (text "active")), s)
      else check_profile symbol daily_loss position_pct (get_profile c s.redis) s

  -- `kill_switch`
  unfoldable pub kill_switch : Bool → Option Text → RiskState → KillSwitchState × RiskState
  kill_switch active reason s =
      let state : KillSwitchState = record { active = active; reason = reason } in
      let s' : RiskState = record s { redis = set_kill_switch c state s.redis } in
      (
        state,
        if active
            then publish (kill_switch_triggered (reason_or reason (text "manual"))) s'
            else s',
      )
