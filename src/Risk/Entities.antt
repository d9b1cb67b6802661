-- ===== src/Risk/Entities.antt =====
-- app/modules/risk/domain/entities.py
use self_learning_trading_ag.Base.{Bool, true, false, Option, none, Text}
use self_learning_trading_ag.Int.{pos}
use self_learning_trading_ag.Decimal.{Decimal}

pub record RiskProfile : Type 0 where
  pub max_position_pct : Decimal
  pub max_daily_loss_pct : Decimal
  pub max_drawdown_pct : Decimal
  pub allow_leverage : Bool
  pub failed_closed : Bool

-- `RiskProfile()`
abbrev pub default_profile : RiskProfile
default_profile = record {
  max_position_pct = record { coeff = pos 10; scale = 2 };
  max_daily_loss_pct = record { coeff = pos 2; scale = 2 };
  max_drawdown_pct = record { coeff = pos 15; scale = 2 };
  allow_leverage = false;
  failed_closed = true;
}

pub record RiskDecision : Type 0 where
  pub approved : Bool
  pub reason : Text

pub record KillSwitchState : Type 0 where
  pub active : Bool
  pub reason : Option Text

-- `KillSwitchState()`
abbrev pub default_switch : KillSwitchState
default_switch = record { active = false; reason = none }

-- The events that the risk service publishes, `RiskBreached` and `KillSwitchTriggered`.
pub data RiskEvent : Type 0 where
  risk_breached : (symbol reason : Text) → RiskEvent
  kill_switch_triggered : (reason : Text) → RiskEvent
