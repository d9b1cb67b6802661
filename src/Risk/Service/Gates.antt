-- ===== src/Risk/Service/Gates.antt =====
-- When the gates of the profile approve an order, and what they publish.
use self_learning_trading_ag.Base.{
  ◌≡◌, Bool, true, false, not, ◌&&◌, ◌||◌, Text, text, arith, if◌then◌else◌,
}
use self_learning_trading_ag.Int.{pos}
use self_learning_trading_ag.Decimal.{Decimal, of_int, zero_dec, lt, lt-margin}
use self_learning_trading_ag.Risk.Entities.{RiskProfile, risk_breached}
use self_learning_trading_ag.Risk.Service.{
  RiskState, publish, is_breach, breach_notify, check_profile,
}

-- The three plain limits, as one test.
abbrev pub within : Decimal → Decimal → RiskProfile → Bool
within daily_loss position_pct profile =
    (profile.allow_leverage || not (lt (of_int (pos 1)) position_pct))
    && not (lt profile.max_position_pct position_pct)
    && not (lt profile.max_daily_loss_pct daily_loss)

-- The gates approve exactly an order that keeps the three limits and either is no breach or is
-- checked under a profile that has `failed_closed`; they publish a breach exactly for an order
-- that keeps the limits and is a breach.
pub check_profile-approved :
    (symbol : Text) (daily_loss position_pct : Decimal) (profile : RiskProfile) (s : RiskState)
    → let (decision, s') = check_profile symbol daily_loss position_pct profile s in
      (decision.approved ≡ (
        within daily_loss position_pct profile
        && (not (is_breach position_pct daily_loss profile) || profile.failed_closed)))
      × (s' ≡ (
          if within daily_loss position_pct profile && is_breach position_pct daily_loss profile
          then publish (risk_breached symbol (text "posture_breach")) s
          else s))
unfolding check_profile breach_notify
check_profile-approved symbol daily_loss position_pct profile s = ground arith

within-no_breach :
    (daily_loss position_pct : Decimal) (profile : RiskProfile)
    → lt profile.max_position_pct zero_dec ≡ false
    → lt profile.max_daily_loss_pct zero_dec ≡ false
    → within daily_loss position_pct profile ≡ true
    → is_breach position_pct daily_loss profile ≡ false
unfolding is_breach
within-no_breach daily_loss position_pct profile hp hl w = ground (
  arith,
  lt-margin profile.max_position_pct position_pct hp,
  lt-margin profile.max_daily_loss_pct daily_loss hl,
)

-- Under limits that are not negative the breach gate never fires: an order that keeps the
-- limits is no breach, so the gates approve exactly the orders that keep the three limits, and
-- publish nothing.
pub check_profile-nonneg :
    (symbol : Text) (daily_loss position_pct : Decimal) (profile : RiskProfile) (s : RiskState)
    → lt profile.max_position_pct zero_dec ≡ false
    → lt profile.max_daily_loss_pct zero_dec ≡ false
    → let (decision, s') = check_profile symbol daily_loss position_pct profile s in
      (decision.approved ≡ within daily_loss position_pct profile) × (s' ≡ s)
check_profile-nonneg symbol daily_loss position_pct profile s hp hl = ground (
  arith,
  check_profile-approved symbol daily_loss position_pct profile s,
  within-no_breach daily_loss position_pct profile hp hl,
)
