-- ===== src/Risk/Service/Switch.antt =====
-- The kill switch against the gate.
use self_learning_trading_ag.Base.{
  ◌≡◌, refl, true, false, Option, none, some, ◌++◌, Text, text, arith,
}
use self_learning_trading_ag.Decimal.{Decimal}
use self_learning_trading_ag.Risk.Entities.{KillSwitchState, default_profile, default_switch}
use self_learning_trading_ag.Risk.Store.{
  Codecs, IsFaithful, Redis, read_or, get_profile, get_kill_switch, set_kill_switch,
}
use self_learning_trading_ag.Risk.Service.{
  RiskState, refuse, reason_or, check_order, kill_switch, service_profile, check_profile,
}

get_profile-set_kill_switch :
    (c : Codecs) (k : KillSwitchState) (r : Redis)
    → get_profile c (set_kill_switch c k r) ≡ get_profile c r
unfolding get_profile set_kill_switch
get_profile-set_kill_switch c k r = refl

module _ (c : Codecs) (faithful : IsFaithful c.switch) where
  get-set_kill_switch :
      (k : KillSwitchState) (r : Redis) → get_kill_switch c (set_kill_switch c k r) ≡ k
  unfolding get_kill_switch set_kill_switch
  get-set_kill_switch k r = rw (faithful.validate-dump k)

  -- After the switch is set, every check is refused, whatever the profile and the order are, and
  -- publishes nothing; after it is released, the gates of the stored profile decide, as before
  -- it was set.
  pub check_order-kill_switch :
      (on : Option Text) (off : Option Text) (s : RiskState) (symbol : Text)
      (notional equity daily_loss position_pct : Decimal)
      → let set = (kill_switch c true on s).1 in
        let released = (kill_switch c false off set).1 in
        (check_order c symbol notional equity daily_loss position_pct set
          ≡ (refuse (text "kill_switch: " ++ reason_or on (text "active")), set))
        × (check_order c symbol notional equity daily_loss position_pct released
            ≡ check_profile symbol daily_loss position_pct (service_profile c s) released)
  unfolding kill_switch check_order service_profile
  check_order-kill_switch on off s symbol notional equity daily_loss position_pct = (
    rw (check_order, get-set_kill_switch),
    rw (check_order, get-set_kill_switch, get_profile-set_kill_switch, get_profile-set_kill_switch),
  )

read_or-unreadable :
    {A : Type 0} (validate : Text → Option A) (default : A) (stored : Option Text) {raw : Text}
    → stored ≡ some raw
    → validate raw ≡ none
    → read_or validate default stored ≡ default
read_or-unreadable validate default none e n = refl
read_or-unreadable validate default (some raw') e n = ground arith

-- A stored switch that cannot be read counts as released: the order passes to the gates of the
-- profile, and a profile that cannot be read counts as the default one.
pub check_order-unreadable :
    (c : Codecs) (s : RiskState) {raw raw' : Text} (symbol : Text)
    (notional equity daily_loss position_pct : Decimal)
    → s.redis.kill_switch ≡ some raw
    → c.switch.validate raw ≡ none
    → s.redis.profile ≡ some raw'
    → c.profile.validate raw' ≡ none
    → check_order c symbol notional equity daily_loss position_pct s
      ≡ check_profile symbol daily_loss position_pct default_profile s
unfolding check_order get_kill_switch get_profile
check_order-unreadable c s symbol notional equity daily_loss position_pct k kn p pn = rw (
  read_or-unreadable c.switch.validate default_switch s.redis.kill_switch k kn,
  read_or-unreadable c.profile.validate default_profile s.redis.profile p pn,
)
