-- ===== src/Examples/Risk.antt =====
-- app/modules/risk at a concrete store and concrete orders.
use self_learning_trading_ag.Base.{
  ℕ, ◌≡◌, refl, true, false, Option, none, some, [], ◌∷◌, Text, text, arith, ◌==◌, if◌then◌else◌,
}
use self_learning_trading_ag.Int.{pos}
use self_learning_trading_ag.Decimal.{Decimal, zero_dec, decimals}
use self_learning_trading_ag.Risk.Entities.{KillSwitchState, default_profile}
use self_learning_trading_ag.Risk.Store.{
  Codecs, IsFaithful, get_profile, save_profile, get_kill_switch, set_kill_switch,
}
use self_learning_trading_ag.Risk.Service.{
  RiskState, refuse, is_breach, breach_notify, check_profile, check_order, kill_switch,
  service_profile, set_profile,
}
use self_learning_trading_ag.Risk.Service.Gates.{check_profile-approved, check_profile-nonneg}
use self_learning_trading_ag.Risk.Service.Switch.{check_order-kill_switch, check_order-unreadable}

-- Named by what runs the risk slice.
unfoldable pub risk_program : Unit {0}
unfolding decimals get_profile save_profile get_kill_switch set_kill_switch is_breach breach_notify
    check_profile check_order kill_switch service_profile set_profile
risk_program = tt

-- A concrete form of the switch: a flag, and the reason behind a one.
unfoldable pub dump_switch : KillSwitchState → Text
dump_switch k = (if k.active then 1 else 0) ∷ elim k.reason [ none ↦ [] | some reason ↦ 1 ∷ reason ]

unfoldable pub validate_switch : Text → Option KillSwitchState
validate_switch [] = none
validate_switch (flag ∷ []) = some (record { active = flag == 1; reason = none })
validate_switch (flag ∷ one ∷ reason) = some (record { active = flag == 1; reason = some reason })

abbrev pub codecs : Codecs
codecs = record {
  profile = record { dump = λ p. []; validate = λ t. none };
  switch = record { dump = dump_switch; validate = validate_switch };
}

validate-dump_switch : (k : KillSwitchState) → validate_switch (dump_switch k) ≡ some k
unfolding validate_switch dump_switch
validate-dump_switch k = ground arith

switch-IsFaithful : IsFaithful codecs.switch
switch-IsFaithful = record { validate-dump = validate-dump_switch }

abbrev pub calm : RiskState
calm = record { redis = record { profile = none; kill_switch = none }; published = [] }

abbrev fraction : ℕ → ℕ → Decimal
fraction n s = record { coeff = pos n; scale = s }

check_order-kill_switch_example :
    let set = (kill_switch codecs true (some (text "halt")) calm).1 in
    let released = (kill_switch codecs false none set).1 in
    (check_order codecs (text "BTC/USDT") zero_dec zero_dec zero_dec (fraction 5 2) set
      ≡ (refuse (text "kill_switch: halt"), set))
    × (check_order codecs (text "BTC/USDT") zero_dec zero_dec zero_dec (fraction 5 2) released
        ≡ check_profile (text "BTC/USDT") zero_dec (fraction 5 2) default_profile released)
unfolding risk_program
check_order-kill_switch_example =
    check_order-kill_switch codecs switch-IsFaithful (some (text "halt")) none calm
      (text "BTC/USDT") zero_dec zero_dec zero_dec (fraction 5 2)

-- A profile and a switch that hold text which does not parse.
abbrev broken : RiskState
broken = record {
  redis = record { profile = some (text "?"); kill_switch = some [] };
  published = [];
}

check_order-unreadable_example :
    check_order codecs (text "BTC/USDT") zero_dec zero_dec zero_dec (fraction 5 2) broken
    ≡ check_profile (text "BTC/USDT") zero_dec (fraction 5 2) default_profile broken
unfolding validate_switch
check_order-unreadable_example =
    check_order-unreadable codecs broken (text "BTC/USDT") zero_dec zero_dec zero_dec (fraction 5 2)
      refl refl refl refl

check_profile-approved_example :
    let (decision, s') =
      check_profile (text "BTC/USDT") zero_dec (fraction 2 1) default_profile calm in
    (decision.approved ≡ false) × (s' ≡ calm)
unfolding risk_program
check_profile-approved_example =
    check_profile-approved (text "BTC/USDT") zero_dec (fraction 2 1) default_profile calm

check_profile-nonneg_example :
    let (decision, s') =
      check_profile (text "BTC/USDT") zero_dec (fraction 5 2) default_profile calm in
    (decision.approved ≡ true) × (s' ≡ calm)
unfolding risk_program
check_profile-nonneg_example =
    check_profile-nonneg (text "BTC/USDT") zero_dec (fraction 5 2) default_profile calm refl refl
