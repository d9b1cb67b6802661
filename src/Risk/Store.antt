-- ===== src/Risk/Store.antt =====
-- app/modules/risk/infrastructure/stores/redis_store.py: the profile and the switch in Redis.
--
-- Redis is two keys that hold a text or nothing, and it answers every call. How pydantic writes
-- and reads a model as JSON is a parameter; reading fails (`none`) where the library raises.
use self_learning_trading_ag.Base.{◌≡◌, Option, none, some, Text}
use self_learning_trading_ag.Risk.Entities.{
  RiskProfile, KillSwitchState, default_profile, default_switch,
}

-- `model_dump_json` and `model_validate_json` of a model.
pub record Codec (A : Type 0) : Type 0 where
  pub dump : A → Text
  pub validate : Text → Option A

-- What the JSON of a model means when it is read again, as pydantic documents.
pub record IsFaithful {A : Type 0} (c : Codec A) : Type 0 where
  pub validate-dump : (a : A) → c.validate (c.dump a) ≡ some a

pub record Codecs : Type 0 where
  pub profile : Codec RiskProfile
  pub switch : Codec KillSwitchState

-- The keys `risk:profile` and `risk:kill_switch`.
pub record Redis : Type 0 where
  pub profile : Option Text
  pub kill_switch : Option Text

-- A stored text, read with a default for a missing one and for one that does not parse.
abbrev pub read_or {ℓ} : {A : Type ℓ} → (Text → Option A) → A → Option Text → A
read_or validate default none = default
read_or validate default (some raw) = elim (validate raw) [ none ↦ default | some a ↦ a ]

module _ (c : Codecs) where
  unfoldable pub get_profile : Redis → RiskProfile
  get_profile r = read_or c.profile.validate default_profile r.profile

  unfoldable pub save_profile : RiskProfile → Redis → Redis
  save_profile profile r = record r { profile = some (c.profile.dump profile) }

  unfoldable pub get_kill_switch : Redis → KillSwitchState
  get_kill_switch r = read_or c.switch.validate default_switch r.kill_switch

  unfoldable pub set_kill_switch : KillSwitchState → Redis → Redis
  set_kill_switch state r = record r { kill_switch = some (c.switch.dump state) }
