-- ===== src/Strategies.antt =====
-- app/modules/strategies: the contract of a strategy, the port of the catalogue, and the manager.
-- The features of a candle are a parameter: the library pandas computes them.
pub mod Library
pub mod Routes
use self_learning_trading_ag.Base.{
  ◌≡◌, false, Option, none, some, List, [], ◌∷◌, ◌++◌, map, Text, text, text_eq,
}
use self_learning_trading_ag.Core.Result.{Result, ok_result, err_result}
use self_learning_trading_ag.Core.Errors.{DomainError, not_found}
use self_learning_trading_ag.MarketData.Entities.{Candle}

pub data SignalDirection : Type 0 where
  buy sell hold : SignalDirection

pub record Strategy (F : Type 0) : Type 0 where
  pub strategy_id : Text
  pub name : Text
  pub evaluate : List Candle → List F → SignalDirection

pub record StrategyMeta : Type 0 where
  pub strategy_id : Text
  pub name : Text

-- The event of a registration.
pub record StrategyRegistered : Type 0 where
  pub strategy_id : Text
  pub name : Text

-- The port of the catalogue.
pub record StrategyStore (F : Type 0) : Type 1 where
  pub State : Type 0
  pub put : Strategy F → State → State
  pub get : Text → State → Option (Strategy F)
  pub all : State → List (Strategy F)
  pub get-put_same : (x : Strategy F) (s : State) → get x.strategy_id (put x s) ≡ some x
  pub get-put_other :
      (x : Strategy F) (id : Text) (s : State)
      → text_eq x.strategy_id id ≡ false
      → get id (put x s) ≡ get id s

-- `NotFoundError(f"unknown strategy: {strategy_id}")`
abbrev pub unknown : Text → DomainError
unknown strategy_id = record {
  class = not_found;
  message = text "unknown strategy: " ++ strategy_id;
  provider = none;
}

module _ {F : Type 0} (store : StrategyStore F) where
  -- The catalogue, and the events published so far.
  pub record State : Type 0 where
    pub catalogue : store.State
    pub published : List StrategyRegistered

  -- `register`
  unfoldable pub register : Strategy F → State → State
  register x s = record {
    catalogue = store.put x s.catalogue;
    published = s.published ++ (record { strategy_id = x.strategy_id; name = x.name } ∷ []);
  }

  -- `get_strategy`
  unfoldable pub get_strategy : Text → State → Option (Strategy F)
  get_strategy id s = store.get id s.catalogue

  -- `list`
  unfoldable pub list_meta : State → List StrategyMeta
  list_meta s =
      map (λ x. record { strategy_id = x.strategy_id; name = x.name }) (store.all s.catalogue)

  -- `evaluate`
  unfoldable pub evaluate : Text → List Candle → List F → State → Result SignalDirection DomainError
  evaluate id candles features s = elim (store.get id s.catalogue) [
    | none ↦ err_result (unknown id)
    | some x ↦ ok_result (x.evaluate candles features)
  ]
