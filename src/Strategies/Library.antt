-- ===== src/Strategies/Library.antt =====
-- app/modules/strategies/infrastructure: the built-in strategies, and the store of strategies.
use self_learning_trading_ag.Base.{
  Option, none, some, List, [], ◌∷◌, map, Text, text, text_eq, if◌then◌else◌,
}
use self_learning_trading_ag.Strategies.{hold, Strategy, StrategyMeta}

module _ (F : Type 0) where
  -- `SmaCross`
  abbrev pub sma_cross : Strategy F
  sma_cross = record {
    strategy_id = text "sma_cross";
    name = text "sma_cross";
    evaluate = λ candles features. hold;
  }

  -- `RsiMeanReversion`
  abbrev pub rsi_mean_reversion : Strategy F
  rsi_mean_reversion = record {
    strategy_id = text "rsi_reversion";
    name = text "rsi_reversion";
    evaluate = λ candles features. hold;
  }

  -- A dictionary of strategies, in the order of the first insertions.
  abbrev pub Catalogue : Type 0
  Catalogue = List (Text × Strategy F)

  -- `BUILTIN_STRATEGIES`, which the store starts from.
  abbrev pub builtin_strategies : Catalogue
  builtin_strategies =
      (text "sma_cross", sma_cross) ∷ ((text "rsi_reversion", rsi_mean_reversion) ∷ [])

  unfoldable pub put_strategy : Text → Strategy F → Catalogue → Catalogue
  put_strategy id x [] = (id, x) ∷ []
  put_strategy id x ((k, y) ∷ rest) =
      let others = put_strategy id x rest in if text_eq k id then (k, x) ∷ rest else (k, y) ∷ others

  -- `StrategyLibraryStore.register`
  unfoldable pub register_strategy : Strategy F → Catalogue → Catalogue
  register_strategy x c = put_strategy x.strategy_id x c

  -- `get`
  unfoldable pub find_strategy : Text → Catalogue → Option (Strategy F)
  find_strategy id [] = none
  find_strategy id ((k, x) ∷ rest) = if text_eq k id then some x else find_strategy id rest

  -- `list_meta`, under the keys of the dictionary.
  unfoldable pub catalogue_meta : Catalogue → List StrategyMeta
  catalogue_meta c = map (λ (k, x). record { strategy_id = k; name = x.name }) c
