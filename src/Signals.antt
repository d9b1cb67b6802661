-- ===== src/Signals.antt =====
-- app/modules/signals: the service that computes features, and its route. The computer of the
-- features is a parameter, as floats are; a datetime is a number of microseconds.
use self_learning_trading_ag.Base.{
  ℕ, ◌-◌, ◌*◌, Option, none, some, List, [], ◌∷◌, ◌++◌, map, Text, length,
}
use self_learning_trading_ag.Core.Answers.{Reply, replied, exception}
use self_learning_trading_ag.MarketData.Entities.{symbol_of, parse_timeframe, Candle}
use self_learning_trading_ag.MarketData.Ingest.{CandleStore, range}

-- `FeatureVector`, with the type of its floats.
pub record FeatureVector (V : Type 0) : Type 0 where
  pub symbol : Text
  pub timeframe : Text
  pub timestamp : ℕ
  pub features : List (Text × V)

pub record FeatureComputed : Type 0 where
  pub symbol : Text
  pub timeframe : Text
  pub feature_count : ℕ
  pub vector_count : ℕ

pub record FeatureVectorResponse (V : Type 0) : Type 0 where
  pub symbol : Text
  pub timeframe : Text
  pub timestamp : Text
  pub features : List (Text × V)

module _ {V : Type 0} (computer : List Candle → Option (List Text) → List (FeatureVector V)) where
  -- The event for vectors, if there are any.
  unfoldable pub computed : List (FeatureVector V) → List FeatureComputed
  computed [] = []
  computed (v ∷ vs) =
      record {
        symbol = v.symbol;
        timeframe = v.timeframe;
        feature_count = length v.features;
        vector_count = length (v ∷ vs);
      }
      ∷ []

  -- `FeatureService.compute`, with the events published so far.
  unfoldable pub compute :
      List Candle
      → Option (List Text)
      → List FeatureComputed
      → List (FeatureVector V) × List FeatureComputed
  compute candles features events =
      let vectors = computer candles features in (vectors, events ++ computed vectors)

  -- `GET /signals/features`
  unfoldable pub answer_features :
      (isoformat : ℕ → Text)
      → Option (List Candle)
      → List FeatureComputed
      → Reply (List (FeatureVectorResponse V)) × List FeatureComputed
  answer_features isoformat none events = (exception, events)
  answer_features isoformat (some candles) events =
      let (vectors, events') = compute candles none events in
      (
        replied (
            map
              (λ v. record {
                symbol = v.symbol;
                timeframe = v.timeframe;
                timestamp = isoformat v.timestamp;
                features = v.features;
              })
              vectors),
        events',
      )

  -- The candles of the last hours, read from the store; `now` is asked for twice.
  unfoldable pub features_route :
      (isoformat : ℕ → Text) (store : CandleStore) (now later : ℕ) (symbol timeframe : Text)
      (hours : ℕ)
      → store.Table
      → List FeatureComputed
      → Reply (List (FeatureVectorResponse V)) × store.Table × List FeatureComputed
  features_route isoformat store now later symbol timeframe hours t events =
      elim (symbol_of symbol []) [
        | none ↦ (exception, t, events)
        | some sym ↦ elim (parse_timeframe timeframe) [
          | none ↦ (exception, t, events)
          | some tf ↦
              let (found, t') = range store sym tf (now - hours * 3600000000) later t in
              let (a, events') = answer_features isoformat found events in (a, t', events')
        ]
      ]
