-- ===== src/Scaffold.antt =====
-- .agents/scripts/new_slice.py: the names of a new slice, and the block of its contract. The files
-- that it writes are not modelled. Letters are those of ASCII.
use self_learning_trading_ag.Base.{
  ℕ, Bool, true, false, not, ◌&&◌, ◌||◌, Option, none, some, List, [], ◌∷◌, ◌++◌, map, Text, text,
  text_eq, is_empty, lower, upper, length, leb, ◌==◌, if◌then◌else◌,
}
use self_learning_trading_ag.Parse.Splits.{split_on}
use self_learning_trading_ag.Parse.Numbers.{contains, is_digit}

-- A pattern of `SLICE_PATTERNS`.
pub record SlicePattern : Type 0 where
  pub name : Text
  pub description : Text
  pub entity : Text
  pub port : Text
  pub event : Text
  pub service : Text
  pub route_prefix : Text

-- `SLICE_PATTERNS`, whose keys are the names.
abbrev pub slice_patterns : List SlicePattern
slice_patterns =
    record {
      name = text "sentiment";
      description = text "social media and news sentiment analysis";
      entity = text "SentimentScore";
      port = text "SentimentStore";
      event = text "SentimentComputed";
      service = text "SentimentService";
      route_prefix = text "/sentiment";
    }
    ∷ (record {
      name = text "trading";
      description = text "order execution and position management";
      entity = text "TradeOrder";
      port = text "TradeStore";
      event = text "TradeExecuted";
      service = text "TradingService";
      route_prefix = text "/trading";
    }
        ∷ (record {
          name = text "llm";
          description = text "LLM-powered analysis and reasoning";
          entity = text "AnalysisResult";
          port = text "LLMReasoner";
          event = text "AnalysisCompleted";
          service = text "LLMService";
          route_prefix = text "/llm";
        }
            ∷ (record {
              name = text "alerts";
              description = text "alert rules and notification delivery";
              entity = text "AlertRule";
              port = text "AlertStore";
              event = text "AlertTriggered";
              service = text "AlertService";
              route_prefix = text "/alerts";
            }
                ∷ (record {
                  name = text "dashboard";
                  description = text "dashboard projections and live views";
                  entity = text "DashboardSnapshot";
                  port = text "DashboardStore";
                  event = text "DashboardUpdated";
                  service = text "DashboardService";
                  route_prefix = text "/dashboard";
                }
                    ∷ (record {
                      name = text "history";
                      description = text "trade history and PnL analytics";
                      entity = text "TradeRecord";
                      port = text "HistoryStore";
                      event = text "HistoryUpdated";
                      service = text "HistoryService";
                      route_prefix = text "/history";
                    }
                        ∷ (record {
                          name = text "selfimprovement";
                          description = text "strategy optimization and model promotion";
                          entity = text "OptimizationRound";
                          port = text "OptimizationStore";
                          event = text "RoundCompleted";
                          service = text "SelfImprovementService";
                          route_prefix = text "/self-improve";
                        }
                            ∷ []))))))

-- `part.capitalize()`
unfoldable pub capitalize : Text → Text
capitalize [] = []
capitalize (c ∷ s) = upper (c ∷ []) ++ lower s

unfoldable pub join_texts : List Text → Text
join_texts [] = []
join_texts (t ∷ ts) = t ++ join_texts ts

-- `pascal`
unfoldable pub pascal : Text → Text
pascal slice_name = join_texts (map capitalize (split_on b'_' slice_name))

-- The name of the first pattern whose key is in a text.
unfoldable pub known_name : Text → List SlicePattern → Option Text
known_name lowered [] = none
known_name lowered (p ∷ ps) = elim (contains p.name lowered) [
  | true ↦ some p.name
  | false ↦ known_name lowered ps
]

abbrev pub is_lower_letter : ℕ → Bool
is_lower_letter c = leb 97 c && leb c 122

-- `re.findall(r"[a-z]+", lower)`: the word that a text goes on with, and the ones after it.
unfoldable pub words_from : Text → Text × List Text
words_from [] = ([], [])
words_from (c ∷ s) =
    let (word, others) = words_from s in
    if is_lower_letter c
    then (c ∷ word, others)
    else ([], if is_empty word then others else word ∷ others)

unfoldable pub words : Text → List Text
words s = let (word, others) = words_from s in if is_empty word then others else word ∷ others

-- The words that are passed over.
unfoldable pub is_stop_word : Text → Bool
is_stop_word w =
    text_eq w (text "for")
    || text_eq w (text "the")
    || text_eq w (text "and")
    || text_eq w (text "via")
    || text_eq w (text "with")
    || text_eq w (text "using")

unfoldable pub first_word : List Text → Option Text
first_word [] = none
first_word (w ∷ ws) = elim (leb 3 (length w) && not (is_stop_word w)) [
  | true ↦ some w
  | false ↦ first_word ws
]

-- `guess_slice_name`
unfoldable pub guess_slice_name : Text → Option Text
guess_slice_name about = elim (known_name (lower about) slice_patterns) [
  | some name ↦ some name
  | none ↦ first_word (words (lower about))
]

unfoldable pub find_pattern : Text → List SlicePattern → Option SlicePattern
find_pattern name [] = none
find_pattern name (p ∷ ps) = if text_eq p.name name then some p else find_pattern name ps

-- `slice_name.replace('_', '-')`
unfoldable pub dashed : Text → Text
dashed s = map (λ c. if c == b'_' then b'-' else c) s

-- `about or f"{slice_name} processing"`
unfoldable pub description_or : Text → Option Text → Text
description_or slice_name none = slice_name ++ text " processing"
description_or slice_name (some about) =
    if is_empty about then slice_name ++ text " processing" else about

-- `get_pattern`
unfoldable pub get_pattern : Text → Option Text → SlicePattern
get_pattern slice_name about = elim (find_pattern slice_name slice_patterns) [
  | some p ↦ p
  | none ↦ record {
    name = slice_name;
    description = description_or slice_name about;
    entity = pascal slice_name ++ text "Record";
    port = pascal slice_name ++ text "Store";
    event = pascal slice_name ++ text "Updated";
    service = pascal slice_name ++ text "Service";
    route_prefix = b'/' ∷ dashed slice_name;
  }
]

-- `re.fullmatch(r"[a-z][a-z0-9_]*", slice_name)`
unfoldable pub is_snake_rest : Text → Bool
is_snake_rest [] = true
is_snake_rest (c ∷ s) =
    let rest = is_snake_rest s in (is_lower_letter c || is_digit c || (c == b'_')) && rest

unfoldable pub is_snake_case : Text → Bool
is_snake_case [] = false
is_snake_case (c ∷ s) = is_lower_letter c && is_snake_rest s
