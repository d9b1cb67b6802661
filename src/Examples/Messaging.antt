-- ===== src/Examples/Messaging.antt =====
-- Tests and witnesses of the event bus and the outbox.
use self_learning_trading_ag.Base.{
  ℕ, suc, ◌+◌, ◌≡◌, refl, none, some, List, [], ◌∷◌, ◌++◌, map, Text, text, text_eq, Except, ok,
  raise,
}
use self_learning_trading_ag.Parse.Json.{Json, Object, get_field}
use self_learning_trading_ag.Messaging.Bus.{
  DomainEvent, EventClass, class_by_name, Handler, BusState, add_handler, subscribe, handlers_of,
  deliver, publish_events,
}
use self_learning_trading_ag.Messaging.Bus.Delivery.{calls, after_calls, publish_events-calls}
use self_learning_trading_ag.Messaging.Outbox.{empty_redis, append_event, dispatch_pending}
use self_learning_trading_ag.Messaging.Outbox.Lost.{unused, appended, dispatch_pending-Made}

-- An event as its dump shows it: its fields, and no name of its class.
abbrev dump_of : Text → Object
dump_of id = Object.field (text "event_id") (Json.string id) Object.no_field

abbrev breach : DomainEvent
breach = record {
  event_id = text "e1";
  type_name = text "RiskBreached";
  dump = dump_of (text "e1");
}

abbrev classes : List EventClass
classes = record { name = text "RiskBreached"; build = λ j. some breach } ∷ []

-- A handler that counts, and one that fails after it has counted.
abbrev counting : Handler ℕ
counting e n = (ok tt, n + 1)

abbrev failing : Handler ℕ
failing e n = (raise tt, n + 10)

abbrev bus : BusState ℕ
bus =
    subscribe ℕ (text "RiskBreached") counting
      (subscribe ℕ (text "RiskBreached") failing (record { stream = []; handlers = []; world = 0 }))

both_called : (publish_events ℕ (breach ∷ (breach ∷ [])) bus).world ≡ 22
unfolding publish_events deliver handlers_of subscribe add_handler text_eq
both_called = refl

publish_events-calls_example :
    ((publish_events ℕ (breach ∷ []) bus).stream ≡ bus.stream ++ map (λ e. e.dump) (breach ∷ []))
    × ((publish_events ℕ (breach ∷ []) bus).world
        ≡ after_calls ℕ (calls ℕ bus.handlers (breach ∷ [])) bus.world)
    × ((publish_events ℕ (breach ∷ []) bus).handlers ≡ bus.handlers)
publish_events-calls_example = publish_events-calls ℕ (breach ∷ []) bus

abbrev to_count : DomainEvent → ℕ → Except (Unit {0}) (Unit {0}) × ℕ
to_count e n = (ok tt, suc n)

dispatch_pending-Made_example :
    dispatch_pending ℕ to_count classes 100 none (append_event breach empty_redis) 0
    ≡ (0, append_event breach empty_redis, 0)
unfolding class_by_name get_field text_eq
dispatch_pending-Made_example =
    dispatch_pending-Made ℕ to_count classes 100 none 0 refl (appended breach refl unused)
