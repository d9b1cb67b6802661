-- ===== src/Messaging/Bus.antt =====
-- app/core/messaging/bus.py and app/infrastructure/capability/bus/redis_bus.py: events, and the
-- bus over a Redis stream. Redis keeps a JSON text; it is kept here as the value it stands for.
-- Handlers run one after the other, in the world that they change.
pub mod Delivery
use self_learning_trading_ag.Base.{
  ℕ, suc, ◌≡◌, refl, ap, ◌∙◌, sym, Bool, true, false, Option, none, some, List, [], ◌∷◌, ◌++◌, map,
  Text, text, text_eq, Except, ok, raise, if◌then◌else◌,
}
use self_learning_trading_ag.Parse.Json.{Json, string, object, Object, get_field}

-- An event with the name of its class and what `model_dump(mode="json")` gives.
pub record DomainEvent : Type 0 where
  pub event_id : Text
  pub type_name : Text
  pub dump : Object

-- A class of events: its name, and what its constructor makes of keyword arguments.
pub record EventClass : Type 0 where
  pub name : Text
  pub build : Json → Option DomainEvent

-- The class with a name.
unfoldable pub class_by_name : Text → List EventClass → Option EventClass
class_by_name name [] = none
class_by_name name (c ∷ cs) = if text_eq c.name name then some c else class_by_name name cs

-- `data.get("type", "")` where it is a text; no class is found for another value.
unfoldable pub event_type : Object → Text
event_type dump = elim (get_field (text "type") dump) [
  | none ↦ []
  | some (string name) ↦ name
  | some _ ↦ []
]

-- `cls(**data.get("data", {}))` for the class that the type names.
unfoldable pub rebuild : List EventClass → Object → Option DomainEvent
rebuild classes dump = elim (class_by_name (event_type dump) classes) [
  | none ↦ none
  | some c ↦ elim (get_field (text "data") dump) [
    | none ↦ c.build (object Object.no_field)
    | some payload ↦ c.build payload
  ]
]

module _ (W : Type 0) where
  abbrev pub Handler : Type 0
  Handler = DomainEvent → W → Except (Unit {0}) (Unit {0}) × W

  -- The stream, the handlers by the type of their events, and the world.
  pub record BusState : Type 0 where
    pub stream : List Object
    pub handlers : List (Text × List Handler)
    pub world : W

  unfoldable pub handlers_of : Text → List (Text × List Handler) → List Handler
  handlers_of name [] = []
  handlers_of name ((n, hs) ∷ rest) = if text_eq n name then hs else handlers_of name rest

  -- `subscribe`
  unfoldable pub add_handler :
      Text → Handler → List (Text × List Handler) → List (Text × List Handler)
  add_handler name h [] = (name, h ∷ []) ∷ []
  add_handler name h ((n, hs) ∷ rest) =
      let others = add_handler name h rest in
      if text_eq n name then (n, hs ++ (h ∷ [])) ∷ rest else (n, hs) ∷ others

  unfoldable pub subscribe : Text → Handler → BusState → BusState
  subscribe name h s = record s { handlers = add_handler name h s.handlers }

  -- The handlers of one event; what one of them raises is logged.
  unfoldable pub deliver : List Handler → DomainEvent → W → W
  deliver [] e w = w
  deliver (h ∷ hs) e w = deliver hs e (h e w).1

  -- `publish`
  unfoldable pub publish_events : List DomainEvent → BusState → BusState
  publish_events [] s = s
  publish_events (e ∷ es) s = publish_events es (record s {
    stream = s.stream ++ (e.dump ∷ []);
    world = deliver (handlers_of e.type_name s.handlers) e s.world;
  })

-- One batch of `consume_stream`: the events that it yields. Every message is acknowledged.
unfoldable pub consume_batch : List EventClass → List Object → List DomainEvent
consume_batch classes [] = []
consume_batch classes (m ∷ ms) = elim (rebuild classes m) [
  | none ↦ consume_batch classes ms
  | some e ↦ e ∷ consume_batch classes ms
]

-- A dump that does not name its class, as `model_dump` makes it, and classes that have names.
abbrev pub IsNameless : Object → Type 0
IsNameless dump = get_field (text "type") dump ≡ none

abbrev pub AreNamed : List EventClass → Type 0
AreNamed classes = class_by_name [] classes ≡ none

event_type-IsNameless : (dump : Object) → IsNameless dump → event_type dump ≡ []
unfolding event_type
event_type-IsNameless dump n = rw (n, event_type) refl

pub rebuild-IsNameless :
    (classes : List EventClass) (dump : Object)
    → AreNamed classes
    → IsNameless dump
    → rebuild classes dump ≡ none
unfolding rebuild
rebuild-IsNameless classes dump h n = rw (event_type-IsNameless dump n, rebuild, h) refl
