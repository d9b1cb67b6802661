-- ===== src/Messaging/Outbox/Lost.antt =====
-- What becomes of events that are appended to the outbox, or published on the stream.
use self_learning_trading_ag.Base.{
  ℕ, ◌≡◌, refl, ap, subst, inl, inr, Option, none, some, List, [], ◌∷◌, Text, text_eq, Except,
  Bool-cases, Option-cases, arith,
}
use self_learning_trading_ag.Parse.Json.{Object}
use self_learning_trading_ag.Messaging.Bus.{
  DomainEvent, EventClass, IsNameless, AreNamed, rebuild-IsNameless,
}
use self_learning_trading_ag.Messaging.Outbox.{
  RedisState, empty_redis, append_event, mark_dispatched, get_event, load_events, next_undispatched,
  dispatch_events, dispatch_pending,
}

-- The outboxes that the operations make of an empty one, where no dump names its class.
pub data Made : RedisState → Type 0 where
  unused : Made empty_redis
  appended :
      {s : RedisState} (e : DomainEvent) → IsNameless e.dump → Made s → Made (append_event e s)
  marked : {s : RedisState} (id : Text) → Made s → Made (mark_dispatched id s)

-- No stored event names its class.
abbrev AllNameless : List (Text × Object) → Type 0
AllNameless [] = Unit {0}
AllNameless ((k, v) ∷ rest) = IsNameless v × AllNameless rest

Made-AllNameless : {s : RedisState} → Made s → AllNameless s.events
unfolding append_event mark_dispatched
Made-AllNameless unused = tt
Made-AllNameless (appended e h m) = (h, Made-AllNameless m)
Made-AllNameless (marked id m) = Made-AllNameless m

some_eq : {x y : Object} → some x ≡ some y → x ≡ y
some_eq {x} e = ap (λ o. elim o [ none ↦ x | some z ↦ z ]) e

get_event-IsNameless :
    (id : Text) (events : List (Text × Object)) (dump : Object)
    → AllNameless events
    → get_event id events ≡ some dump
    → IsNameless dump
unfolding get_event
get_event-IsNameless id [] dump h e = cc e
get_event-IsNameless id ((k, v) ∷ rest) dump (a, h) e = elim (Bool-cases (text_eq k id)) [
  | inl y ↦ subst IsNameless (some_eq (ground (arith, y, e))) a
  | inr n ↦ get_event-IsNameless id rest dump h (ground (arith, n, e))
]

load_events-IsNameless :
    (classes : List EventClass) (events : List (Text × Object)) (ids : List Text)
    → AreNamed classes
    → AllNameless events
    → load_events classes events ids ≡ []
unfolding load_events
load_events-IsNameless classes events [] n h = refl
load_events-IsNameless classes events (id ∷ ids) n h = elim (Option-cases (get_event id events)) [
  | inl e ↦ rw (e, load_events) (load_events-IsNameless classes events ids n h)
  | inr (dump, e) ↦
      rw
        (
          e,
          load_events,
          rebuild-IsNameless classes dump n (get_event-IsNameless id events dump h e),
        )
        (load_events-IsNameless classes events ids n h)
]

-- The outbox over Redis never gives an event back: the dump that `append` stores has no field
-- `type`, so that nothing is ever dispatched from it, whatever is appended and marked.
pub dispatch_pending-Made :
    {s : RedisState} (B : Type 0) (publish : DomainEvent → B → Except (Unit {0}) (Unit {0}) × B)
    → (classes : List EventClass) (batch_size : ℕ) (limit : Option ℕ) (b : B) → AreNamed classes
    → Made s
    → dispatch_pending B publish classes batch_size limit s b ≡ (0, s, b)
unfolding dispatch_pending dispatch_events next_undispatched
dispatch_pending-Made {s} B publish classes batch_size limit b n m =
    rw (load_events-IsNameless classes s.events _ n (Made-AllNameless m)) refl
