-- ===== src/Messaging/Outbox.antt =====
-- app/core/messaging/outbox.py and app/infrastructure/capability/outbox/redis_outbox.py: the
-- outbox over Redis, and the publisher that empties it.
pub mod Lost
use self_learning_trading_ag.Base.{
  ℕ, zero, suc, ◌≡◌, refl, Bool, true, false, ◌||◌, Option, none, some, List, [], ◌∷◌, ◌++◌, Text,
  text, text_eq, Except, ok, raise, leb, if◌then◌else◌,
}
use self_learning_trading_ag.Parse.Json.{Object}
use self_learning_trading_ag.Messaging.Bus.{DomainEvent, EventClass, rebuild}

-- The keys of the outbox: the events, the list of pending ids, and the set of dispatched ones.
pub record RedisState : Type 0 where
  pub events : List (Text × Object)
  pub pending : List Text
  pub dispatched : List Text

abbrev pub empty_redis : RedisState
empty_redis = record { events = []; pending = []; dispatched = [] }

-- `append`; a value that is set again hides the earlier one.
unfoldable pub append_event : DomainEvent → RedisState → RedisState
append_event e s = record s {
  events = (e.event_id, e.dump) ∷ s.events;
  pending = s.pending ++ (e.event_id ∷ []);
}

-- `mark_dispatched`
unfoldable pub mark_dispatched : Text → RedisState → RedisState
mark_dispatched id s = record s { dispatched = id ∷ s.dispatched }

unfoldable pub is_member : Text → List Text → Bool
is_member id [] = false
is_member id (x ∷ xs) = text_eq x id || is_member id xs

unfoldable pub get_event : Text → List (Text × Object) → Option Object
get_event id [] = none
get_event id ((k, v) ∷ rest) = if text_eq k id then some v else get_event id rest

-- The loop over the pending ids; `count` ids are found already.
unfoldable pub undispatched : (limit count : ℕ) → List Text → List Text → List Text
undispatched limit count dispatched [] = []
undispatched limit count dispatched (id ∷ ids) = elim (is_member id dispatched) [
  | true ↦ elim (leb limit count) [ true ↦ [] | false ↦ undispatched limit count dispatched ids ]
  | false ↦ elim (leb limit (suc count)) [
    | true ↦ id ∷ []
    | false ↦ id ∷ undispatched limit (suc count) dispatched ids
  ]
]

-- The events of the ids, as far as they are stored and can be built again.
unfoldable pub load_events : List EventClass → List (Text × Object) → List Text → List DomainEvent
load_events classes events [] = []
load_events classes events (id ∷ ids) = elim (get_event id events) [
  | none ↦ load_events classes events ids
  | some dump ↦ elim (rebuild classes dump) [
    | none ↦ load_events classes events ids
    | some e ↦ e ∷ load_events classes events ids
  ]
]

-- `next_undispatched`
unfoldable pub next_undispatched : List EventClass → ℕ → RedisState → List DomainEvent
next_undispatched classes limit s =
    load_events classes s.events (undispatched limit 0 s.dispatched s.pending)

-- `limit or self.batch_size`
unfoldable pub batch_limit : ℕ → Option ℕ → ℕ
batch_limit batch_size none = batch_size
batch_limit batch_size (some zero) = batch_size
batch_limit batch_size (some (suc k)) = suc k

module _ (B : Type 0) (publish : DomainEvent → B → Except (Unit {0}) (Unit {0}) × B) where
  -- The loop of `dispatch_pending`: what is delivered, the outbox and the bus after it.
  unfoldable pub dispatch_events : List DomainEvent → ℕ → RedisState → B → ℕ × RedisState × B
  dispatch_events [] delivered s b = (delivered, s, b)
  dispatch_events (e ∷ es) delivered s b =
      let (r, b') = publish e b in
      elim r [
        | raise _ ↦ dispatch_events es delivered s b'
        | ok _ ↦ dispatch_events es (suc delivered) (mark_dispatched e.event_id s) b'
      ]

  -- `dispatch_pending`; a limit of zero counts as none.
  unfoldable pub dispatch_pending :
      List EventClass → (batch_size : ℕ) → Option ℕ → RedisState → B → ℕ × RedisState × B
  dispatch_pending classes batch_size limit s b =
      dispatch_events (next_undispatched classes (batch_limit batch_size limit) s) 0 s b
