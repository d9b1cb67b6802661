-- ===== src/Messaging/Bus/Delivery.antt =====
-- What a publication does, and what a consumer of the stream gets of it.
use self_learning_trading_ag.Base.{◌≡◌, refl, ap, ◌∙◌, sym, List, [], ◌∷◌, ◌++◌, map, Text}
use self_learning_trading_ag.Parse.Json.{Object}
use self_learning_trading_ag.Messaging.Bus.{
  DomainEvent, EventClass, IsNameless, AreNamed, rebuild-IsNameless, consume_batch, Handler,
  BusState, handlers_of, deliver, publish_events,
}
use mathlib.Core.List.{append_assoc, append-nil}

module _ (W : Type 0) where
  -- The runs of handlers that a list of events asks for, in their order.
  abbrev pub calls :
      List (Text × List (Handler W)) → List DomainEvent → List (Handler W × DomainEvent)
  calls handlers [] = []
  calls handlers (e ∷ es) =
      map (λ h. (h, e)) (handlers_of W e.type_name handlers) ++ calls handlers es

  -- The world after runs of handlers, each of which may return or raise.
  abbrev pub after_calls : List (Handler W × DomainEvent) → W → W
  after_calls [] w = w
  after_calls ((h, e) ∷ rest) w = after_calls rest (h e w).1

  after_calls-append :
      (cs ds : List (Handler W × DomainEvent)) (w : W)
      → after_calls (cs ++ ds) w ≡ after_calls ds (after_calls cs w)
  after_calls-append [] ds w = refl
  after_calls-append ((h, e) ∷ cs) ds w = after_calls-append cs ds (h e w).1

  deliver-calls :
      (hs : List (Handler W)) (e : DomainEvent) (w : W)
      → deliver W hs e w ≡ after_calls (map (λ h. (h, e)) hs) w
  unfolding deliver
  deliver-calls [] e w = refl
  deliver-calls (h ∷ hs) e w = deliver-calls hs e (h e w).1

  -- A publication puts every event on the stream, in order, and runs every handler of every event
  -- exactly once, in the order of the events and of the subscriptions, even if a handler before it
  -- raises; the subscriptions stay as they are.
  pub publish_events-calls :
      (es : List DomainEvent) (s : BusState W)
      → ((publish_events W es s).stream ≡ s.stream ++ map (λ e. e.dump) es)
        × ((publish_events W es s).world ≡ after_calls (calls s.handlers es) s.world)
        × ((publish_events W es s).handlers ≡ s.handlers)
  unfolding publish_events
  publish_events-calls [] s = (sym (append-nil s.stream), refl, refl)
  publish_events-calls (e ∷ es) s =
      let s' : BusState W = record s {
        stream = s.stream ++ (e.dump ∷ []);
        world = deliver W (handlers_of W e.type_name s.handlers) e s.world;
      } in
      let (a, b, c) = publish_events-calls es s' in
      (
        a ∙ append_assoc s.stream (e.dump ∷ []) (map (λ x. x.dump) es),
        b
            ∙ ap (after_calls (calls s.handlers es))
                (deliver-calls (handlers_of W e.type_name s.handlers) e s.world)
            ∙ sym (
                after_calls-append (map (λ h. (h, e)) (handlers_of W e.type_name s.handlers))
                  (calls s.handlers es) s.world),
        c,
      )

-- All dumps of a list are nameless.
abbrev pub AllNameless : List Object → Type 0
AllNameless [] = Unit {0}
AllNameless (m ∷ ms) = IsNameless m × AllNameless ms

-- A consumer of the stream gets none of the events whose dump does not name its class.
pub consume_batch-IsNameless :
    (classes : List EventClass) (ms : List Object)
    → AreNamed classes
    → AllNameless ms
    → consume_batch classes ms ≡ []
unfolding consume_batch
consume_batch-IsNameless classes [] n h = refl
consume_batch-IsNameless classes (m ∷ ms) n (a, h) =
    rw (rebuild-IsNameless classes m n a, consume_batch) (consume_batch-IsNameless classes ms n h)
