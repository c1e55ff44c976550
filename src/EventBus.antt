-- ===== src/EventBus.antt =====
-- src/infra/event_bus.c: the subscribers of each event type.
pub mod Order
use kaufbot.Prelude.{
  ℕ, ◌+◌, Bool, true, false, ◌&&◌, not, List, [], ◌∷◌, ◌++◌, length, get_or, set, leb, ◌==◌,
  if◌then◌else◌,
}
use kaufbot.CText.{Text}

abbrev pub event_count : ℕ
event_count = 5

abbrev pub event_bus_max_subscribers : ℕ
event_bus_max_subscribers = 8

-- `Subscriber`; a handler is known by its address, and 0 is NULL.
pub record Subscriber : Type 0 where
  pub handler : ℕ
  pub userdata : ℕ
  pub active : Bool

-- `SimpleEventBus`: the first `counts[type]` subscribers of each type. The other slots are
-- read by nothing.
abbrev pub EventBus : Type 0
EventBus = List (List Subscriber)

unfoldable pub event_bus_new : EventBus
event_bus_new = [] ∷ [] ∷ [] ∷ [] ∷ [] ∷ []

-- `bus_subscribe`; `true` is the return of 0.
unfoldable pub subscribe : ℕ → ℕ → ℕ → EventBus → Bool × EventBus
subscribe event handler userdata bus =
    let subs = get_or bus event [] in
    if handler == 0
    then (false, bus)
    else if leb event_count event
    then (false, bus)
    else if leb event_bus_max_subscribers (length subs)
    then (false, bus)
    else (
      true,
      set bus event (subs ++ record { handler = handler; userdata = userdata; active = true } ∷ []),
    )

unfoldable pub has_handler : ℕ → List Subscriber → Bool
has_handler handler [] = false
has_handler handler (s ∷ rest) =
    let later = has_handler handler rest in if s.handler == handler then true else later

-- The shift of the later subscribers over the first one with the handler.
unfoldable pub remove_handler : ℕ → List Subscriber → List Subscriber
remove_handler handler [] = []
remove_handler handler (s ∷ rest) =
    let later = remove_handler handler rest in if s.handler == handler then rest else s ∷ later

-- `bus_unsubscribe`
unfoldable pub unsubscribe : ℕ → ℕ → EventBus → Bool × EventBus
unfolding has_handler remove_handler
unsubscribe event handler bus =
    let subs = get_or bus event [] in
    if handler == 0
    then (false, bus)
    else if leb event_count event
    then (false, bus)
    else if has_handler handler subs
    then (true, set bus event (remove_handler handler subs))
    else (false, bus)

-- The test and the call for each subscriber of `bus_publish`: whose handlers are called, in order.
unfoldable pub called : List Subscriber → List Subscriber
called [] = []
called (s ∷ rest) =
    let later = called rest in if s.active && not (s.handler == 0) then s ∷ later else later

-- `bus_publish`: the subscribers whose handlers are called, in order. A handler that changes the
-- bus is not part of this.
unfoldable pub publish : ℕ → EventBus → List Subscriber
unfolding called
publish event bus = if leb event_count event then [] else called (get_or bus event [])
