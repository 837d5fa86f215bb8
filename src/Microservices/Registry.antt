-- ===== src/Microservices/Registry.antt =====
-- Which handler the registry gives for a pattern: the last that was registered for it, and none of the
-- other kind.
use nestforge.Base.{
  ◌≡◌, refl, Option, none, some, List, [], ◌∷◌, String, str_eq, if◌then◌else◌, arith,
}
use nestforge.Microservices.{MessageHandler, EventHandler, MicroserviceRegistry, message, event}

-- A call of the builder.
pub data Registration (Value V E : Type 0) : Type 0 where
  on_message : String → MessageHandler Value V E → Registration Value V E
  on_event : String → EventHandler Value V E → Registration Value V E

module _ {Value V E : Type 0} where
  abbrev pub registering :
      MicroserviceRegistry Value V E
      → List (Registration Value V E)
      → MicroserviceRegistry Value V E
  registering r [] = r
  registering r (on_message pattern handler ∷ rest) = registering (message pattern handler r) rest
  registering r (on_event pattern handler ∷ rest) = registering (event pattern handler r) rest

  -- The handlers that a list of calls leaves, read from its end.
  abbrev pub last_message :
      List (Registration Value V E) → String → Option (MessageHandler Value V E)
  last_message [] pattern = none
  last_message (on_message name handler ∷ rest) pattern =
      let later = last_message rest pattern in
      elim later [ some h ↦ some h | none ↦ if str_eq name pattern then some handler else none ]
  last_message (on_event name handler ∷ rest) pattern = last_message rest pattern

  abbrev pub last_event : List (Registration Value V E) → String → Option (EventHandler Value V E)
  last_event [] pattern = none
  last_event (on_message name handler ∷ rest) pattern = last_event rest pattern
  last_event (on_event name handler ∷ rest) pattern =
      let later = last_event rest pattern in
      elim later [ some h ↦ some h | none ↦ if str_eq name pattern then some handler else none ]

  pub registering-message_handlers :
      (r : MicroserviceRegistry Value V E) (rs : List (Registration Value V E)) (pattern : String)
      → (registering r rs).message_handlers pattern
        ≡ elim (last_message rs pattern) [ none ↦ r.message_handlers pattern | some h ↦ some h ]
  unfolding message event
  registering-message_handlers r [] pattern = refl
  registering-message_handlers r (on_message name handler ∷ rest) pattern =
      ground (arith, registering-message_handlers (message name handler r) rest pattern)
  registering-message_handlers r (on_event name handler ∷ rest) pattern =
      registering-message_handlers (event name handler r) rest pattern

  pub registering-event_handlers :
      (r : MicroserviceRegistry Value V E) (rs : List (Registration Value V E)) (pattern : String)
      → (registering r rs).event_handlers pattern
        ≡ elim (last_event rs pattern) [ none ↦ r.event_handlers pattern | some h ↦ some h ]
  unfolding message event
  registering-event_handlers r [] pattern = refl
  registering-event_handlers r (on_event name handler ∷ rest) pattern =
      ground (arith, registering-event_handlers (event name handler r) rest pattern)
  registering-event_handlers r (on_message name handler ∷ rest) pattern =
      registering-event_handlers (message name handler r) rest pattern
