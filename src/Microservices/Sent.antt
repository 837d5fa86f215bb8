-- ===== src/Microservices/Sent.antt =====
-- What a message does that the in-process client sends.
use nestforge.Base.{◌≡◌, refl, ap, ◌∙◌, ℕ, Option, none, some, List, String, Result, ok, err, arith}
use nestforge.Base.Exec.{Exec, throw, lift, ◌>>=◌}
use nestforge.Base.Exec.Invert.{bind_same, bind-of-ok, bind-of-err}
use nestforge.Container.State.{Shared}
use nestforge.Microservices.{
  Failure, with_context, Envelope, message_envelope, MicroserviceContext, ContextTypes,
  MessageHandler, MicroserviceRegistry, typed_message_handler, builder, no_handler, no_metadata,
  dispatch_message,
}
use nestforge.Microservices.Registry.{
  Registration, registering, last_message, registering-message_handlers,
}
use nestforge.Microservices.Client.{InProcessClient, client_context, send}

module _ {S Response Value : Type 0} where
  -- A response that is serialized and deserialized is what it was.
  there_and_back :
      (to_value : Response → Result String Value) (from_value : Value → Result String Response)
      (m : Exec S Failure Response) (s : S)
      → ((r : Response) → (v : Value) × (to_value r ≡ ok v) × (from_value v ≡ ok r))
      → ((m >>= λ r. lift (with_context "Failed to serialize message response" (to_value r)))
            >>= λ v.
                lift (with_context "Failed to deserialize microservice response" (from_value v)))
          s
        ≡ m s
  unfolding ◌>>=◌ lift
  there_and_back to_value from_value m s laws = go (m s) refl
    where
      go :
          (o : Option (Result Failure Response × S))
          → m s ≡ o
          → ((m >>= λ r. lift (with_context "Failed to serialize message response" (to_value r)))
                >>= λ v.
                    lift
                      (with_context "Failed to deserialize microservice response" (from_value v)))
              s
            ≡ m s
      go none e = ground (arith, e)
      go (some (err x, s1)) e = ground (arith, e)
      go (some (ok r, s1)) e = let (v, there, back) = laws r in ground (arith, e, there, back)

module _ {Value V E Payload Response : Type 0} (types : ContextTypes) (fuel : ℕ)
    (to_value : Payload → Result String Value) (from_value : Value → Result String Payload)
    (to_response : Response → Result String Value) (from_response : Value → Result String Response)
    (rs : List (Registration Value V E)) (client : InProcessClient Value V E)
    (registered : client.registry ≡ registering builder rs) (pattern : String)
    (payload : Payload) where
  envelope_made :
      (v : Value)
      → to_value payload ≡ ok v
      → message_envelope to_value pattern payload
        ≡ ok (record { pattern = pattern; payload = v; metadata = no_metadata })
  unfolding message_envelope
  envelope_made v there = rw (there, message_envelope) refl

  lookup_made :
      (o : Option (MessageHandler Value V E))
      → last_message rs pattern ≡ o
      → client.registry.message_handlers pattern ≡ o
  unfolding builder
  lookup_made o last =
      ap (λ (r : MicroserviceRegistry Value V E). r.message_handlers pattern) registered
      ∙ registering-message_handlers builder rs pattern
      ∙ rw last (by_cases o)
    where
      by_cases :
          (o : Option (MessageHandler Value V E)) → elim o [ none ↦ none | some h ↦ some h ] ≡ o
      by_cases none = refl
      by_cases (some h) = refl

  dispatch_made :
      (v : Value) (ctx : MicroserviceContext V)
      (handler : Payload → MicroserviceContext V → Exec (Shared V E) Failure Response)
      → last_message rs pattern ≡ some (typed_message_handler from_value to_response handler)
      → from_value v ≡ ok payload
      → dispatch_message client.registry
          (record { pattern = pattern; payload = v; metadata = no_metadata })
          ctx
        ≡ (handler payload ctx >>= λ r.
            lift (with_context "Failed to serialize message response" (to_response r)))
  unfolding dispatch_message typed_message_handler
  dispatch_made v ctx handler last back =
      rw
        (
          lookup_made (some (typed_message_handler from_value to_response handler)) last,
          dispatch_message,
        )
        (rw (back, typed_message_handler) refl)

  -- The client's registry is made by some calls of its builder. A message whose pattern they register
  -- last for a typed handler runs this handler on the payload that was sent, in the context of the
  -- client and the pattern, and its response is the answer: if serialization undoes itself on the
  -- payload and on every response.
  pub send-handler :
      (v : Value) (handler : Payload → MicroserviceContext V → Exec (Shared V E) Failure Response)
      (s : Shared V E)
      → last_message rs pattern ≡ some (typed_message_handler from_value to_response handler)
      → to_value payload ≡ ok v
      → from_value v ≡ ok payload
      → ((r : Response) → (u : Value) × (to_response r ≡ ok u) × (from_response u ≡ ok r))
      → send types fuel to_value from_response client pattern payload s
        ≡ (client_context types fuel client pattern >>= λ ctx. handler payload ctx) s
  unfolding send lift
  send-handler v handler s last there back laws =
      bind_same (client_context types fuel client pattern) _ (λ ctx. handler payload ctx) s
        λ ctx s1.
          bind-of-ok (lift (message_envelope to_value pattern payload)) _ s1
            (rw (envelope_made v there, lift) refl)
          ∙ ap
              (λ (m : Exec (Shared V E) Failure Value).
                (m >>= λ u.
                lift (with_context "Failed to deserialize microservice response" (from_response u)))
                  s1)
              (dispatch_made v ctx handler last back)
          ∙ there_and_back to_response from_response (handler payload ctx) s1 laws

  dispatch_none :
      (v : Value) (ctx : MicroserviceContext V) (s : Shared V E)
      → last_message rs pattern ≡ none
      → dispatch_message client.registry
          (record { pattern = pattern; payload = v; metadata = no_metadata })
          ctx
          s
        ≡ some (err (no_handler "message" pattern), s)
  unfolding dispatch_message throw
  dispatch_none v ctx s last = rw (lookup_made none last, dispatch_message) refl

  -- A message whose pattern no call of the builder registers is not handled: the client's context is
  -- made, and `send` fails with the pattern in its message.
  pub send_unregistered :
      (v : Value) (s : Shared V E)
      → last_message rs pattern ≡ none
      → to_value payload ≡ ok v
      → send types fuel to_value from_response client pattern payload s
        ≡ (client_context types fuel client pattern >>= λ ctx.
              throw {A = Response} (no_handler "message" pattern))
            s
  unfolding send lift throw dispatch_message
  send_unregistered v s last there =
      bind_same (client_context types fuel client pattern) _
        (λ ctx. throw (no_handler "message" pattern)) s
        λ ctx s1.
          bind-of-ok (lift (message_envelope to_value pattern payload)) _ s1
            (ap (λ (r : Result Failure (Envelope Value)). some (r, s1)) (envelope_made v there))
          ∙ bind-of-err _ _ s1 (dispatch_none v ctx s1 last)
