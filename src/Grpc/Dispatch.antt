-- ===== src/Grpc/Dispatch.antt =====
-- A call over gRPC is a message of the in-process client.
use nestforge.Base.{
  ℕ, ◌≡◌, refl, sym, ap, ◌∙◌, Option, none, some, String, Result, ok, err, map_err,
}
use nestforge.Base.Exec.{Exec, lift, map_error, ◌>>=◌}
use nestforge.Base.Exec.Invert.{bind_same, bind-of-ok, bind_lift_ok}
use nestforge.Container.State.{Shared}
use nestforge.Microservices.{
  Failure, TransportMetadata, ContextTypes, MicroserviceRegistry, message_envelope, Envelope,
  with_metadata, dispatch_message, no_metadata,
}
use nestforge.Microservices.Client.{
  InProcessClient, new_client, with_transport, with_client_metadata, client_context, send,
}
use nestforge.Grpc.{
  GrpcContext, map_microservice_error, grpc_microservice_context, dispatch_grpc_message,
}

module _ {S E F A B : Type 0} (f : E → F) where
  -- `map_err` goes through a bind.
  map_error-bind :
      (m : Exec S E A) (k : A → Exec S E B) (s : S)
      → map_error f (m >>= k) s ≡ (map_error f m >>= λ a. map_error f (k a)) s
  unfolding map_error ◌>>=◌
  map_error-bind m k s = go (m s) refl
    where
      go :
          (o : Option (Result E A × S))
          → m s ≡ o
          → map_error f (m >>= k) s ≡ (map_error f m >>= λ a. map_error f (k a)) s
      go none e = rw (e, ◌>>=◌, map_error) refl
      go (some (ok u, s1)) e = rw (e, ◌>>=◌, map_error) refl
      go (some (err x, s1)) e = rw (e, ◌>>=◌, map_error) refl

module _ {S E F A : Type 0} (f : E → F) where
  map_error_same : (m n : Exec S E A) (s : S) → m s ≡ n s → map_error f m s ≡ map_error f n s
  unfolding map_error
  map_error_same m n s same =
      ap
        (λ (o : Option (Result E A × S)). elim o [
          | none ↦ none
          | some (ok a, s1) ↦ some (ok a, s1)
          | some (err e, s1) ↦ some (err (f e), s1)
        ])
        same

module _ {Value V E Payload : Type 0} (types : ContextTypes) (fuel : ℕ)
    (to_value : Payload → Result String Value) (ctx : GrpcContext)
    (registry : MicroserviceRegistry Value V E) (pattern : String) (payload : Payload)
    (metadata : TransportMetadata) where
  -- The client that sends what the call brings, and takes its response as it is.
  abbrev pub client : InProcessClient Value V E
  client = with_transport "grpc" (with_client_metadata metadata (new_client ctx.container registry))

  -- What is sent.
  abbrev sent : Value → Envelope Value
  sent v = record { pattern = pattern; payload = v; metadata = no_metadata }

  envelope_made :
      (v : Value)
      → to_value payload ≡ ok v
      → message_envelope to_value pattern payload ≡ ok (sent v)
  unfolding message_envelope
  envelope_made v there = rw (there, message_envelope) refl

  -- The handler runs in the context of the call.
  abbrev handled : Value → Exec (Shared V E) Failure Value
  handled v = grpc_microservice_context types fuel ctx pattern metadata >>= λ c.
      dispatch_message registry (sent v) c

  send-handled :
      (v : Value) (s : Shared V E)
      → to_value payload ≡ ok v
      → send types fuel to_value ok client pattern payload s ≡ handled v s
  unfolding send client_context with_transport with_client_metadata new_client
      grpc_microservice_context lift
  send-handled v s there =
      bind_same (client_context types fuel client pattern) _
        (λ c. dispatch_message registry (sent v) c) s
        λ c s1.
          bind-of-ok (lift (message_envelope to_value pattern payload)) _ s1
            (ap (λ (r : Result Failure (Envelope Value)). some (r, s1)) (envelope_made v there))
          ∙ bind_lift_ok (dispatch_message registry (sent v) c) s1

  -- A payload that serializes: its call over gRPC is the same as sending it by an in-process client of
  -- the context's container and the registry, with the transport `grpc` and the call's metadata, which
  -- takes the response as it is, with the outermost message of an error in the status.
  pub dispatch_grpc_message-send :
      (v : Value) (s : Shared V E)
      → to_value payload ≡ ok v
      → dispatch_grpc_message types fuel to_value ctx registry pattern payload metadata s
        ≡ map_error map_microservice_error (send types fuel to_value ok client pattern payload) s
  unfolding dispatch_grpc_message lift with_metadata dispatch_message
  dispatch_grpc_message-send v s there =
      bind-of-ok (lift (map_err map_microservice_error (message_envelope to_value pattern payload)))
        _ s
        (ap (λ (r : Result Failure (Envelope Value)). some (map_err map_microservice_error r, s))
          (envelope_made v there))
      ∙ sym (
          map_error-bind map_microservice_error
            (grpc_microservice_context types fuel ctx pattern metadata)
            (λ c. dispatch_message registry (sent v) c) s)
      ∙ map_error_same map_microservice_error (handled v)
          (send types fuel to_value ok client pattern payload) s (sym (send-handled v s there))
