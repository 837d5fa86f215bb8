-- ===== src/Microservices/Tests.antt =====
-- The theorems on messages at concrete inputs. Values, payloads and responses are numbers.
use nestforge.Base.{◌≡◌, refl, ◌+◌, ℕ, List, [], ◌∷◌, String, Result, ok}
use nestforge.Base.Exec.{Exec, pure, ◌>>=◌}
use nestforge.Container.State.{Shared, new}
use nestforge.Microservices.{
  Failure, MicroserviceContext, ContextTypes, typed_message_handler, typed_event_handler, builder,
  insert_metadata, no_metadata,
}
use nestforge.Microservices.Registry.{Registration, on_message, on_event, registering}
use nestforge.Microservices.Client.{
  InProcessClient, new_client, with_client_metadata, client_context, send,
}
use nestforge.Microservices.Sent.{send-handler}

abbrev types : ContextTypes
types = record {
  request_id_type = record { id = 1; type_name = "RequestId" };
  identity_type = record { id = 2; type_name = "AuthIdentity" };
}

abbrev there : ℕ → Result String ℕ
there n = ok n

abbrev doubled : ℕ → MicroserviceContext ℕ → Exec (Shared ℕ ℕ) Failure ℕ
doubled n ctx = pure (n + n)

abbrev stepped : ℕ → MicroserviceContext ℕ → Exec (Shared ℕ ℕ) Failure ℕ
stepped n ctx = pure (n + 1)

abbrev noted : ℕ → MicroserviceContext ℕ → Exec (Shared ℕ ℕ) Failure (Unit {0})
noted n ctx = pure tt

-- Two handlers of a pattern, the second in place of the first, and an event of the same pattern.
abbrev registrations : List (Registration ℕ ℕ ℕ)
registrations =
    on_message "math.double" (typed_message_handler there there stepped)
    ∷ on_message "math.double" (typed_message_handler there there doubled)
    ∷ on_event "math.double" (typed_event_handler there noted)
    ∷ on_event "math.noted" (typed_event_handler there noted)
    ∷ []

abbrev client : InProcessClient ℕ ℕ ℕ
client =
    with_client_metadata (insert_metadata "trace" "t-1" no_metadata)
      (new_client (record { scope = 0 }) (registering builder registrations))

abbrev empty : Shared ℕ ℕ
empty = (new {V = ℕ} {E = ℕ} 0).0

send-handler_example :
    send types 3 there there client "math.double" 21 empty
    ≡ (client_context types 3 client "math.double" >>= λ ctx. doubled 21 ctx) empty
unfolding with_client_metadata new_client
send-handler_example =
    send-handler types 3 there there there there registrations client refl "math.double" 21 21
      doubled empty refl refl refl (λ r. (r, refl, refl))
