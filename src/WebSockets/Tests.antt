-- ===== src/WebSockets/Tests.antt =====
-- Messages of a socket at concrete inputs. A frame is the first number of its text or bytes.
use nestforge.Base.{
  ◌≡◌, refl, ◌+◌, ℕ, List, [], ◌∷◌, String, Result, ok, err, none, some, Option, Text, codes,
  trim_start_matches, trim_end_matches,
}
use nestforge.Base.Exec.{Exec, pure, lift, try, asks, on_option, throw, ◌>>=◌}
use nestforge.Container.State.{Shared, new}
use nestforge.Microservices.{
  MicroserviceContext, MicroserviceRegistry, ContextTypes, typed_message_handler,
  typed_event_handler, builder, message, event, no_metadata, Failure, new_context, dispatch_message,
  dispatch_event,
}
use nestforge.Container.Resolve.{resolve}
use nestforge.WebSockets.{
  parse_websocket_microservice_frame, socket_microservice_context, reply_to, normalize_endpoint,
  WebSocketContext, WebSocketMicroserviceFrame, message_kind, event_kind, Message, text, binary,
  other_message, FrameCodec, handle_websocket_microservice_message, unsupported,
}
use nestforge.WebSockets.Frames.{answered, handle_websocket_microservice_message-answered}

abbrev types : ContextTypes
types = record {
  request_id_type = record { id = 1; type_name = "RequestId" };
  identity_type = record { id = 2; type_name = "AuthIdentity" };
}

abbrev there : ℕ → Result String ℕ
there n = ok n

abbrev doubled : ℕ → MicroserviceContext ℕ → Exec (Shared ℕ ℕ) Failure ℕ
doubled n ctx = pure (n + n)

abbrev noted : ℕ → MicroserviceContext ℕ → Exec (Shared ℕ ℕ) Failure (Unit {0})
noted n ctx = pure tt

abbrev registry : MicroserviceRegistry ℕ ℕ ℕ
registry =
    event "math" (typed_event_handler there noted)
      (message "math" (typed_message_handler there there doubled) builder)

abbrev from_str : Text → Result String (WebSocketMicroserviceFrame ℕ)
from_str [] = err "EOF"
from_str (c ∷ cs) =
    ok (record { kind = message_kind; pattern = "math"; payload = c; metadata = no_metadata })

abbrev from_slice : List ℕ → Result String (WebSocketMicroserviceFrame ℕ)
from_slice [] = err "EOF"
from_slice (c ∷ cs) =
    ok (record { kind = event_kind; pattern = "math"; payload = c; metadata = no_metadata })

abbrev codec : FrameCodec ℕ
codec = record { from_str = from_str; from_slice = from_slice; to_text = λ r. ok (r.payload ∷ []) }

abbrev ctx : WebSocketContext ℕ ℕ
ctx = record {
  container = (new {V = ℕ} {E = ℕ} 0).1;
  request_id = none;
  auth_identity = none;
  headers = 0;
}

abbrev handle : Message → Shared ℕ ℕ → Option (Result Failure (Option Message) × Shared ℕ ℕ)
handle m s = handle_websocket_microservice_message codec types 3 ctx registry m s

answer_sent : handle (text (21 ∷ [])) (new 0).0 ≡ some (ok (some (text (42 ∷ []))), (new 0).0)
unfolding handle_websocket_microservice_message ◌>>=◌ lift parse_websocket_microservice_frame
    socket_microservice_context new_context try resolve asks new on_option pure throw reply_to
    dispatch_message dispatch_event event message typed_event_handler typed_message_handler
answer_sent = refl

unanswered : handle (binary (21 ∷ [])) (new 0).0 ≡ some (ok none, (new 0).0)
unfolding handle_websocket_microservice_message ◌>>=◌ lift parse_websocket_microservice_frame
    socket_microservice_context new_context try resolve asks new on_option pure throw reply_to
    dispatch_message dispatch_event event message typed_event_handler typed_message_handler
unanswered = refl

refused : handle (other_message "Ping") (new 0).0 ≡ some (err (unsupported "Ping"), (new 0).0)
unfolding handle_websocket_microservice_message ◌>>=◌ lift parse_websocket_microservice_frame
refused = refl

endpoint : normalize_endpoint (codes " socket ") (codes "/ws") ≡ codes "/socket"
unfolding normalize_endpoint trim_end_matches trim_start_matches
endpoint = refl

endpoint_default : normalize_endpoint (codes " / ") (codes "/ws") ≡ codes "/ws"
unfolding normalize_endpoint trim_end_matches trim_start_matches
endpoint_default = refl

handle_websocket_microservice_message-answered_example :
    handle (text (21 ∷ [])) (new 0).0
    ≡ answered codec types 3 ctx registry (text (21 ∷ [])) (new 0).0
handle_websocket_microservice_message-answered_example =
    handle_websocket_microservice_message-answered codec types 3 ctx registry (text (21 ∷ []))
      (new 0).0
