-- ===== src/Handlers/Router/Examples.antt =====
-- A concrete router for the theorems on manager/handlers/router.go, call_maker.go and the routes of
-- OCPP 2.0.1: a world that lists the messages that have been sent, and handlers that answer with the
-- request.
use maeve_csms_reservations.Prelude.{
  ◌≡◌, refl, String, none, some, List, [], ◌∷◌, arith, if◌then◌else◌,
}
use maeve_csms_reservations.Prelude.Dict.{lookup}
use maeve_csms_reservations.Transport.{Message, call, call_result, returned, plain, Effect, give}
use maeve_csms_reservations.Handlers.Router.{Codec, Router, handle}
use maeve_csms_reservations.Handlers.Router.Parts.{Parts}
use maeve_csms_reservations.Handlers.Router.Replies.{Answered, handle-Answered}
use maeve_csms_reservations.Handlers.Router.Results.{Settled, handle-Settled}
use maeve_csms_reservations.Handlers.Schemas.{embedded, ocpp_schemas}
use maeve_csms_reservations.Handlers.Ocpp201.Routing.{new_router}
use maeve_csms_reservations.Handlers.Ocpp201.Routing.Schemas.{unlock_connector-lost}

abbrev World : Type 0
World = List Message

abbrev emit : String → Message → Effect {0} World Unit
emit id message sent = (returned tt, message ∷ sent)

abbrev codec : Codec String String
codec = record {
  unmarshal_request = λ payload type. returned payload;
  unmarshal_response = λ payload type. returned payload;
  marshal_request = λ request. returned request;
  marshal_response = λ response. returned response;
  validate = λ payload file. if embedded ocpp_schemas file then none else some (plain "no schema");
}

abbrev parts : Parts String String World
parts = record {
  new_request = λ type. type;
  new_response = λ type. type;
  handler = λ name id request. give (some request);
  result_handler = λ name id request response state. give tt;
}

abbrev router : Router String String World
router = new_router parts emit

abbrev heartbeat : Message
heartbeat = record {
  message_type = call;
  action = "Heartbeat";
  message_id = "1";
  request_payload = "{}";
  response_payload = "";
  error_code = none;
  error_description = "";
  state = "";
}

abbrev reserve : Message
reserve = record heartbeat { action = "ReserveNow" }

abbrev unlocked : Message
unlocked = record heartbeat { message_type = call_result; action = "UnlockConnector" }

answered_heartbeat :
    handle codec router "cs001" heartbeat []
    ≡ record heartbeat { message_type = call_result; request_payload = ""; response_payload = "{}" }
      ∷ []
unfolding handle lookup
answered_heartbeat = refl

handle-Answered_example :
    Answered router "cs001" heartbeat [] (handle codec router "cs001" heartbeat [])
handle-Answered_example = handle-Answered codec router "cs001" heartbeat [] refl

handle-Settled_example :
    Settled router "cs001" unlocked [] (handle codec router "cs001" unlocked [])
handle-Settled_example = handle-Settled codec router "cs001" unlocked [] (λ e. ground arith)

unlock_connector-lost_example : handle codec router "cs001" unlocked [] ≡ []
unlock_connector-lost_example =
    unlock_connector-lost codec parts emit "cs001" unlocked [] (λ payload file e. rw e refl) refl
      refl
