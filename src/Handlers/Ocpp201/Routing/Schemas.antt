-- ===== src/Handlers/Ocpp201/Routing/Schemas.antt =====
-- manager/handlers/ocpp201/routing.go: the schemas that the routes of OCPP 2.0.1 name.
use maeve_csms_reservations.Prelude.{
  String, [], ◌∷◌, ◌++◌, ◌≡◌, refl, sym, subst, false, true, some, is_some,
}
use maeve_csms_reservations.Prelude.Dict.{lookup}
use maeve_csms_reservations.Handlers.Router.{Codec, handle}
use maeve_csms_reservations.Handlers.Router.Results.{handle-invalid_response}
use maeve_csms_reservations.Transport.{Message, Effect, call_result}
use maeve_csms_reservations.Handlers.Router.Parts.{Parts, call_result_route}
use maeve_csms_reservations.Handlers.Schemas.{
  call_schemas, call_result_schemas, missing, ocpp_schemas, embedded,
}
use maeve_csms_reservations.Handlers.Ocpp201.Routing.{new_router, call_result_routes}

pub new_router-schemas :
    {Request Response W : Type 0} (parts : Parts Request Response W)
    (emit : String → Message → Effect {0} W Unit)
    → let router = new_router parts emit in
      missing ocpp_schemas
        (call_schemas router.call_routes ++ call_result_schemas router.call_result_routes)
      ≡ "ocpp201/UnclockConnectorResponse.json" ∷ []
new_router-schemas parts emit = refl

-- If the schema library refuses every payload for a schema file that is not embedded, no result of
-- an UnlockConnector call reaches its handler, since the route names such a file.
pub unlock_connector-lost :
    {Request Response W : Type 0} (codec : Codec Request Response)
    (parts : Parts Request Response W) (emit : String → Message → Effect {0} W Unit) (id : String)
    (message : Message) (w : W)
    → ((payload file : String)
        → embedded ocpp_schemas file ≡ false
        → is_some (codec.validate payload file) ≡ true)
    → message.message_type ≡ call_result
    → message.action ≡ "UnlockConnector"
    → handle codec (new_router parts emit) id message w ≡ w
unfolding lookup
unlock_connector-lost codec parts emit id message w refuses is named =
    let file : String = "ocpp201/UnclockConnectorResponse.json" in
    let found =
      call_result_route parts "ocpp201.UnlockConnectorRequestJson"
        "ocpp201.UnlockConnectorResponseJson" "ocpp201/UnlockConnectorRequest.json" file
        "UnlockConnectorResultHandler" in
    handle-invalid_response codec (new_router parts emit) id message found w is
      (subst (λ a. lookup a (call_result_routes parts) ≡ some found) (sym named) refl)
      (refuses message.response_payload file refl)
