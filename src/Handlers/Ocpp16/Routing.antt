-- ===== src/Handlers/Ocpp16/Routing.antt =====
-- manager/handlers/ocpp16/routing.go: the routes of OCPP 1.6, those of the messages inside of
-- DataTransfer messages, and the actions of the calls that the manager makes. `as_handler` and
-- `as_result_handler` stand for the type assertions on the DataTransfer messages.
use maeve_csms_reservations.Prelude.{String, Option, [], ◌∷◌}
use maeve_csms_reservations.Prelude.Dict.{Dict}
use maeve_csms_reservations.Transport.{Message, Effect}
use maeve_csms_reservations.Handlers.Router.{Codec, CallRoute, CallResultRoute, Router}
use maeve_csms_reservations.Handlers.Router.Parts.{Parts, call_route, call_result_route}
use maeve_csms_reservations.Handlers.Ocpp16.DataTransfer.{
  DataTransferJson, DataTransferResponseJson, data_transfer, data_transfer_result,
}

module _ {Request Response W : Type 0} (parts : Parts Request Response W) where
  abbrev pub data_transfer_call_routes : Dict (Dict (CallRoute Request Response W))
  data_transfer_call_routes =
      (
        "org.openchargealliance.iso15118pnc",
        (
          "Authorize",
          call_route parts "ocpp201.AuthorizeRequestJson" "ocpp201/AuthorizeRequest.json"
              "ocpp201/AuthorizeResponse.json" "handlers201.AuthorizeHandler",
        )
            ∷ (
              "GetCertificateStatus",
              call_route parts "ocpp201.GetCertificateStatusRequestJson"
                  "ocpp201/GetCertificateStatusRequest.json"
                  "ocpp201/GetCertificateStatusResponse.json"
                  "handlers201.GetCertificateStatusHandler",
            )
            ∷ (
              "SignCertificate",
              call_route parts "ocpp201.SignCertificateRequestJson"
                  "ocpp201/SignCertificateRequest.json" "ocpp201/SignCertificateResponse.json"
                  "handlers201.SignCertificateHandler",
            )
            ∷ (
              "Get15118EVCertificate",
              call_route parts "ocpp201.Get15118EVCertificateRequestJson"
                  "ocpp201/Get15118EVCertificateRequest.json"
                  "ocpp201/Get15118EVCertificateResponse.json"
                  "handlers201.Get15118EvCertificateHandler",
            )
            ∷ [],
      )
      ∷ (
        "iso15118",
        (
          "Authorize",
          call_route parts "has2be.AuthorizeRequestJson" "has2be/AuthorizeRequest.json"
              "has2be/AuthorizeResponse.json" "handlersHasToBe.AuthorizeHandler",
        )
            ∷ (
              "GetCertificateStatus",
              call_route parts "has2be.GetCertificateStatusRequestJson"
                  "has2be/GetCertificateStatusRequest.json"
                  "has2be/GetCertificateStatusResponse.json"
                  "handlersHasToBe.GetCertificateStatusHandler",
            )
            ∷ (
              "Get15118EVCertificate",
              call_route parts "has2be.Get15118EVCertificateRequestJson"
                  "has2be/Get15118EVCertificateRequest.json"
                  "has2be/Get15118EVCertificateResponse.json"
                  "handlersHasToBe.Get15118EvCertificateHandler",
            )
            ∷ (
              "SignCertificate",
              call_route parts "has2be.SignCertificateRequestJson"
                  "has2be/SignCertificateRequestJson.json" "has2be/SignCertificateRequestJson.json"
                  "handlersHasToBe.SignCertificateHandler",
            )
            ∷ [],
      )
      ∷ []

  abbrev pub data_transfer_call_result_routes : Dict (Dict (CallResultRoute Request Response W))
  data_transfer_call_result_routes =
      (
        "org.openchargealliance.iso15118pnc",
        (
          "CertificateSigned",
          call_result_route parts "ocpp201.CertificateSignedRequestJson"
              "ocpp201.CertificateSignedResponseJson" "ocpp201/CertificateSignedRequest.json"
              "ocpp201/CertificateSignedResponse.json" "handlers201.CertificateSignedResultHandler",
        )
            ∷ (
              "InstallCertificate",
              call_result_route parts "ocpp201.InstallCertificateRequestJson"
                  "ocpp201.InstallCertificateResponseJson" "ocpp201/InstallCertificateRequest.json"
                  "ocpp201/InstallCertificateResponse.json"
                  "handlers201.InstallCertificateResultHandler",
            )
            ∷ (
              "TriggerMessage",
              call_result_route parts "ocpp201.TriggerMessageRequestJson"
                  "ocpp201.TriggerMessageResponseJson" "ocpp201/TriggerMessageRequest.json"
                  "ocpp201/TriggerMessageResponse.json" "handlers201.TriggerMessageResultHandler",
            )
            ∷ [],
      )
      ∷ (
        "iso15118",
        (
          "CertificateSigned",
          call_result_route parts "has2be.CertificateSignedRequestJson"
              "has2be.CertificateSignedResponseJson" "has2be/CertificateSignedRequest.json"
              "has2be/CertificateSignedResponse.json"
              "handlersHasToBe.CertificateSignedResultHandler",
        )
            ∷ [],
      )
      ∷ []

module _ {Request Response W : Type 0} (parts : Parts Request Response W)
    (codec : Codec Request Response) (nil_request : Request) (nil_response : Response)
    (as_handler : (String → DataTransferJson → Effect W DataTransferResponseJson)
      → String
      → Request
      → Effect W (Option Response))
    (as_result_handler : (String
        → DataTransferJson
        → DataTransferResponseJson
        → String
        → Effect {0} W Unit)
      → String
      → Request
      → Response
      → String
      → Effect {0} W Unit) where
  abbrev pub data_transfer_route : CallRoute Request Response W
  data_transfer_route = record {
    new_request = parts.new_request "ocpp16.DataTransferJson";
    request_schema = "ocpp16/DataTransfer.json";
    response_schema = "ocpp16/DataTransferResponse.json";
    handle_call = as_handler (data_transfer codec nil_request (data_transfer_call_routes parts));
  }

  abbrev pub data_transfer_result_route : CallResultRoute Request Response W
  data_transfer_result_route = record {
    new_request = parts.new_request "ocpp16.DataTransferJson";
    new_response = parts.new_response "ocpp16.DataTransferResponseJson";
    request_schema = "ocpp16/DataTransfer.json";
    response_schema = "ocpp16/DataTransferResponse.json";
    handle_call_result = as_result_handler (
        data_transfer_result codec nil_request nil_response
          (data_transfer_call_result_routes parts));
  }

  abbrev pub call_routes : Dict (CallRoute Request Response W)
  call_routes =
      (
        "BootNotification",
        call_route parts "ocpp16.BootNotificationJson" "ocpp16/BootNotification.json"
            "ocpp16/BootNotificationResponse.json" "BootNotificationHandler",
      )
      ∷ (
        "Heartbeat",
        call_route parts "ocpp16.HeartbeatJson" "ocpp16/Heartbeat.json"
            "ocpp16/HeartbeatResponse.json" "HeartbeatHandler",
      )
      ∷ (
        "StatusNotification",
        call_route parts "ocpp16.StatusNotificationJson" "ocpp16/StatusNotification.json"
            "ocpp16/StatusNotificationResponse.json" "StatusNotificationHandler",
      )
      ∷ (
        "Authorize",
        call_route parts "ocpp16.AuthorizeJson" "ocpp16/Authorize.json"
            "ocpp16/AuthorizeResponse.json" "AuthorizeHandler",
      )
      ∷ (
        "StartTransaction",
        call_route parts "ocpp16.StartTransactionJson" "ocpp16/StartTransaction.json"
            "ocpp16/StartTransactionResponse.json" "StartTransactionHandler",
      )
      ∷ (
        "StopTransaction",
        call_route parts "ocpp16.StopTransactionJson" "ocpp16/StopTransaction.json"
            "ocpp16/StopTransactionResponse.json" "StopTransactionHandler",
      )
      ∷ (
        "MeterValues",
        call_route parts "ocpp16.MeterValuesJson" "ocpp16/MeterValues.json"
            "ocpp16/MeterValuesResponse.json" "MeterValuesHandler",
      )
      ∷ (
        "SecurityEventNotification",
        call_route parts "ocpp16.SecurityEventNotificationJson"
            "ocpp16/SecurityEventNotification.json" "ocpp16/SecurityEventNotificationResponse.json"
            "SecurityEventNotificationHandler",
      )
      ∷ ("DataTransfer", data_transfer_route)
      ∷ []

  abbrev pub call_result_routes : Dict (CallResultRoute Request Response W)
  call_result_routes =
      ("DataTransfer", data_transfer_result_route)
      ∷ (
        "ChangeConfiguration",
        call_result_route parts "ocpp16.ChangeConfigurationJson"
            "ocpp16.ChangeConfigurationResponseJson" "ocpp16/ChangeConfiguration.json"
            "ocpp16/ChangeConfigurationResponse.json" "ChangeConfigurationResultHandler",
      )
      ∷ (
        "TriggerMessage",
        call_result_route parts "ocpp16.TriggerMessageJson" "ocpp16.TriggerMessageResponseJson"
            "ocpp16/TriggerMessage.json" "ocpp16/TriggerMessageResponse.json"
            "TriggerMessageResultHandler",
      )
      ∷ []

  abbrev pub new_router : (String → Message → Effect {0} W Unit) → Router Request Response W
  new_router emit = record {
    emit = emit;
    call_routes = call_routes;
    call_result_routes = call_result_routes;
  }

-- `NewCallMaker`: the action for the type of a request
abbrev pub actions : Dict String
actions =
    ("ocpp16.ChangeConfigurationJson", "ChangeConfiguration")
    ∷ ("ocpp16.TriggerMessageJson", "TriggerMessage")
    ∷ ("ocpp16.RemoteStartTransactionJson", "RemoteStartTransaction")
    ∷ []

-- `NewDataTransferCallMaker`: the vendor and the message id for the type of a request
abbrev pub data_transfer_actions : Dict (String × String)
data_transfer_actions =
    (
      "ocpp201.CertificateSignedRequestJson",
      ("org.openchargealliance.iso15118pnc", "CertificateSigned"),
    )
    ∷ (
      "ocpp201.InstallCertificateRequestJson",
      ("org.openchargealliance.iso15118pnc", "InstallCertificate"),
    )
    ∷ (
      "ocpp201.TriggerMessageRequestJson",
      ("org.openchargealliance.iso15118pnc", "TriggerMessage"),
    )
    ∷ []
