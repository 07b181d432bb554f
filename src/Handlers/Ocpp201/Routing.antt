-- ===== src/Handlers/Ocpp201/Routing.antt =====
-- manager/handlers/ocpp201/routing.go: the routes of OCPP 2.0.1, and the actions of the calls that
-- the manager makes.
pub mod Schemas
pub mod Calls
use maeve_csms_reservations.Prelude.{String, List, [], ◌∷◌}
use maeve_csms_reservations.Prelude.Dict.{Dict}
use maeve_csms_reservations.Transport.{Message, Effect}
use maeve_csms_reservations.Handlers.Router.{CallRoute, CallResultRoute, Router}
use maeve_csms_reservations.Handlers.Router.Parts.{Parts, call_route, call_result_route}

module _ {Request Response W : Type 0} (parts : Parts Request Response W) where
  abbrev pub call_routes : Dict (CallRoute Request Response W)
  call_routes =
      (
        "Authorize",
        call_route parts "ocpp201.AuthorizeRequestJson" "ocpp201/AuthorizeRequest.json"
            "ocpp201/AuthorizeResponse.json" "AuthorizeHandler",
      )
      ∷ (
        "BootNotification",
        call_route parts "ocpp201.BootNotificationRequestJson"
            "ocpp201/BootNotificationRequest.json" "ocpp201/BootNotificationResponse.json"
            "BootNotificationHandler",
      )
      ∷ (
        "FirmwareStatusNotification",
        call_route parts "ocpp201.FirmwareStatusNotificationRequestJson"
            "ocpp201/FirmwareStatusNotificationRequest.json"
            "ocpp201/FirmwareStatusNotificationResponse.json" "FirmwareStatusNotificationHandler",
      )
      ∷ (
        "GetCertificateStatus",
        call_route parts "ocpp201.GetCertificateStatusRequestJson"
            "ocpp201/GetCertificateStatusRequest.json" "ocpp201/GetCertificateStatusResponse.json"
            "GetCertificateStatusHandler",
      )
      ∷ (
        "Get15118EVCertificate",
        call_route parts "ocpp201.Get15118EVCertificateRequestJson"
            "ocpp201/Get15118EVCertificateRequest.json" "ocpp201/Get15118EVCertificateResponse.json"
            "Get15118EvCertificateHandler",
      )
      ∷ (
        "Heartbeat",
        call_route parts "ocpp201.HeartbeatRequestJson" "ocpp201/HeartbeatRequest.json"
            "ocpp201/HeartbeatResponse.json" "HeartbeatHandler",
      )
      ∷ (
        "LogStatusNotification",
        call_route parts "ocpp201.LogStatusNotificationRequestJson"
            "ocpp201/LogStatusNotificationRequest.json" "ocpp201/LogStatusNotificationResponse.json"
            "LogStatusNotificationHandler",
      )
      ∷ (
        "MeterValues",
        call_route parts "ocpp201.MeterValuesRequestJson" "ocpp201/MeterValuesRequest.json"
            "ocpp201/MeterValuesResponse.json" "MeterValuesHandler",
      )
      ∷ (
        "NotifyReport",
        call_route parts "ocpp201.NotifyReportRequestJson" "ocpp201/NotifyReportRequest.json"
            "ocpp201/NotifyReportResponse.json" "NotifyReportHandler",
      )
      ∷ (
        "StatusNotification",
        call_route parts "ocpp201.StatusNotificationRequestJson"
            "ocpp201/StatusNotificationRequest.json" "ocpp201/StatusNotificationResponse.json"
            "StatusNotificationHandler",
      )
      ∷ (
        "SignCertificate",
        call_route parts "ocpp201.SignCertificateRequestJson" "ocpp201/SignCertificateRequest.json"
            "ocpp201/SignCertificateResponse.json" "SignCertificateHandler",
      )
      ∷ (
        "SecurityEventNotification",
        call_route parts "ocpp201.SecurityEventNotificationRequestJson"
            "ocpp201/SecurityEventNotificationRequest.json"
            "ocpp201/SecurityEventNotificationResponse.json" "SecurityEventNotificationHandler",
      )
      ∷ (
        "TransactionEvent",
        call_route parts "ocpp201.TransactionEventRequestJson"
            "ocpp201/TransactionEventRequest.json" "ocpp201/TransactionEventResponse.json"
            "TransactionEventHandler",
      )
      ∷ []

  abbrev pub call_result_routes : Dict (CallResultRoute Request Response W)
  call_result_routes =
      (
        "CertificateSigned",
        call_result_route parts "ocpp201.CertificateSignedRequestJson"
            "ocpp201.CertificateSignedResponseJson" "ocpp201/CertificateSignedRequest.json"
            "ocpp201/CertificateSignedResponse.json" "CertificateSignedResultHandler",
      )
      ∷ (
        "ChangeAvailability",
        call_result_route parts "ocpp201.ChangeAvailabilityRequestJson"
            "ocpp201.ChangeAvailabilityResponseJson" "ocpp201/ChangeAvailabilityRequest.json"
            "ocpp201/ChangeAvailabilityResponse.json" "ChangeAvailabilityResultHandler",
      )
      ∷ (
        "ClearCache",
        call_result_route parts "ocpp201.ClearCacheRequestJson" "ocpp201.ClearCacheResponseJson"
            "ocpp201/ClearCacheRequest.json" "ocpp201/ClearCacheResponse.json"
            "ClearCacheResultHandler",
      )
      ∷ (
        "DeleteCertificate",
        call_result_route parts "ocpp201.DeleteCertificateRequestJson"
            "ocpp201.DeleteCertificateResponseJson" "ocpp201/DeleteCertificateRequest.json"
            "ocpp201/DeleteCertificateResponse.json" "DeleteCertificateResultHandler",
      )
      ∷ (
        "GetBaseReport",
        call_result_route parts "ocpp201.GetBaseReportRequestJson"
            "ocpp201.GetBaseReportResponseJson" "ocpp201/GetBaseReportRequest.json"
            "ocpp201/GetBaseReportResponse.json" "GetBaseReportResultHandler",
      )
      ∷ (
        "GetInstalledCertificateIds",
        call_result_route parts "ocpp201.GetInstalledCertificateIdsRequestJson"
            "ocpp201.GetInstalledCertificateIdsResponseJson"
            "ocpp201/GetInstalledCertificateIdsRequest.json"
            "ocpp201/GetInstalledCertificateIdsResponse.json"
            "GetInstalledCertificateIdsResultHandler",
      )
      ∷ (
        "GetLocalListVersion",
        call_result_route parts "ocpp201.GetLocalListVersionRequestJson"
            "ocpp201.GetLocalListVersionResponseJson" "ocpp201/GetLocalListVersionRequest.json"
            "ocpp201/GetLocalListVersionResponse.json" "GetLocalListVersionResultHandler",
      )
      ∷ (
        "GetReport",
        call_result_route parts "ocpp201.GetReportRequestJson" "ocpp201.GetReportResponseJson"
            "ocpp201/GetReportRequest.json" "ocpp201/GetReportResponse.json"
            "GetReportResultHandler",
      )
      ∷ (
        "GetTransactionStatus",
        call_result_route parts "ocpp201.GetTransactionStatusRequestJson"
            "ocpp201.GetTransactionStatusResponseJson" "ocpp201/GetTransactionStatusRequest.json"
            "ocpp201/GetTransactionStatusResponse.json" "GetTransactionStatusResultHandler",
      )
      ∷ (
        "GetVariables",
        call_result_route parts "ocpp201.GetVariablesRequestJson" "ocpp201.GetVariablesResponseJson"
            "ocpp201/GetVariablesRequest.json" "ocpp201/GetVariablesResponse.json"
            "GetVariablesResultHandler",
      )
      ∷ (
        "InstallCertificate",
        call_result_route parts "ocpp201.InstallCertificateRequestJson"
            "ocpp201.InstallCertificateResponseJson" "ocpp201/InstallCertificateRequest.json"
            "ocpp201/InstallCertificateResponse.json" "InstallCertificateResultHandler",
      )
      ∷ (
        "RequestStartTransaction",
        call_result_route parts "ocpp201.RequestStartTransactionRequestJson"
            "ocpp201.RequestStartTransactionResponseJson"
            "ocpp201/RequestStartTransactionRequest.json"
            "ocpp201/RequestStartTransactionResponse.json" "RequestStartTransactionResultHandler",
      )
      ∷ (
        "RequestStopTransaction",
        call_result_route parts "ocpp201.RequestStopTransactionRequestJson"
            "ocpp201.RequestStopTransactionResponseJson"
            "ocpp201/RequestStopTransactionRequest.json"
            "ocpp201/RequestStopTransactionResponse.json" "RequestStopTransactionResultHandler",
      )
      ∷ (
        "Reset",
        call_result_route parts "ocpp201.ResetRequestJson" "ocpp201.ResetResponseJson"
            "ocpp201/ResetRequest.json" "ocpp201/ResetResponse.json" "ResetResultHandler",
      )
      ∷ (
        "SendLocalList",
        call_result_route parts "ocpp201.SendLocalListRequestJson"
            "ocpp201.SendLocalListResponseJson" "ocpp201/SendLocalListRequest.json"
            "ocpp201/SendLocalListResponse.json" "SendLocalListResultHandler",
      )
      ∷ (
        "SetNetworkProfile",
        call_result_route parts "ocpp201.SetNetworkProfileRequestJson"
            "ocpp201.SetNetworkProfileResponseJson" "ocpp201/SetNetworkProfileRequest.json"
            "ocpp201/SetNetworkProfileResponse.json" "SetNetworkProfileResultHandler",
      )
      ∷ (
        "SetVariables",
        call_result_route parts "ocpp201.SetVariablesRequestJson" "ocpp201.SetVariablesResponseJson"
            "ocpp201/SetVariablesRequest.json" "ocpp201/SetVariablesResponse.json"
            "SetVariablesResultHandler",
      )
      ∷ (
        "TriggerMessage",
        call_result_route parts "ocpp201.TriggerMessageRequestJson"
            "ocpp201.TriggerMessageResponseJson" "ocpp201/TriggerMessageRequest.json"
            "ocpp201/TriggerMessageResponse.json" "TriggerMessageResultHandler",
      )
      ∷ (
        "UnlockConnector",
        call_result_route parts "ocpp201.UnlockConnectorRequestJson"
            "ocpp201.UnlockConnectorResponseJson" "ocpp201/UnlockConnectorRequest.json"
            "ocpp201/UnclockConnectorResponse.json" "UnlockConnectorResultHandler",
      )
      ∷ []

  abbrev pub new_router : (String → Message → Effect {0} W Unit) → Router Request Response W
  new_router emit = record {
    emit = emit;
    call_routes = call_routes;
    call_result_routes = call_result_routes;
  }

-- `NewCallMaker`: the action for the type of a request
abbrev pub actions : Dict String
actions =
    ("ocpp201.CertificateSignedRequestJson", "CertificateSigned")
    ∷ ("ocpp201.ChangeAvailabilityRequestJson", "ChangeAvailability")
    ∷ ("ocpp201.ClearCacheRequestJson", "ClearCache")
    ∷ ("ocpp201.DeleteCertificateRequestJson", "DeleteCertificate")
    ∷ ("ocpp201.GetBaseReportRequestJson", "GetBaseReport")
    ∷ ("ocpp201.GetInstalledCertificateIdsRequestJson", "GetInstalledCertificateIds")
    ∷ ("ocpp201.GetLocalListVersionRequestJson", "GetLocalListVersion")
    ∷ ("ocpp201.GetReportRequestJson", "GetReport")
    ∷ ("ocpp201.GetTransactionStatusRequestJson", "GetTransactionStatus")
    ∷ ("ocpp201.GetVariablesRequestJson", "GetVariables")
    ∷ ("ocpp201.InstallCertificateRequestJson", "InstallCertificate")
    ∷ ("ocpp201.RequestStartTransactionRequestJson", "RequestStartTransaction")
    ∷ ("ocpp201.RequestStopTransactionRequestJson", "RequestStopTransaction")
    ∷ ("ocpp201.ResetRequestJson", "Reset")
    ∷ ("ocpp201.SendLocalListRequestJson", "SendLocalList")
    ∷ ("ocpp201.SetNetworkProfileRequestJson", "SetNetworkProfile")
    ∷ ("ocpp201.SetVariablesRequestJson", "SetVariables")
    ∷ ("ocpp201.TriggerMessageRequestJson", "TriggerMessage")
    ∷ ("ocpp201.UnlockConnectorRequestJson", "UnlockConnector")
    ∷ []
