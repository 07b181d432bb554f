-- ===== src/Handlers/Schemas.antt =====
-- manager/schemas/schemas.go: the files that are embedded in the manager, and which of the schemas
-- that the routes name are not among them.
use maeve_csms_reservations.Prelude.{String, Bool, List, [], ◌∷◌, ◌==◌, any, if◌then◌else◌}
use maeve_csms_reservations.Prelude.Dict.{Dict}
use maeve_csms_reservations.Handlers.Router.{CallRoute, CallResultRoute}

module _ {Request Response W : Type 0} where
  abbrev pub call_schemas : Dict (CallRoute Request Response W) → List String
  call_schemas [] = []
  call_schemas ((action, route) ∷ rest) =
      route.request_schema ∷ route.response_schema ∷ call_schemas rest

  abbrev pub call_result_schemas : Dict (CallResultRoute Request Response W) → List String
  call_result_schemas [] = []
  call_result_schemas ((action, route) ∷ rest) =
      route.request_schema ∷ route.response_schema ∷ call_result_schemas rest

abbrev pub embedded : List String → String → Bool
embedded files file = any (λ f. f == file) files

abbrev pub missing : List String → List String → List String
missing files [] = []
missing files (file ∷ rest) =
    if embedded files file then missing files rest else file ∷ missing files rest

-- `//go:embed */*.json`
abbrev pub ocpp_schemas : List String
ocpp_schemas =
    "has2be/AuthorizeRequest.json" ∷ "has2be/AuthorizeResponse.json"
    ∷ "has2be/CertificateSignedRequest.json" ∷ "has2be/CertificateSignedResponse.json"
    ∷ "has2be/DeleteCertificateRequest.json" ∷ "has2be/DeleteCertificateResponse.json"
    ∷ "has2be/Get15118EVCertificateRequest.json" ∷ "has2be/Get15118EVCertificateResponse.json"
    ∷ "has2be/GetCertificateStatusRequest.json" ∷ "has2be/GetCertificateStatusResponse.json"
    ∷ "has2be/GetInstalledCertificateIdsRequest.json"
    ∷ "has2be/GetInstalledCertificateIdsResponse.json" ∷ "has2be/InstallCertificateRequest.json"
    ∷ "has2be/InstallCertificateResponse.json" ∷ "has2be/SignCertificateRequest.json"
    ∷ "has2be/SignCertificateResponse.json" ∷ "has2be/TriggerMessageRequest.json"
    ∷ "has2be/TriggerMessageResponse.json" ∷ "ocpp16/Authorize.json"
    ∷ "ocpp16/AuthorizeResponse.json" ∷ "ocpp16/BootNotification.json"
    ∷ "ocpp16/BootNotificationResponse.json" ∷ "ocpp16/CancelReservation.json"
    ∷ "ocpp16/CancelReservationResponse.json" ∷ "ocpp16/CertificateSigned.json"
    ∷ "ocpp16/CertificateSignedResponse.json" ∷ "ocpp16/ChangeAvailability.json"
    ∷ "ocpp16/ChangeAvailabilityResponse.json" ∷ "ocpp16/ChangeConfiguration.json"
    ∷ "ocpp16/ChangeConfigurationResponse.json" ∷ "ocpp16/ClearCache.json"
    ∷ "ocpp16/ClearCacheResponse.json" ∷ "ocpp16/ClearChargingProfile.json"
    ∷ "ocpp16/ClearChargingProfileResponse.json" ∷ "ocpp16/DataTransfer.json"
    ∷ "ocpp16/DataTransferResponse.json" ∷ "ocpp16/DeleteCertificate.json"
    ∷ "ocpp16/DeleteCertificateResponse.json" ∷ "ocpp16/DiagnosticsStatusNotification.json"
    ∷ "ocpp16/DiagnosticsStatusNotificationResponse.json" ∷ "ocpp16/ExtendedTriggerMessage.json"
    ∷ "ocpp16/ExtendedTriggerMessageResponse.json" ∷ "ocpp16/FirmwareStatusNotification.json"
    ∷ "ocpp16/FirmwareStatusNotificationResponse.json" ∷ "ocpp16/GetCompositeSchedule.json"
    ∷ "ocpp16/GetCompositeScheduleResponse.json" ∷ "ocpp16/GetConfiguration.json"
    ∷ "ocpp16/GetConfigurationResponse.json" ∷ "ocpp16/GetDiagnostics.json"
    ∷ "ocpp16/GetDiagnosticsResponse.json" ∷ "ocpp16/GetInstalledCertificateIds.json"
    ∷ "ocpp16/GetInstalledCertificateIdsResponse.json" ∷ "ocpp16/GetLocalListVersion.json"
    ∷ "ocpp16/GetLocalListVersionResponse.json" ∷ "ocpp16/GetLog.json"
    ∷ "ocpp16/GetLogResponse.json" ∷ "ocpp16/Heartbeat.json" ∷ "ocpp16/HeartbeatResponse.json"
    ∷ "ocpp16/InstallCertificate.json" ∷ "ocpp16/InstallCertificateResponse.json"
    ∷ "ocpp16/LogStatusNotification.json" ∷ "ocpp16/LogStatusNotificationResponse.json"
    ∷ "ocpp16/MeterValues.json" ∷ "ocpp16/MeterValuesResponse.json"
    ∷ "ocpp16/RemoteStartTransaction.json" ∷ "ocpp16/RemoteStartTransactionResponse.json"
    ∷ "ocpp16/RemoteStopTransaction.json" ∷ "ocpp16/RemoteStopTransactionResponse.json"
    ∷ "ocpp16/ReserveNow.json" ∷ "ocpp16/ReserveNowResponse.json" ∷ "ocpp16/Reset.json"
    ∷ "ocpp16/ResetResponse.json" ∷ "ocpp16/SecurityEventNotification.json"
    ∷ "ocpp16/SecurityEventNotificationResponse.json" ∷ "ocpp16/SendLocalList.json"
    ∷ "ocpp16/SendLocalListResponse.json" ∷ "ocpp16/SetChargingProfile.json"
    ∷ "ocpp16/SetChargingProfileResponse.json" ∷ "ocpp16/SignCertificate.json"
    ∷ "ocpp16/SignCertificateResponse.json" ∷ "ocpp16/SignedFirmwareStatusNotification.json"
    ∷ "ocpp16/SignedFirmwareStatusNotificationResponse.json" ∷ "ocpp16/SignedUpdateFirmware.json"
    ∷ "ocpp16/SignedUpdateFirmwareResponse.json" ∷ "ocpp16/StartTransaction.json"
    ∷ "ocpp16/StartTransactionResponse.json" ∷ "ocpp16/StatusNotification.json"
    ∷ "ocpp16/StatusNotificationResponse.json" ∷ "ocpp16/StopTransaction.json"
    ∷ "ocpp16/StopTransactionResponse.json" ∷ "ocpp16/TriggerMessage.json"
    ∷ "ocpp16/TriggerMessageResponse.json" ∷ "ocpp16/UnlockConnector.json"
    ∷ "ocpp16/UnlockConnectorResponse.json" ∷ "ocpp16/UpdateFirmware.json"
    ∷ "ocpp16/UpdateFirmwareResponse.json" ∷ "ocpp201/AuthorizeRequest.json"
    ∷ "ocpp201/AuthorizeResponse.json" ∷ "ocpp201/BootNotificationRequest.json"
    ∷ "ocpp201/BootNotificationResponse.json" ∷ "ocpp201/CancelReservationRequest.json"
    ∷ "ocpp201/CancelReservationResponse.json" ∷ "ocpp201/CertificateSignedRequest.json"
    ∷ "ocpp201/CertificateSignedResponse.json" ∷ "ocpp201/ChangeAvailabilityRequest.json"
    ∷ "ocpp201/ChangeAvailabilityResponse.json" ∷ "ocpp201/ClearCacheRequest.json"
    ∷ "ocpp201/ClearCacheResponse.json" ∷ "ocpp201/ClearChargingProfileRequest.json"
    ∷ "ocpp201/ClearChargingProfileResponse.json" ∷ "ocpp201/ClearDisplayMessageRequest.json"
    ∷ "ocpp201/ClearDisplayMessageResponse.json" ∷ "ocpp201/ClearVariableMonitoringRequest.json"
    ∷ "ocpp201/ClearVariableMonitoringResponse.json" ∷ "ocpp201/ClearedChargingLimitRequest.json"
    ∷ "ocpp201/ClearedChargingLimitResponse.json" ∷ "ocpp201/CostUpdatedRequest.json"
    ∷ "ocpp201/CostUpdatedResponse.json" ∷ "ocpp201/CustomerInformationRequest.json"
    ∷ "ocpp201/CustomerInformationResponse.json" ∷ "ocpp201/DataTransferRequest.json"
    ∷ "ocpp201/DataTransferResponse.json" ∷ "ocpp201/DeleteCertificateRequest.json"
    ∷ "ocpp201/DeleteCertificateResponse.json" ∷ "ocpp201/FirmwareStatusNotificationRequest.json"
    ∷ "ocpp201/FirmwareStatusNotificationResponse.json"
    ∷ "ocpp201/Get15118EVCertificateRequest.json" ∷ "ocpp201/Get15118EVCertificateResponse.json"
    ∷ "ocpp201/GetBaseReportRequest.json" ∷ "ocpp201/GetBaseReportResponse.json"
    ∷ "ocpp201/GetCertificateStatusRequest.json" ∷ "ocpp201/GetCertificateStatusResponse.json"
    ∷ "ocpp201/GetChargingProfilesRequest.json" ∷ "ocpp201/GetChargingProfilesResponse.json"
    ∷ "ocpp201/GetCompositeScheduleRequest.json" ∷ "ocpp201/GetCompositeScheduleResponse.json"
    ∷ "ocpp201/GetDisplayMessagesRequest.json" ∷ "ocpp201/GetDisplayMessagesResponse.json"
    ∷ "ocpp201/GetInstalledCertificateIdsRequest.json"
    ∷ "ocpp201/GetInstalledCertificateIdsResponse.json" ∷ "ocpp201/GetLocalListVersionRequest.json"
    ∷ "ocpp201/GetLocalListVersionResponse.json" ∷ "ocpp201/GetLogRequest.json"
    ∷ "ocpp201/GetLogResponse.json" ∷ "ocpp201/GetMonitoringReportRequest.json"
    ∷ "ocpp201/GetMonitoringReportResponse.json" ∷ "ocpp201/GetReportRequest.json"
    ∷ "ocpp201/GetReportResponse.json" ∷ "ocpp201/GetTransactionStatusRequest.json"
    ∷ "ocpp201/GetTransactionStatusResponse.json" ∷ "ocpp201/GetVariablesRequest.json"
    ∷ "ocpp201/GetVariablesResponse.json" ∷ "ocpp201/HeartbeatRequest.json"
    ∷ "ocpp201/HeartbeatResponse.json" ∷ "ocpp201/InstallCertificateRequest.json"
    ∷ "ocpp201/InstallCertificateResponse.json" ∷ "ocpp201/LogStatusNotificationRequest.json"
    ∷ "ocpp201/LogStatusNotificationResponse.json" ∷ "ocpp201/MeterValuesRequest.json"
    ∷ "ocpp201/MeterValuesResponse.json" ∷ "ocpp201/NotifyChargingLimitRequest.json"
    ∷ "ocpp201/NotifyChargingLimitResponse.json" ∷ "ocpp201/NotifyCustomerInformationRequest.json"
    ∷ "ocpp201/NotifyCustomerInformationResponse.json" ∷ "ocpp201/NotifyDisplayMessagesRequest.json"
    ∷ "ocpp201/NotifyDisplayMessagesResponse.json" ∷ "ocpp201/NotifyEVChargingNeedsRequest.json"
    ∷ "ocpp201/NotifyEVChargingNeedsResponse.json" ∷ "ocpp201/NotifyEVChargingScheduleRequest.json"
    ∷ "ocpp201/NotifyEVChargingScheduleResponse.json" ∷ "ocpp201/NotifyEventRequest.json"
    ∷ "ocpp201/NotifyEventResponse.json" ∷ "ocpp201/NotifyMonitoringReportRequest.json"
    ∷ "ocpp201/NotifyMonitoringReportResponse.json" ∷ "ocpp201/NotifyReportRequest.json"
    ∷ "ocpp201/NotifyReportResponse.json" ∷ "ocpp201/PublishFirmwareRequest.json"
    ∷ "ocpp201/PublishFirmwareResponse.json"
    ∷ "ocpp201/PublishFirmwareStatusNotificationRequest.json"
    ∷ "ocpp201/PublishFirmwareStatusNotificationResponse.json"
    ∷ "ocpp201/ReportChargingProfilesRequest.json" ∷ "ocpp201/ReportChargingProfilesResponse.json"
    ∷ "ocpp201/RequestStartTransactionRequest.json" ∷ "ocpp201/RequestStartTransactionResponse.json"
    ∷ "ocpp201/RequestStopTransactionRequest.json" ∷ "ocpp201/RequestStopTransactionResponse.json"
    ∷ "ocpp201/ReservationStatusUpdateRequest.json" ∷ "ocpp201/ReservationStatusUpdateResponse.json"
    ∷ "ocpp201/ReserveNowRequest.json" ∷ "ocpp201/ReserveNowResponse.json"
    ∷ "ocpp201/ResetRequest.json" ∷ "ocpp201/ResetResponse.json"
    ∷ "ocpp201/SecurityEventNotificationRequest.json"
    ∷ "ocpp201/SecurityEventNotificationResponse.json" ∷ "ocpp201/SendLocalListRequest.json"
    ∷ "ocpp201/SendLocalListResponse.json" ∷ "ocpp201/SetChargingProfileRequest.json"
    ∷ "ocpp201/SetChargingProfileResponse.json" ∷ "ocpp201/SetDisplayMessageRequest.json"
    ∷ "ocpp201/SetDisplayMessageResponse.json" ∷ "ocpp201/SetMonitoringBaseRequest.json"
    ∷ "ocpp201/SetMonitoringBaseResponse.json" ∷ "ocpp201/SetMonitoringLevelRequest.json"
    ∷ "ocpp201/SetMonitoringLevelResponse.json" ∷ "ocpp201/SetNetworkProfileRequest.json"
    ∷ "ocpp201/SetNetworkProfileResponse.json" ∷ "ocpp201/SetVariableMonitoringRequest.json"
    ∷ "ocpp201/SetVariableMonitoringResponse.json" ∷ "ocpp201/SetVariablesRequest.json"
    ∷ "ocpp201/SetVariablesResponse.json" ∷ "ocpp201/SignCertificateRequest.json"
    ∷ "ocpp201/SignCertificateResponse.json" ∷ "ocpp201/StatusNotificationRequest.json"
    ∷ "ocpp201/StatusNotificationResponse.json" ∷ "ocpp201/TransactionEventRequest.json"
    ∷ "ocpp201/TransactionEventResponse.json" ∷ "ocpp201/TriggerMessageRequest.json"
    ∷ "ocpp201/TriggerMessageResponse.json" ∷ "ocpp201/UnlockConnectorRequest.json"
    ∷ "ocpp201/UnlockConnectorResponse.json" ∷ "ocpp201/UnpublishFirmwareRequest.json"
    ∷ "ocpp201/UnpublishFirmwareResponse.json" ∷ "ocpp201/UpdateFirmwareRequest.json"
    ∷ "ocpp201/UpdateFirmwareResponse.json" ∷ []
