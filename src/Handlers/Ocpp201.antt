-- ===== src/Handlers/Ocpp201.antt =====
-- manager/handlers/ocpp201/: the handlers of OCPP 2.0.1 messages.
pub mod Examples
pub mod Results
pub mod Certificates
pub mod Routing
pub mod TransactionEvent
pub mod Authorize
