-- ===== src/Handlers/Ocpp16.antt =====
-- manager/handlers/ocpp16/: the handlers of OCPP 1.6 messages.
pub mod DataTransfer
pub mod Routing
pub mod Uuid
pub mod Transactions
pub mod Settings
pub mod Examples
