-- ===== src/Services.antt =====
-- manager/services/: the services that the handlers call.
pub mod TokenAuth
pub mod Tariff
