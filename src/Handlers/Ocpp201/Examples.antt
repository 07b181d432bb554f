-- ===== src/Handlers/Ocpp201/Examples.antt =====
-- Concrete runs for the theorems on manager/handlers/ocpp201/: a certificate that is signed and
-- accepted, and a trigger message that is refused.
use maeve_csms_reservations.Prelude.{ℕ, String, none, some, ◌==◌, if◌then◌else◌}
use maeve_csms_reservations.Store.Engine.{Result, ok, err}
use maeve_csms_reservations.Store.Examples.{search}
use maeve_csms_reservations.Store.InMemory.{Store, new_store}
use maeve_csms_reservations.Store.InMemory.AsEngine.{in_memory}
use maeve_csms_reservations.Handlers.Ocpp201.Certificates.{
  SignCertificateRequest, Provider, sign_certificate,
}

abbrev provide : Provider
provide type csr cs_id = ok "chain"

abbrev certificate_id : String → Result String
certificate_id pem = if pem == "chain" then ok "d1" else err "failed to decode certificate chain"

abbrev request : SignCertificateRequest
request = record { csr = "csr"; certificate_type = none }

abbrev empty : Store ℕ
empty = new_store ℕ

abbrev signed_store : Store ℕ
signed_store =
    (sign_certificate (in_memory search) certificate_id (some provide) "cs001" request empty).1
