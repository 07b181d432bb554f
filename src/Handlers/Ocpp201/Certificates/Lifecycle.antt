-- ===== src/Handlers/Ocpp201/Certificates/Lifecycle.antt =====
-- manager/handlers/ocpp201/sign_certificate.go and certificate_signed_result.go with
-- manager/store/inmemory/store.go: a certificate that is signed, and then taken or refused by the
-- charge station.
use maeve_csms_reservations.Prelude.{
  ◌≡◌, String, Option, none, some, List, [], ◌∷◌, ◌==◌, if◌then◌else◌,
}
use maeve_csms_reservations.Prelude.Dict.{lookup}
use maeve_csms_reservations.Store.{
  ChargeStationInstallCertificate, ChargeStationInstallCertificates,
}
use maeve_csms_reservations.Store.Engine.{Result, err}
use maeve_csms_reservations.Store.InMemory.{Store}
use maeve_csms_reservations.Handlers.Ocpp201.Certificates.{
  SignCertificateRequest, Provider, or_v2g, provided_type,
}

-- What is known of a certificate: its installation status, and its text.
abbrev pub status_of : ChargeStationInstallCertificate → String × String
status_of c = (c.certificate_installation_status, c.certificate_data)

-- The status and the text of the certificate with the id.
abbrev pub status_in : String → List ChargeStationInstallCertificate → Option (String × String)
status_in id [] = none
status_in id (c ∷ certs) = if c.certificate_id == id then some (status_of c) else status_in id certs

abbrev pub certificates_of :
    Option ChargeStationInstallCertificates → List ChargeStationInstallCertificate
certificates_of none = []
certificates_of (some certs) = certs.certificates

abbrev pub certificate_status : {F : Type 0} → String → String → Store F → Option (String × String)
certificate_status cs_id id s =
    status_in id (certificates_of (lookup cs_id s.charge_station_install_certificates))

-- The status after an update with one certificate: the new one, every other what it was.
abbrev status_after_update :
    ChargeStationInstallCertificate
    → List ChargeStationInstallCertificate
    → String
    → Option (String × String)
status_after_update v certs id =
    if v.certificate_id == id then some (status_of v) else status_in id certs

-- What replacing a stored certificate by the update comes to.
abbrev Replaced :
    ChargeStationInstallCertificate
    → List ChargeStationInstallCertificate
    → String
    → Option (List ChargeStationInstallCertificate)
    → Type 0
Replaced v certs id none = status_in v.certificate_id certs ≡ none
Replaced v certs id (some replaced) = status_in id replaced ≡ status_after_update v certs id

-- What the provider has signed for the charge station, if there is a provider.
abbrev pub signed_for : Option Provider → String → SignCertificateRequest → Result String
signed_for none cs_id req = err "no provider"
signed_for (some provide) cs_id req =
    provide (provided_type (or_v2g req.certificate_type)) req.csr cs_id
