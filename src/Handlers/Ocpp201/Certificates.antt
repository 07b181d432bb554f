-- ===== src/Handlers/Ocpp201/Certificates.antt =====
-- manager/handlers/ocpp201/sign_certificate.go, certificate_signed_result.go,
-- install_certificate_result.go and certificate_id.go: the certificates of a charge station, from
-- the signing to the installation. The provider that signs, PEM and the digest are parameters.
pub mod Lifecycle
use Prim.Native.String.{◌++◌}
use maeve_csms_reservations.Prelude.{
  String, Bool, true, false, Option, none, some, List, [], ◌∷◌, ◌==◌, if◌then◌else◌,
}
use maeve_csms_reservations.Store.{ChargeStationInstallCertificates}
use maeve_csms_reservations.Store.Engine.{Result, ok, err, Action, Engine, fail}

abbrev pub id_of_block : (String → String) → Option (String × String) → Result String
id_of_block digest none = err "failed to decode certificate chain"
id_of_block digest (some (type, bytes)) =
    if type == "CERTIFICATE" then ok (digest bytes) else err ("expected certificate, got " ++ type)

-- `GetCertificateId`: `pem.Decode` of the first block, and the hexadecimal SHA-256
unfoldable pub get_certificate_id :
    (String → Option (String × String)) → (String → String) → String → Result String
get_certificate_id pem_decode digest pem_data = id_of_block digest (pem_decode pem_data)

pub record SignCertificateRequest : Type 0 where
  pub csr : String
  pub certificate_type : Option String

pub record CertificateSignedRequest : Type 0 where
  pub certificate_chain : String
  pub certificate_type : Option String

pub record InstallCertificateRequest : Type 0 where
  pub certificate : String
  pub certificate_type : String

abbrev pub or_v2g : Option String → String
or_v2g none = "V2GCertificate"
or_v2g (some type) = type

-- An update with one certificate
abbrev pub one_certificate : String → String → String → String → ChargeStationInstallCertificates
one_certificate type id pem installation_status = record {
  charge_station_id = "";
  certificates =
      record {
        certificate_type = type;
        certificate_id = id;
        certificate_data = pem;
        certificate_installation_status = installation_status;
        send_after = 0;
      }
      ∷ [];
}

-- The provider's kind of certificate, and the store's
abbrev pub provided_type : String → String
provided_type type = if type == "ChargingStationCertificate" then "CSO" else "V2G"

abbrev pub signing_type : String → String
signing_type type = if type == "ChargingStationCertificate" then "ChargeStation" else "EVCC"

-- The switches over named values; another value leaves the empty text.
abbrev pub signed_type : String → String
signed_type type =
    if type == "V2GCertificate"
    then "EVCC"
    else (if type == "ChargingStationCertificate" then "ChargeStation" else "")

abbrev pub signed_status : String → String
signed_status answer =
    if answer == "Accepted" then "Accepted" else (if answer == "Rejected" then "Rejected" else "")

abbrev pub root_type : String → String
root_type type =
    if type == "V2GRootCertificate"
    then "V2G"
    else (if type == "MORootCertificate"
        then "MO"
        else (if type == "CSMSRootCertificate"
            then "CSMS"
            else (if type == "ManufacturerRootCertificate" then "MF" else "")))

abbrev pub install_status : String → String
install_status answer =
    if answer == "Accepted"
    then "Accepted"
    else (if answer == "Rejected"
        then "Rejected"
        else (if answer == "Failed" then "Pending" else ""))

-- The certificate type, the request for signing and the charge station
abbrev pub Provider : Type 0
Provider = String → String → String → Result String

module _ {S F : Type 0} (engine : Engine S F) (certificate_id : String → Result String) where
  -- Whatever fails is logged, and the request rejected.
  abbrev pub status_after : Result (Unit {0}) × S → String × S
  status_after (ok done, s) = ("Accepted", s)
  status_after (err e, s) = ("Rejected", s)

  abbrev pub store_signed : String → String → String → Result String → S → String × S
  store_signed cs_id type pem_chain (err e) s = ("Rejected", s)
  store_signed cs_id type pem_chain (ok id) s = status_after (
      engine.update_charge_station_install_certificates cs_id
        (one_certificate type id pem_chain "Pending") s)

  abbrev pub signed : String → String → Result String → S → String × S
  signed cs_id type (err e) s = ("Rejected", s)
  signed cs_id type (ok pem_chain) s =
      store_signed cs_id type pem_chain (certificate_id pem_chain) s

  -- `SignCertificateHandler.HandleCall`: the status of the answer
  unfoldable pub sign_certificate :
      Option Provider → String → SignCertificateRequest → S → String × S
  sign_certificate none cs_id req s = ("Rejected", s)
  sign_certificate (some provide) cs_id req s =
      let type = or_v2g req.certificate_type in
      signed cs_id (signing_type type) (provide (provided_type type) req.csr cs_id) s

  abbrev pub store_certificate :
      String → String → String → String → Result String → Action S (Unit {0})
  store_certificate cs_id type pem installation_status (err e) = fail e
  store_certificate cs_id type pem installation_status (ok id) =
      engine.update_charge_station_install_certificates cs_id
        (one_certificate type id pem installation_status)

  -- `CertificateSignedResultHandler.HandleCallResult`, with the status of the response
  unfoldable pub certificate_signed_result :
      String → CertificateSignedRequest → String → Action S (Unit {0})
  certificate_signed_result cs_id req answer =
      store_certificate cs_id (signed_type (or_v2g req.certificate_type)) req.certificate_chain
        (signed_status answer) (certificate_id req.certificate_chain)

  -- `InstallCertificateResultHandler.HandleCallResult`, with the status of the response
  unfoldable pub install_certificate_result :
      String → InstallCertificateRequest → String → Action S (Unit {0})
  install_certificate_result cs_id req answer =
      store_certificate cs_id (root_type req.certificate_type) req.certificate
        (install_status answer) (certificate_id req.certificate)
