-- ===== src/Handlers/Ocpp201/Authorize.antt =====
-- manager/handlers/ocpp201/authorize.go, over any token and certificate services.
pub mod Accepted
use maeve_csms_reservations.Prelude.{
  String, Bool, true, false, ◌≡◌, ◌≢◌, refl, Option, none, some, ◌==◌, if◌then◌else◌,
}
use maeve_csms_reservations.Services.TokenAuth.{IdToken, IdTokenInfo, TokenAuthService}

-- What is known of an `error` of the certificate service: none, one that wraps a
-- `ValidationError`, or another one.
pub data ValidationError : Type 0 where
  cert_chain : ValidationError
  cert_expired : ValidationError
  cert_revoked : ValidationError
  wrong_emaid : ValidationError

pub data ServiceError : Type 0 where
  no_error : ServiceError
  validation : ValidationError → ServiceError
  other_error : ServiceError

-- `CertificateValidationService`, less the responses that the handler drops: a PEM chain for a
-- token, or certificate hashes, of a type `H`.
pub record CertificateValidationService (S H : Type 0) : Type 0 where
  pub validate_pem_certificate_chain : String → String → S → ServiceError × S
  pub validate_hashed_certificate_chain : H → S → ServiceError × S

pub record AuthorizeRequest (H : Type 0) : Type 0 where
  pub certificate : Option String
  pub id_token : IdToken
  pub iso15118_certificate_hash_data : Option H

pub record AuthorizeResponse : Type 0 where
  pub id_token_info : IdTokenInfo
  pub certificate_status : Option String

abbrev pub status_of_validation : ValidationError → String
status_of_validation cert_expired = "CertificateExpired"
status_of_validation cert_revoked = "CertificateRevoked"
status_of_validation cert_chain = "CertChainError"
status_of_validation wrong_emaid = "CertChainError"

-- `handleCertificateValidationError`
unfoldable pub handle_certificate_validation_error : ServiceError → String × String
handle_certificate_validation_error no_error = ("Accepted", "Accepted")
handle_certificate_validation_error (validation e) = ("Blocked", status_of_validation e)
handle_certificate_validation_error other_error = ("Blocked", "SignatureError")

-- The status and the certificate status so far, and the state.
abbrev Progress : Type 0 → Type 0
Progress S = (String × Option String) × S

abbrev pub judged : {S : Type 0} → ServiceError × S → Progress S
judged (e, s) =
    let (status, certificate_status) = handle_certificate_validation_error e in
    ((status, some certificate_status), s)

module _ {S H : Type 0} (service : CertificateValidationService S H) where
  abbrev pub check_pem : Option String → String → Progress S → Progress S
  check_pem none token progress = progress
  check_pem (some pem) token (_, s) = judged (service.validate_pem_certificate_chain pem token s)

  abbrev pub check_hashes : Option H → Progress S → Progress S
  check_hashes none progress = progress
  check_hashes (some hashes) (_, s) = judged (service.validate_hashed_certificate_chain hashes s)

  abbrev pub check_certificates : AuthorizeRequest H → String → S → Progress S
  check_certificates req status s =
      if status == "Accepted"
      then check_hashes req.iso15118_certificate_hash_data
          (check_pem req.certificate req.id_token.id_token ((status, none), s))
      else ((status, none), s)

  -- `AuthorizeHandler.HandleCall`, which does not fail
  unfoldable pub authorize : TokenAuthService S → AuthorizeRequest H → S → AuthorizeResponse × S
  unfolding handle_certificate_validation_error
  authorize auth req s =
      let (info, after) = auth req.id_token s in
      let ((status, certificate_status), end) = check_certificates req info.status after in
      (
        record {
          id_token_info = record info { status = status };
          certificate_status = certificate_status;
        },
        end,
      )
