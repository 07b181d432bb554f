-- ===== src/Handlers/Ocpp201/Authorize/Accepted.antt =====
-- manager/handlers/ocpp201/authorize.go: when the answer is Accepted.
use maeve_csms_reservations.Prelude.{
  String, Bool, true, false, ◌&&◌, ◌≡◌, refl, Option, none, some, ◌==◌, Bool-cases, inl, inr,
}
use maeve_csms_reservations.Services.TokenAuth.{TokenAuthService}
use maeve_csms_reservations.Handlers.Ocpp201.Authorize.{
  cert_chain, cert_expired, cert_revoked, wrong_emaid, ServiceError, no_error, validation,
  other_error, CertificateValidationService, AuthorizeRequest, handle_certificate_validation_error,
  check_pem, check_hashes, authorize, judged,
}

abbrev pub is_no_error : ServiceError → Bool
is_no_error no_error = true
is_no_error (validation e) = false
is_no_error other_error = false

module _ {S H : Type 0} (service : CertificateValidationService S H) where
  -- The verdict on the certificate data that is looked at last, none being no error: the hashes
  -- if the request has them, else the chain.
  abbrev pub last_verdict : Option String → Option H → String → S → ServiceError
  last_verdict none none token s = no_error
  last_verdict (some pem) none token s = (service.validate_pem_certificate_chain pem token s).0
  last_verdict none (some hashes) token s = (service.validate_hashed_certificate_chain hashes s).0
  last_verdict (some pem) (some hashes) token s =
      (service.validate_hashed_certificate_chain hashes
        (service.validate_pem_certificate_chain pem token s).1).0

  judged-accepted : (r : ServiceError × S) → ((judged r).0.0 == "Accepted") ≡ is_no_error r.0
  unfolding handle_certificate_validation_error
  judged-accepted (no_error, s) = refl
  judged-accepted (validation cert_chain, s) = refl
  judged-accepted (validation cert_expired, s) = refl
  judged-accepted (validation cert_revoked, s) = refl
  judged-accepted (validation wrong_emaid, s) = refl
  judged-accepted (other_error, s) = refl

  checks-accepted :
      (certificate : Option String) (hashes : Option H) (token status : String) (s : S)
      → (status == "Accepted") ≡ true
      → ((check_hashes service hashes (check_pem service certificate token ((status, none), s))).0.0
          == "Accepted")
        ≡ is_no_error (last_verdict certificate hashes token s)
  checks-accepted none none token status s h = h
  checks-accepted (some pem) none token status s h =
      judged-accepted (service.validate_pem_certificate_chain pem token s)
  checks-accepted none (some hashes) token status s h =
      judged-accepted (service.validate_hashed_certificate_chain hashes s)
  checks-accepted (some pem) (some hashes) token status s h = judged-accepted (
      service.validate_hashed_certificate_chain hashes
        (service.validate_pem_certificate_chain pem token s).1)

  -- The answer is Accepted exactly if the token service accepts the token and the certificate data
  -- that is looked at last is without an error: where the request has both a chain and hashes,
  -- the verdict on the chain does not count.
  pub authorize-accepted_iff :
      (auth : TokenAuthService S) (req : AuthorizeRequest H) (s : S)
      → ((authorize service auth req s).0.id_token_info.status == "Accepted") ≡ (
          ((auth req.id_token s).0.status == "Accepted")
          && is_no_error (
              last_verdict req.certificate req.iso15118_certificate_hash_data req.id_token.id_token
                (auth req.id_token s).1))
  unfolding authorize
  authorize-accepted_iff auth req s =
      elim (Bool-cases ((auth req.id_token s).0.status == "Accepted")) [
        | inl e ↦ rw e (
            checks-accepted req.certificate req.iso15118_certificate_hash_data req.id_token.id_token
              (auth req.id_token s).0.status (auth req.id_token s).1 e)
        | inr e ↦ rw (e, e) refl
      ]
