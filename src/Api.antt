-- ===== src/Api.antt =====
-- manager/api/server.go: the HTTP API, over any store. A handler gets what
-- `render.Bind` makes of the request and gives an answer: an HTTP status or a body with status 200.
-- The identity of a PEM certificate and the text of the time are parameters.
pub mod Server
pub mod Locations
mod Examples
pub mod Connect
pub mod Tokens
use maeve_csms_reservations.Prelude.{
  ℕ, String, Bool, true, false, Option, none, some, List, [], ◌∷◌, leb, if◌then◌else◌, ◌==◌,
}
use maeve_csms_reservations.Prelude.Dict.{Dict}
use maeve_csms_reservations.Prelude.Int.{ℤ, to_int8}
use maeve_csms_reservations.Store
use maeve_csms_reservations.Store.{
  ChargeStationSetting, ChargeStationInstallCertificate, setting_pending, trigger_pending,
  OcpiRegistration,
}
use maeve_csms_reservations.Store.Engine.{Result, ok, err, Action, Engine, ApiEngine}
use maeve_csms_reservations.Emaid

-- The bodies of requests and responses.
pub record ChargeStationAuth : Type 0 where
  pub security_profile : ℤ
  pub base64_sha256_password : Option String
  pub invalid_username_allowed : Option Bool

pub record InstallCertificate : Type 0 where
  pub certificate : String
  pub status : Option String
  pub type : String

pub record Token : Type 0 where
  pub country_code : String
  pub party_id : String
  pub type : String
  pub uid : String
  pub contract_id : String
  pub visual_number : Option String
  pub issuer : String
  pub group_id : Option String
  pub valid : Bool
  pub language_code : Option String
  pub cache_mode : String
  pub last_updated : Option String

pub record Registration : Type 0 where
  pub token : String
  pub url : Option String
  pub status : Option String

pub data Answer {ℓ} (A : Type ℓ) : Type ℓ where
  replied : ℕ → Answer A
  body : A → Answer A

abbrev pub Handler : Type 0 → Type 0 → Type 0
Handler S A = S → Answer A × S

module _ {S A : Type 0} where
  -- `render.Bind`, whose error is the client's.
  abbrev pub bound : {B : Type 0} → Result B → (B → Handler S A) → Handler S A
  bound (err e) f s = (replied 400, s)
  bound (ok b) f s = f b s

  abbrev pub answered : {B : Type 0} → Result B → (B → Answer A) → S → Answer A × S
  answered (err e) f s = (replied 500, s)
  answered (ok b) f s = (f b, s)

  -- A call of the store, whose error is an internal one.
  abbrev pub calling : {B : Type 0} → Action S B → (B → Answer A) → Handler S A
  calling m f s = let (o, t) = m s in answered o f t

abbrev pub text_or_empty : Option String → String
text_or_empty none = ""
text_or_empty (some text) = text

abbrev pub is_set : Option Bool → Bool
is_set none = false
is_set (some b) = b

abbrev pub text_unless_empty : String → Option String
text_unless_empty text = if text == "" then none else some text

abbrev pub pending_settings : Dict String → Dict ChargeStationSetting
pending_settings [] = []
pending_settings ((k, v) ∷ rest) =
    (k, record { value = v; status = setting_pending; send_after = 0 }) ∷ pending_settings rest

abbrev pub status_or_pending : Option String → String
status_or_pending none = "Pending"
status_or_pending (some status) = status

abbrev pub install_certificate :
    InstallCertificate → Result String → Result ChargeStationInstallCertificate
install_certificate cert (err e) = err e
install_certificate cert (ok certificate_id) = ok (record {
  certificate_type = cert.type;
  certificate_id = certificate_id;
  certificate_data = cert.certificate;
  certificate_installation_status = status_or_pending cert.status;
  send_after = 0;
})

abbrev pub prepend :
    Result ChargeStationInstallCertificate
    → Result (List ChargeStationInstallCertificate)
    → Result (List ChargeStationInstallCertificate)
prepend (err e) rest = err e
prepend (ok c) (err e) = err e
prepend (ok c) (ok rest) = ok (c ∷ rest)

-- The loop over the certificates, which ends at the first without an id.
unfoldable pub install_certificates :
    (String → Result String)
    → List InstallCertificate
    → Result (List ChargeStationInstallCertificate)
install_certificates certificate_id [] = ok []
install_certificates certificate_id (cert ∷ rest) =
    prepend (install_certificate cert (certificate_id cert.certificate))
      (install_certificates certificate_id rest)

-- At most 100 tokens, 20 if the request says nothing. The OpenAPI description has no negative number.
abbrev pub clamp : ℕ → ℕ
clamp limit = if leb limit 100 then limit else 100

unfoldable pub page_limit : Option ℕ → ℕ
page_limit none = clamp 20
page_limit (some limit) = clamp limit

abbrev pub page_offset : Option ℕ → ℕ
page_offset none = 0
page_offset (some offset) = offset

-- The token as it is stored; the time is a text of RFC 3339.
abbrev pub stored_token : String → String → Token → Store.Token
stored_token now contract_id req = record {
  country_code = req.country_code;
  party_id = req.party_id;
  type = req.type;
  uid = req.uid;
  contract_id = contract_id;
  visual_number = req.visual_number;
  issuer = req.issuer;
  group_id = req.group_id;
  valid = req.valid;
  language_code = req.language_code;
  cache_mode = req.cache_mode;
  last_updated = now;
}

abbrev pub shown_token : Store.Token → Result String → Result Token
shown_token tok (err e) = err e
shown_token tok (ok last_updated) = ok (record {
  country_code = tok.country_code;
  party_id = tok.party_id;
  type = tok.type;
  uid = tok.uid;
  contract_id = tok.contract_id;
  visual_number = tok.visual_number;
  issuer = tok.issuer;
  group_id = tok.group_id;
  valid = tok.valid;
  language_code = tok.language_code;
  cache_mode = tok.cache_mode;
  last_updated = some last_updated;
})

-- `newToken`, with `time.Parse` of RFC 3339
abbrev pub new_token : (String → Result String) → Store.Token → Result Token
new_token parse_time tok = shown_token tok (parse_time tok.last_updated)

abbrev pub prepend_token : Result Token → Result (List Token) → Result (List Token)
prepend_token (err e) rest = err e
prepend_token (ok t) (err e) = err e
prepend_token (ok t) (ok rest) = ok (t ∷ rest)

abbrev pub new_tokens : (String → Result String) → List Store.Token → Result (List Token)
new_tokens parse_time [] = ok []
new_tokens parse_time (tok ∷ rest) =
    prepend_token (new_token parse_time tok) (new_tokens parse_time rest)

abbrev pub registration_status : Option String → String
registration_status none = "pending"
registration_status (some status) = if status == "REGISTERED" then "registered" else "pending"

abbrev pub stored_auth : ChargeStationAuth → Store.ChargeStationAuth
stored_auth req = record {
  security_profile = to_int8 req.security_profile;
  base64_sha256_password = text_or_empty req.base64_sha256_password;
  invalid_username_allowed = is_set req.invalid_username_allowed;
}

abbrev pub shown_auth : Store.ChargeStationAuth → ChargeStationAuth
shown_auth auth = record {
  security_profile = auth.security_profile;
  base64_sha256_password = text_unless_empty auth.base64_sha256_password;
  invalid_username_allowed = some auth.invalid_username_allowed;
}
