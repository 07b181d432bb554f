-- ===== src/Api/Server.antt =====
-- manager/api/server.go: the handlers. `engine` and `store` together are the `store.Engine`.
use maeve_csms_reservations.Prelude.{ℕ, String, Option, none, some, List, if◌then◌else◌, ◌==◌}
use maeve_csms_reservations.Prelude.Dict.{Dict}
use maeve_csms_reservations.Store
use maeve_csms_reservations.Store.{trigger_pending}
use maeve_csms_reservations.Store.Engine.{Result, ok, err, Action, Engine, ApiEngine}
use maeve_csms_reservations.Emaid
use maeve_csms_reservations.Emaid.{normalize_emaid}
use maeve_csms_reservations.Api.{
  ChargeStationAuth, InstallCertificate, Token, Registration, Answer, replied, body, Handler, bound,
  calling, pending_settings, install_certificates, page_limit, page_offset, stored_token, new_token,
  new_tokens, registration_status, stored_auth, shown_auth,
}

-- The status when the store has done its part; without one it is 200.
abbrev pub reply_with : {A : Type 0} → ℕ → Unit {0} → Answer A
reply_with code done = replied code

abbrev pub body_or_500 : {A : Type 0} → Result A → Answer A
body_or_500 (err e) = replied 500
body_or_500 (ok a) = body a

abbrev pub auth_answer : Option Store.ChargeStationAuth → Answer ChargeStationAuth
auth_answer none = replied 404
auth_answer (some auth) = body (shown_auth auth)

abbrev pub token_answer : (String → Result String) → Option Store.Token → Answer Token
token_answer parse_time none = replied 404
token_answer parse_time (some tok) = body_or_500 (new_token parse_time tok)

abbrev pub certificate_answer : String → Answer String
certificate_answer pem = if pem == "" then replied 404 else body pem

-- The conversions between texts and their bytes.
pub record Bytes : Type 0 where
  pub of_text : String → List ℕ
  pub to_text : List ℕ → String

module _ {S F : Type 0} (engine : Engine S F) (store : ApiEngine S) where
  unfoldable pub register_charge_station : String → Result ChargeStationAuth → Handler S (Unit {0})
  register_charge_station cs_id request =
      bound request
        (λ req. calling (store.set_charge_station_auth cs_id (stored_auth req)) (reply_with 201))

  unfoldable pub lookup_charge_station_auth : String → Handler S ChargeStationAuth
  lookup_charge_station_auth cs_id = calling (store.lookup_charge_station_auth cs_id) auth_answer

  unfoldable pub reconfigure_charge_station : String → Result (Dict String) → Handler S (Unit {0})
  reconfigure_charge_station cs_id request = bound request (λ req.
      calling
        (engine.update_charge_station_settings cs_id
          (record { charge_station_id = ""; settings = pending_settings req }))
        (reply_with 200))

  -- The loop over the certificates refuses the request at the first one without an id.
  unfoldable pub install_charge_station_certificates :
      (String → Result String) → String → Result (List InstallCertificate) → Handler S (Unit {0})
  unfolding install_certificates
  install_charge_station_certificates certificate_id cs_id request = bound request (λ req.
      bound (install_certificates certificate_id req) (λ certs.
        calling
          (engine.update_charge_station_install_certificates cs_id
            (record { charge_station_id = cs_id; certificates = certs }))
          (reply_with 200)))

  unfoldable pub trigger_charge_station : String → Result String → Handler S (Unit {0})
  trigger_charge_station cs_id request = bound request (λ trigger.
      calling
        (engine.set_charge_station_trigger_message cs_id (record {
          charge_station_id = "";
          trigger_message = trigger;
          trigger_status = trigger_pending;
          send_after = 0;
        }))
        (reply_with 201))

  -- The check of the contract id: its panic, which never comes, is the server's status 500.
  abbrev pub set_normalized_token : Bytes → String → Token → Emaid.Outcome → Handler S (Unit {0})
  set_normalized_token bytes now req Emaid.panic s = (replied 500, s)
  set_normalized_token bytes now req Emaid.invalid s = (replied 400, s)
  set_normalized_token bytes now req (Emaid.bad_check_digit found expected) s = (replied 400, s)
  set_normalized_token bytes now req (Emaid.ok contract_id) s =
      calling (store.set_token (stored_token now (bytes.to_text contract_id) req)) (reply_with 201)
        s

  unfoldable pub set_token : Bytes → String → Result Token → Handler S (Unit {0})
  set_token bytes now request =
      bound request (λ req.
        set_normalized_token bytes now req (normalize_emaid (bytes.of_text req.contract_id)))

  unfoldable pub lookup_token : (String → Result String) → String → Handler S Token
  lookup_token parse_time token_uid =
      calling (engine.lookup_token token_uid) (token_answer parse_time)

  unfoldable pub list_tokens :
      (String → Result String) → Option ℕ → Option ℕ → Handler S (List Token)
  unfolding page_limit
  list_tokens parse_time offset limit =
      calling (store.list_tokens (page_offset offset) (page_limit limit))
        (λ tokens. body_or_500 (new_tokens parse_time tokens))

  unfoldable pub upload_certificate : Result String → Handler S (Unit {0})
  upload_certificate request =
      bound request (λ pem. calling (store.set_certificate pem) (reply_with 201))

  unfoldable pub delete_certificate : String → Handler S (Unit {0})
  delete_certificate hash = calling (store.delete_certificate hash) (reply_with 204)

  unfoldable pub lookup_certificate : String → Handler S String
  lookup_certificate hash = calling (store.lookup_certificate hash) certificate_answer

  -- With a URL the OCPI module registers the party, else the token is stored.
  abbrev pub register_with :
      (String → String → Action S (Unit {0})) → Registration → Option String → Handler S (Unit {0})
  register_with register_new_party req (some url) =
      calling (register_new_party url req.token) (reply_with 201)
  register_with register_new_party req none =
      calling
        (store.set_registration_details req.token
          (record { status = registration_status req.status }))
        (reply_with 201)

  unfoldable pub register_party :
      Option (String → String → Action S (Unit {0})) → Result Registration → Handler S (Unit {0})
  register_party none request s = (replied 404, s)
  register_party (some register_new_party) request s =
      bound request (λ req. register_with register_new_party req req.url) s
