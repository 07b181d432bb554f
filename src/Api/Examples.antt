-- ===== src/Api/Examples.antt =====
-- Concrete requests for the theorems on manager/api/server.go: a token whose contract id is written
-- with dashes, and a charge station that is registered and connects with its password.
use maeve_csms_reservations.Prelude.{
  ◌≡◌, refl, sym, ◌∙◌, ◌↔◌, String, ℕ, Bool, true, false, none, some, List, [], ◌==◌, All,
  if◌then◌else◌, arith, ne_of_eq-false,
}
use maeve_csms_reservations.Prelude.Int.{pos, to_int8}
use maeve_csms_reservations.Prelude.Dict.{lookup, insert}
use maeve_csms_reservations.Store.InMemory.Stations.{
  set_charge_station_auth, lookup_charge_station_auth,
}
use maeve_csms_reservations.Store.Engine.{Result, ok, err}
use maeve_csms_reservations.Store.Examples.{search}
use maeve_csms_reservations.Store.InMemory.{new_store}
use maeve_csms_reservations.Store.InMemory.AsEngine.{in_memory, in_memory_api}
use maeve_csms_reservations.Emaid
use maeve_csms_reservations.Emaid.{normalize_emaid}
use maeve_csms_reservations.Emaid.Examples.{typed, normal, typed-normal}
use maeve_csms_reservations.Emaid.FixedPoint.{normalize_emaid_idem}
use maeve_csms_reservations.Gateway.Admission.{Request, admit, accepted}
use maeve_csms_reservations.Gateway.Admission.Policy.{MayConnect}
use maeve_csms_reservations.Gateway.Registry.{Libraries, remote_registry}
use maeve_csms_reservations.Api.{Token, ChargeStationAuth}
use maeve_csms_reservations.Api.Server.{Bytes}
use maeve_csms_reservations.Api.Server
use maeve_csms_reservations.Api.Tokens.{IsNormal, set_token-IsNormal}
use maeve_csms_reservations.Api.Connect.{details_of, registered, register-admit}

abbrev hash : String → Result String
hash pem = ok pem

-- Two texts matter here: the contract id with dashes, and its normal form.
abbrev read_text : Bool → List ℕ
read_text true = typed
read_text false = normal

abbrev bytes : Bytes
bytes = record {
  of_text = λ text. read_text (text == "GB-TWK-012345678-V");
  to_text = λ l. "GBTWK012345678V";
}

ok_unique : {t : List ℕ} → Emaid.ok normal ≡ Emaid.ok t → normal ≡ t
ok_unique e = ground arith

read_text-exact : (b : Bool) (t : List ℕ) → normalize_emaid (read_text b) ≡ Emaid.ok t → normal ≡ t
read_text-exact true t e = ok_unique (sym typed-normal ∙ e)
read_text-exact false t e = ok_unique (sym (normalize_emaid_idem typed normal typed-normal) ∙ e)

abbrev dashed : Token
dashed = record {
  country_code = "GB";
  party_id = "TWK";
  type = "RFID";
  uid = "DEADBEEF";
  contract_id = "GB-TWK-012345678-V";
  visual_number = none;
  issuer = "Thoughtworks";
  group_id = none;
  valid = true;
  language_code = none;
  cache_mode = "ALWAYS";
  last_updated = none;
}

set_token-IsNormal_example :
    All
      (IsNormal bytes)
      (Server.set_token
        (in_memory search)
        (in_memory_api "now" hash)
        bytes
        "now"
        (ok dashed)
        (new_store ℕ)).1.tokens
set_token-IsNormal_example =
    set_token-IsNormal (in_memory search) "now" hash bytes "now" (ok dashed) (new_store ℕ)
      (λ req t e. read_text-exact (req.contract_id == "GB-TWK-012345678-V") t e) tt

abbrev id : String
id = "cs001"

abbrev registration : ChargeStationAuth
registration = record {
  security_profile = pos 0;
  base64_sha256_password = some "c2VjcmV0";
  invalid_username_allowed = none;
}

-- The JSON of the one registration.
abbrev encode : ChargeStationAuth → String
encode auth = "{securityProfile:0,...}"

abbrev lib : Libraries
lib = record {
  http_get = λ url. ok (record { status_code = 200; body = ok "{securityProfile:0,...}" });
  unmarshal_auth = λ text. ok (details_of registration);
  unmarshal_certificate = λ text. err "no certificate";
  pem_decode = λ text. none;
  parse_certificate = λ text. err "no certificate";
  replace = λ text old new. text;
}

abbrev request : Request
request = record {
  tls = none;
  basic_auth = some (id, "secret");
  proxy_headers = record {
    forwarded_proto = "";
    client_cert_present = "";
    client_cert_chain_verified = "";
    client_cert_hash = "";
  };
}

abbrev password_hash : String → String
password_hash password = if password == "secret" then "c2VjcmV0" else ""

register-admit_example :
    (admit password_hash [] (remote_registry lib "http://manager") id request
      ≡ accepted (registered id registration))
    ↔ ((registered id registration ≡ registered id registration)
        × MayConnect password_hash [] request (registered id registration))
unfolding Server.register_charge_station Server.lookup_charge_station_auth set_charge_station_auth
    lookup_charge_station_auth to_int8 lookup insert
register-admit_example =
    register-admit (in_memory search) "now" hash lib "http://manager" id encode registration
      (new_store ℕ) password_hash [] request (registered id registration) (ne_of_eq-false refl) refl
      (omega arith) refl refl
