-- ===== src/Gateway/Admission/Examples.antt =====
-- Concrete requests for the theorems on gateway/server/ws.go and middleware.go: a station with a
-- password, and one with a certificate behind a proxy.
use maeve_csms_reservations.Prelude.{
  ◌≡◌, refl, ◌≢◌, ◌↔◌, String, true, false, none, some, [], ◌∷◌, ◌==◌, if◌then◌else◌,
}
use maeve_csms_reservations.Prelude.Int.{pos}
use maeve_csms_reservations.Prelude.Result.{ok}
use maeve_csms_reservations.Gateway.Admission.{
  Certificate, ChargeStation, Request, DeviceRegistry, accepted, admit, ParseBool, tls_offload,
}
use maeve_csms_reservations.Gateway.Admission.Policy.{Member, MayConnect, admit-accepted_iff}
use maeve_csms_reservations.Gateway.Admission.Offload.{admit-tls_offload}

abbrev hash : String → String
hash password = if password == "secret" then "c2VjcmV0" else ""

abbrev parse_bool : ParseBool
parse_bool text = if text == "true" then some true else none

abbrev leaf : Certificate
leaf = record { organization = "Else" ∷ "Acme" ∷ []; common_name = "cs002" }

abbrev station : ChargeStation
station = record {
  client_id = "cs001";
  security_profile = pos 2;
  base64_sha256_password = "c2VjcmV0";
  invalid_username_allowed = false;
}

abbrev unsecured_station : ChargeStation
unsecured_station = record station { client_id = "cs002"; security_profile = pos 0 }

abbrev registry : DeviceRegistry
registry = record {
  lookup_charge_station = λ id.
      if id == "cs001"
      then ok (some station)
      else (if id == "cs002" then ok (some unsecured_station) else ok none);
  lookup_certificate = λ h. if h == "aGFzaA" then ok (some leaf) else ok none;
}

abbrev proxied : Request
proxied = record {
  tls = none;
  basic_auth = some ("cs001", "secret");
  proxy_headers = record {
    forwarded_proto = "https";
    client_cert_present = "true";
    client_cert_chain_verified = "true";
    client_cert_hash = "aGFzaA";
  };
}

admit-tls_offload_example :
    (parse_bool "true" ≡ some true)
    × (parse_bool "true" ≡ some true)
    × ((found : Certificate) × (registry.lookup_certificate "aGFzaA" ≡ ok (some found))
        × ((org : String) × Member org found.organization × Member org ("Acme" ∷ [])))
unfolding admit tls_offload
admit-tls_offload_example =
    admit-tls_offload hash ("Acme" ∷ []) parse_bool registry "cs001" proxied station refl refl refl

abbrev second : String
second = "cs002"

abbrev direct : Request
direct = record proxied { basic_auth = some (second, "secret") }

admit-accepted_iff_example : (admit hash [] registry second direct ≡ accepted unsecured_station) ↔ (
    (second ≢ "")
    × (registry.lookup_charge_station second ≡ ok (some unsecured_station))
    × MayConnect hash [] direct unsecured_station)
admit-accepted_iff_example = admit-accepted_iff hash [] registry second direct unsecured_station
