-- ===== src/Api/Connect.antt =====
-- manager/api/server.go, manager/store/inmemory/store.go, gateway/registry/remote.go and
-- gateway/server/ws.go together: a charge station that is registered through the API, and whom the
-- gateway, which asks the API, then lets in.
use maeve_csms_reservations.Prelude.{
  ◌≡◌, refl, sym, ap, ◌∙◌, ◌≢◌, ◌↔◌, inl, inr, ◌<◌, String, ℕ, some, List, ◌==◌, eq_iff, eq_refl,
  Bool-cases, arith,
}
use maeve_csms_reservations.Prelude.Dict.{lookup-insert}
use maeve_csms_reservations.Prelude.Int.{pos, to_int8, to_int8_id}
use maeve_csms_reservations.Prelude.Result.{ok}
use maeve_csms_reservations.Store.Engine.{Engine}
use maeve_csms_reservations.Store.InMemory.{Store}
use maeve_csms_reservations.Store.InMemory.Stations.{
  set_charge_station_auth, lookup_charge_station_auth,
}
use maeve_csms_reservations.Store.InMemory.Records.{CertificateHash}
use maeve_csms_reservations.Store.InMemory.AsEngine.{in_memory_api}
use maeve_csms_reservations.Gateway.Admission.{ChargeStation, Request, admit, accepted}
use maeve_csms_reservations.Gateway.Admission.Policy.{MayConnect, admit-accepted_iff}
use maeve_csms_reservations.Gateway.Registry
use maeve_csms_reservations.Gateway.Registry.{
  Response, Libraries, ChargeStationAuthDetailsResponse, remote_registry, auth_path,
  lookup_charge_station,
}
use maeve_csms_reservations.Api.{
  ChargeStationAuth, Answer, replied, body, text_or_empty, is_set, text_unless_empty, stored_auth,
  shown_auth,
}
use maeve_csms_reservations.Api.Server

-- An answer on its way: its status, and the JSON of its body.
abbrev pub served : (ChargeStationAuth → String) → Answer ChargeStationAuth → Response
served encode (replied code) = record { status_code = code; body = ok "" }
served encode (body auth) = record { status_code = 200; body = ok (encode auth) }

-- What the JSON of the API's body is as the registry's: the fields have the same names, and a
-- missing field is the zero value.
abbrev pub details_of : ChargeStationAuth → ChargeStationAuthDetailsResponse
details_of auth = record {
  security_profile = auth.security_profile;
  base64_sha256_password = text_or_empty auth.base64_sha256_password;
  invalid_username_allowed = is_set auth.invalid_username_allowed;
}

-- The charge station that a registration describes.
abbrev pub registered : String → ChargeStationAuth → ChargeStation
registered id req = record {
  client_id = id;
  security_profile = req.security_profile;
  base64_sha256_password = text_or_empty req.base64_sha256_password;
  invalid_username_allowed = is_set req.invalid_username_allowed;
}

text_or_empty-text_unless_empty : (text : String) → text_or_empty (text_unless_empty text) ≡ text
text_or_empty-text_unless_empty text = elim (Bool-cases (text == "")) [
  | inl e ↦ rw e (sym ((eq_iff text "").0 e))
  | inr e ↦ rw e refl
]

details_of-registered :
    (id : String) (req : ChargeStationAuth) {n : ℕ}
    → req.security_profile ≡ pos n
    → n < 128
    → Registry.charge_station_of id (details_of (shown_auth (stored_auth req))) ≡ registered id req
details_of-registered id req {n} p small =
    let profile : to_int8 req.security_profile ≡ req.security_profile =
      ap to_int8 p ∙ to_int8_id n small ∙ sym p in
    rw (profile, text_or_empty-text_unless_empty (text_or_empty req.base64_sha256_password)) refl

found_unique : {a b : ChargeStation} → ok (some a) ≡ ok (some b) → b ≡ a
found_unique e = ground arith

module _ {F : Type 0} (engine : Engine (Store F) F) (clock : String)
    (cert_hash : CertificateHash) where
  lookup-register :
      (id : String) (req : ChargeStationAuth) (s : Store F)
      → let api = in_memory_api clock cert_hash in
        let t = (Server.register_charge_station engine api id (ok req) s).1 in
        (Server.lookup_charge_station_auth engine api id t).0 ≡ body (shown_auth (stored_auth req))
  unfolding Server.register_charge_station Server.lookup_charge_station_auth set_charge_station_auth
      lookup_charge_station_auth
  lookup-register id req s =
      rw (lookup-insert id id (stored_auth req) s.charge_station_auth, eq_refl id) refl

  lookup_charge_station-registered :
      (lib : Libraries) (addr id : String) (encode : ChargeStationAuth → String)
      (req : ChargeStationAuth) (answer : Answer ChargeStationAuth) {n : ℕ}
      → req.security_profile ≡ pos n
      → n < 128
      → (let auth = shown_auth (stored_auth req) in
          lib.unmarshal_auth (encode auth) ≡ ok (details_of auth))
      → lib.http_get (auth_path addr id) ≡ ok (served encode answer)
      → answer ≡ body (shown_auth (stored_auth req))
      → lookup_charge_station lib addr id ≡ ok (some (registered id req))
  unfolding lookup_charge_station
  lookup_charge_station-registered lib addr id encode req answer p small json reach is =
      rw (reach, is, json) (ap (λ cs. ok (some cs)) (details_of-registered id req p small))

  -- With the in-memory store, if the gateway reaches the API and reads the fields of the answer
  -- from its JSON, a charge station with a name that has been registered last with a security profile from 0
  -- to 127 gets in exactly as the registration says: with its password, or with a certificate.
  pub register-admit :
      (lib : Libraries) (addr id : String) (encode : ChargeStationAuth → String)
      (req : ChargeStationAuth) (s : Store F) (password_hash : String → String)
      (org_names : List String) (r : Request) (cs : ChargeStation) {n : ℕ}
      → id ≢ ""
      → req.security_profile ≡ pos n
      → n < 128
      → (let auth = shown_auth (stored_auth req) in
          lib.unmarshal_auth (encode auth) ≡ ok (details_of auth))
      → let api = in_memory_api clock cert_hash in
        let t = (Server.register_charge_station engine api id (ok req) s).1 in
        lib.http_get (auth_path addr id)
          ≡ ok (served encode (Server.lookup_charge_station_auth engine api id t).0)
        → (admit password_hash org_names (remote_registry lib addr) id r ≡ accepted cs)
          ↔ ((cs ≡ registered id req) × MayConnect password_hash org_names r cs)
  register-admit lib addr id encode req s password_hash org_names r cs named p small json reach =
      let found =
        lookup_charge_station-registered lib addr id encode req _ p small json reach
          (lookup-register id req s) in
      let iff = admit-accepted_iff password_hash org_names (remote_registry lib addr) id r cs in
      (
        (λ e. let (_, is, may) = iff.0 e in (found_unique (sym found ∙ is), may)),
        (λ (same, may). iff.1 (named, found ∙ ap (λ c. ok (some c)) (sym same), may)),
      )
