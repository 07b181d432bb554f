-- ===== src/Ocpi/Examples.antt =====
-- Concrete parties for the theorems on manager/ocpi/: a service provider whose token is pending, and
-- whose server answers each of the requests of the handshake.
use maeve_csms_reservations.Prelude.{
  ◌≡◌, refl, String, ℕ, true, none, some, [], ◌∷◌, ◌==◌, if◌then◌else◌, ne_of_eq-false,
}
use maeve_csms_reservations.Prelude.Int.{pos}
use maeve_csms_reservations.Prelude.Dict.{lookup, insert}
use maeve_csms_reservations.Store.{OcpiRegistration}
use maeve_csms_reservations.Store.Engine.{ok, err, pure}
use maeve_csms_reservations.Store.InMemory.{Store, new_store}
use maeve_csms_reservations.Store.InMemory.Records.{
  get_registration_details, set_registration_details, set_party_details, party_key,
}
use maeve_csms_reservations.Store.InMemory.AsEngine.{in_memory_ocpi}
use maeve_csms_reservations.Ocpi.{CredentialsMessage, Libraries, Party, Response}
use maeve_csms_reservations.Ocpi.Client.{
  get_versions, get_endpoints, post_credentials, version_url, receiver_url, get_credentials_url,
}
use maeve_csms_reservations.Ocpi.Registration.{
  set_parties, register_new_party, set_credentials, authenticate, check_registration,
  allowed_pending, random_letters, generate_random_string, letters, range,
}
use maeve_csms_reservations.Ocpi.Tokens.{
  Token, put_client_owned_token, get_client_owned_token, response_token, kept, put_then_get,
}
use maeve_csms_reservations.Store.Examples.{search}
use maeve_csms_reservations.Store.InMemory.AsEngine.{in_memory, in_memory_api}
use maeve_csms_reservations.Api.{replied}
use maeve_csms_reservations.Ocpi.Credentials.{with_parties, set_credentials-replaces}

abbrev response : String → Response
response method = record { status_code = if method == "POST" then 201 else 200; body = ok "body" }

abbrev provider : Libraries (Store ℕ)
provider = record {
  send = λ request. pure (response request.method);
  unmarshal_versions = λ body. ok (record {
    data_of = some (
        record { url = "https://emsp/2.1"; version = "2.1" }
        ∷ record { url = "https://emsp/2.2"; version = "2.2" }
        ∷ []);
    status_code = pos 1000;
  });
  unmarshal_endpoints = λ body. ok (record {
    data_of = some (
        record {
          identifier = "credentials";
          role = "RECEIVER";
          url = "https://emsp/2.2/credentials";
        }
        ∷ []);
    status_code = pos 1000;
  });
  marshal_credentials = λ credentials. ok credentials.token;
  random = λ n. pure 10;
  text_of = λ letters. "AAAA";
}

abbrev operator : Party
operator = record { external_url = "https://cpo"; country_code = "GB"; party_id = "TWK" }

abbrev credentials : CredentialsMessage
credentials = record {
  roles = record { country_code = "NL"; party_id = "EMS"; role = "EMSP" } ∷ [];
  token = "theirs";
  url = "https://emsp/versions";
}

abbrev pending : OcpiRegistration
pending = record { status = "pending" }

abbrev invited : Store ℕ
invited = set_registration_details "invitation" pending (new_store ℕ)

abbrev shaken : Store ℕ
shaken =
    (register_new_party in_memory_ocpi provider operator credentials.url credentials.token
      (with_parties credentials invited)).1

handshake :
    register_new_party in_memory_ocpi provider operator credentials.url credentials.token
      (with_parties credentials invited)
    ≡ (ok tt, shaken)
unfolding register_new_party set_parties set_party_details party_key get_registration_details
    set_registration_details lookup insert get_versions get_endpoints post_credentials version_url
    receiver_url get_credentials_url random_letters generate_random_string letters range
handshake = refl

invited-pending : lookup "invitation" invited.registrations ≡ some pending
unfolding lookup insert set_registration_details
invited-pending = refl

-- With a pending token the versions may be asked for, and nothing of the tokens.
pending_test :
    ((authenticate in_memory_ocpi ("" ∷ "invitation" ∷ []) "GET" "/ocpi/2.2" invited).0 ≡ ok tt)
    × ((authenticate in_memory_ocpi ("" ∷ "invitation" ∷ []) "PUT" "/ocpi/2.2" invited).0
        ≡ err "unregistered token")
unfolding authenticate check_registration allowed_pending get_registration_details lookup insert
    set_registration_details
pending_test = (refl, refl)

set_credentials-replaces_example :
    let (r, after) =
      set_credentials in_memory_ocpi provider operator "invitation" credentials invited in
    (r ≡ ok tt)
    × ((whole method path : String)
        → (authenticate in_memory_ocpi (whole ∷ "theirs" ∷ []) method path after).0 ≡ ok tt)
    × ((whole method path : String)
        → (authenticate in_memory_ocpi (whole ∷ "invitation" ∷ []) method path after).0
          ≡ err "unknown token")
set_credentials-replaces_example =
    set_credentials-replaces provider operator "invitation" credentials pending invited shaken
      invited-pending refl (ne_of_eq-false refl) handshake

abbrev card : Token
card = record {
  contract_id = "NLEMS000000001X";
  country_code = "NL";
  default_profile_type = some "GREEN";
  energy_contract = none;
  group_id = none;
  issuer = "EMS";
  language = some "nl";
  last_updated = "2023-01-01T00:00:00Z";
  party_id = "EMS";
  type = "RFID";
  uid = "DEADBEEF";
  valid = true;
  visual_number = none;
  whitelist = "NEVER";
}

put_then_get_example :
    let (answer, after) =
      put_client_owned_token
        (in_memory search)
        (in_memory_api "08:00" ok)
        "NL"
        "EMS"
        "DEADBEEF"
        (ok card)
        (new_store ℕ) in
    (answer ≡ replied 200)
    × ((get_client_owned_token
          (in_memory search)
          (in_memory_api "08:00" ok)
          "NL"
          "EMS"
          "DEADBEEF"
          after).0
        ≡ response_token (some (kept "08:00" card)))
put_then_get_example = put_then_get search "08:00" ok card (new_store ℕ)
