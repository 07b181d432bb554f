-- ===== src/Store/InMemory/Records.antt =====
-- manager/store/inmemory/store.go: tokens, certificates, OCPI registrations and parties, locations.
use Prim.Native.String.{◌++◌ as append}
use maeve_csms_reservations.Prelude.{
  ℕ, String, Option, none, some, List, [], ◌∷◌, ◌==◌, if◌then◌else◌,
}
use maeve_csms_reservations.Prelude.Dict.{lookup, insert, remove, values}
use maeve_csms_reservations.Store.{Token, OcpiRegistration, OcpiParty, Location}
use maeve_csms_reservations.Store.Engine.{Result, ok, err}
use maeve_csms_reservations.Store.InMemory.{Store}
use maeve_csms_reservations.Store.InMemory.Listing.{list_window}

-- `fmt.Sprintf("%s:%s:%s", role, countryCode, partyId)`
unfoldable pub party_key : String → String → String → String
party_key role country_code party_id =
    append role (append ":" (append country_code (append ":" party_id)))

-- What a certificate is stored under: `getPEMCertificateHash` decodes and hashes it with Go's
-- cryptographic packages.
abbrev pub CertificateHash : Type 0
CertificateHash = String → Result String

-- A missing certificate is the empty string.
abbrev or_empty : Option String → String
or_empty none = ""
or_empty (some pem) = pem

abbrev pub parties_for_role : String → List OcpiParty → List OcpiParty
parties_for_role role [] = []
parties_for_role role (party ∷ parties) =
    let rest = parties_for_role role parties in if party.role == role then party ∷ rest else rest

module _ {F : Type 0} where
  -- `now` is the current time, in the form of the field.
  unfoldable pub set_token : String → Token → Store F → Store F
  set_token now token s = record s {
    tokens = insert token.uid (record token { last_updated = now }) s.tokens;
  }

  unfoldable pub lookup_token : String → Store F → Option Token
  lookup_token uid s = lookup uid s.tokens

  unfoldable pub list_tokens : ℕ → ℕ → Store F → List Token
  unfolding list_window
  list_tokens offset limit s = list_window offset limit s.tokens

  unfoldable pub set_certificate_at : String → Result String → Store F → Result (Unit {0}) × Store F
  set_certificate_at pem (err e) s = (err e, s)
  set_certificate_at pem (ok b64_hash) s =
      (ok tt, record s { certificates = insert b64_hash pem s.certificates })

  unfoldable pub set_certificate : CertificateHash → String → Store F → Result (Unit {0}) × Store F
  unfolding set_certificate_at
  set_certificate hash pem s = set_certificate_at pem (hash pem) s

  unfoldable pub lookup_certificate : String → Store F → String
  lookup_certificate hash s = or_empty (lookup hash s.certificates)

  unfoldable pub delete_certificate : String → Store F → Store F
  delete_certificate hash s = record s { certificates = remove hash s.certificates }

  unfoldable pub set_registration_details : String → OcpiRegistration → Store F → Store F
  set_registration_details token registration s = record s {
    registrations = insert token registration s.registrations;
  }

  unfoldable pub get_registration_details : String → Store F → Option OcpiRegistration
  get_registration_details token s = lookup token s.registrations

  unfoldable pub delete_registration_details : String → Store F → Store F
  delete_registration_details token s = record s { registrations = remove token s.registrations }

  unfoldable pub set_party_details : OcpiParty → Store F → Store F
  unfolding party_key
  set_party_details party s = record s {
    party_details =
        insert (party_key party.role party.country_code party.party_id) party s.party_details;
  }

  unfoldable pub get_party_details : String → String → String → Store F → Option OcpiParty
  unfolding party_key
  get_party_details role country_code party_id s =
      lookup (party_key role country_code party_id) s.party_details

  unfoldable pub list_party_details_for_role : String → Store F → List OcpiParty
  list_party_details_for_role role s = parties_for_role role (values s.party_details)

  unfoldable pub set_location : Location → Store F → Store F
  set_location location s = record s { locations = insert location.id location s.locations }

  unfoldable pub lookup_location : String → Store F → Option Location
  lookup_location id s = lookup id s.locations

  unfoldable pub list_locations : ℕ → ℕ → Store F → List Location
  unfolding list_window
  list_locations offset limit s = list_window offset limit s.locations
