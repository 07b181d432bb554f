-- ===== src/Ocpi/Registration.antt =====
-- manager/ocpi/auth.go, and the registration of parties in manager/ocpi/ocpi.go and
-- manager/ocpi/register.go, over any store. An error of the authentication is without what
-- `input.NewError` adds to it.
use maeve_csms_reservations.Prelude.{
  ℕ, String, Bool, false, Option, none, some, List, [], ◌∷◌, ◌++◌, get_elem?, ◌+◌, zero, suc, ◌==◌,
  ◌&&◌, ◌||◌, if◌then◌else◌,
}
use maeve_csms_reservations.Store.{OcpiRegistration, OcpiParty}
use maeve_csms_reservations.Store.Engine.{Action, pure, fail, ◌>>=◌, ◌>>◌, OcpiEngine}
use maeve_csms_reservations.Ocpi.{Role, CredentialsMessage, Libraries, Party}
use maeve_csms_reservations.Ocpi.Client.{
  require, lift, get_versions, get_endpoint_url, get_endpoints, get_credentials_url,
  post_credentials,
}

-- The requests that a token whose registration is pending may make.
unfoldable pub allowed_pending : String → String → Bool
allowed_pending method path =
    (method == "GET" && (path == "/ocpi/versions" || path == "/ocpi/2.2"))
    || (method == "POST" && path == "/ocpi/2.2/credentials")

unfoldable pub range : ℕ → ℕ → List ℕ
range first zero = []
range first (suc n) = first ∷ range (first + 1) n

-- The bytes of the digits, the upper case and the lower case letters, and the dash.
unfoldable pub letters : List ℕ
unfolding range
letters = range 48 10 ++ (range 65 26 ++ (range 97 26 ++ (45 ∷ [])))

abbrev pub registered : OcpiRegistration
registered = record { status = "registered" }

abbrev pub is_registered : Option OcpiRegistration → Bool
is_registered none = false
is_registered (some reg) = reg.status == "registered"

abbrev pub is_pending_registration : Option OcpiRegistration → Bool
is_pending_registration none = false
is_pending_registration (some reg) = reg.status == "pending"

abbrev pub party_of : String → String → Role → OcpiParty
party_of url token r = record {
  country_code = r.country_code;
  party_id = r.party_id;
  role = r.role;
  url = url;
  token = token;
}

module _ {S : Type 0} (engine : OcpiEngine S) where
  unfoldable pub check_registration :
      String → String → Option OcpiRegistration → Action S (Unit {0})
  unfolding allowed_pending
  check_registration method path none = fail "unknown token"
  check_registration method path (some reg) =
      if reg.status == "registered"
      then pure tt
      else (if allowed_pending method path then pure tt else fail "unregistered token")

  -- `matches` is what the regular expression finds in the header `Authorization`.
  unfoldable pub authenticate : List String → String → String → Action S (Unit {0})
  authenticate (whole ∷ token ∷ []) method path =
      engine.get_registration_details token >>= check_registration method path
  authenticate _ method path = fail "no token"

  unfoldable pub set_parties : String → String → List Role → Action S (Unit {0})
  set_parties url token [] = pure tt
  set_parties url token (r ∷ roles) =
      engine.set_party_details (party_of url token r) >> set_parties url token roles

  module _ (lib : Libraries S) (self : Party) where
    -- The last letters of the random text.
    unfoldable pub random_letters : ℕ → Action S (List ℕ)
    unfolding letters
    random_letters zero = pure []
    random_letters (suc n) = lib.random 63 >>= λ num. require (get_elem? letters num) >>= λ letter.
        random_letters n >>= λ rest. pure (letter ∷ rest)

    unfoldable pub generate_random_string : Action S String
    generate_random_string = random_letters 64 >>= λ ret. pure (lib.text_of ret)

    abbrev pub exchange : String → String → Action S (Unit {0})
    exchange url token = get_versions lib url token >>= λ versions.
        lift (get_endpoint_url versions) >>= λ endpoint_url.
        get_endpoints lib endpoint_url token >>= λ endpoints.
        generate_random_string >>= λ new_token.
        engine.set_registration_details new_token registered
        >> (lift (get_credentials_url endpoints) >>= λ credentials_url.
            post_credentials lib self credentials_url token new_token)

    unfoldable pub register_new_party : String → String → Action S (Unit {0})
    register_new_party url token = engine.get_registration_details token >>= λ reg.
        if is_registered reg then fail "already registered" else exchange url token

    abbrev pub complete_pending :
        String → CredentialsMessage → Option OcpiRegistration → Action S (Unit {0})
    complete_pending token credentials reg =
        if is_pending_registration reg
        then (register_new_party credentials.url credentials.token
            >> engine.delete_registration_details token)
        else pure tt

    unfoldable pub set_credentials : String → CredentialsMessage → Action S (Unit {0})
    set_credentials token credentials =
        set_parties credentials.url credentials.token credentials.roles
        >> (engine.get_registration_details token >>= λ reg.
            complete_pending token credentials reg
            >> engine.set_registration_details credentials.token registered)
