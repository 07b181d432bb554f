-- ===== src/Ocpi/Client.antt =====
-- manager/ocpi/register.go: what is asked of the other party. A response that claims success without
-- data is dereferenced: the panic is an error here, since no caller does anything after an error.
use Prim.Native.String.{◌++◌}
use maeve_csms_reservations.Prelude.{
  String, Option, none, some, List, [], ◌∷◌, nat_eq, ◌==◌, ◌&&◌, if◌then◌else◌,
}
use maeve_csms_reservations.Prelude.Int.{ℤ, pos, negsuc}
use maeve_csms_reservations.Store.Engine.{Result, ok, err, Action, pure, fail, ◌>>=◌}
use maeve_csms_reservations.Ocpi.{
  CredentialsMessage, Version, Endpoint, OcpiResponse, Request, Response, Libraries, Party,
}

abbrev pub lift : {S A : Type 0} → Result A → Action S A
lift r s = (r, s)

abbrev pub require : {S A : Type 0} → Option A → Action S A
require none = fail "nil pointer dereference"
require (some a) = pure a

abbrev pub data_if : {S A : Type 0} → ℤ → Option A → Action S A
data_if (pos code) d = if nat_eq code 1000 then require d else fail "status code"
data_if (negsuc code) d = fail "status code"

abbrev pub get_request : String → String → Request
get_request url token = record {
  method = "GET";
  url = url;
  headers = ("Accept", "application/json") ∷ ("Authorization", "Token " ++ token) ∷ [];
  body = "";
}

-- The version is found by its first entry; an empty URL is as none.
unfoldable pub version_url : List Version → String
version_url [] = ""
version_url (version ∷ versions) =
    let rest = version_url versions in if version.version == "2.2" then version.url else rest

abbrev pub non_empty : String → Result String
non_empty url = if url == "" then err "no version 2.2 endpoint found" else ok url

abbrev pub get_endpoint_url : List Version → Result String
get_endpoint_url versions = non_empty (version_url versions)

-- The URL of the first endpoint with an identifier, for the role of a receiver.
unfoldable pub receiver_url : String → String → List Endpoint → Result String
receiver_url identifier missing [] = err missing
receiver_url identifier missing (endpoint ∷ endpoints) =
    let rest = receiver_url identifier missing endpoints in
    if endpoint.identifier == identifier && endpoint.role == "RECEIVER"
    then ok endpoint.url
    else rest

unfoldable pub get_credentials_url : List Endpoint → Result String
unfolding receiver_url
get_credentials_url = receiver_url "credentials" "no credentials endpoint for receiver found"

module _ {S : Type 0} (lib : Libraries S) where
  abbrev pub read_response :
      {A : Type 0} → (String → Result (OcpiResponse A)) → Response → Action S A
  read_response unmarshal resp =
      if nat_eq resp.status_code 200
      then (lift resp.body >>= λ b.
          lift (unmarshal b) >>= λ message. data_if message.status_code message.data_of)
      else fail "status code"

  unfoldable pub get_versions : String → String → Action S (List Version)
  get_versions url token = lib.send (get_request url token) >>= read_response lib.unmarshal_versions

  unfoldable pub get_endpoints : String → String → Action S (List Endpoint)
  get_endpoints url token =
      lib.send (get_request url token) >>= read_response lib.unmarshal_endpoints

  module _ (self : Party) where
    abbrev pub own_credentials : String → CredentialsMessage
    own_credentials new_token = record {
      roles =
          record { country_code = self.country_code; party_id = self.party_id; role = "CPO" } ∷ [];
      token = new_token;
      url = self.external_url ++ "/ocpi/versions";
    }

    abbrev pub post_request : String → String → String → Request
    post_request url token b = record {
      method = "POST";
      url = url;
      headers = ("Content-Type", "application/json") ∷ ("Authorization", "Token " ++ token) ∷ [];
      body = b;
    }

    abbrev pub created : Response → Action S (Unit {0})
    created resp = if nat_eq resp.status_code 201 then pure tt else fail "status code"

    unfoldable pub post_credentials : String → String → String → Action S (Unit {0})
    post_credentials url token new_token =
        lift (lib.marshal_credentials (own_credentials new_token)) >>= λ b.
        lib.send (post_request url token b) >>= created
