-- ===== src/Ocpi.antt =====
-- manager/ocpi/ocpi.gen.go: the messages of OCPI that a registration exchanges; and the libraries
-- that manager/ocpi/ calls: the HTTP client, whose requests may lead the party that is asked to call
-- back, JSON, regular expressions and random numbers.
pub mod Client
pub mod Registration
pub mod Credentials
pub mod Tokens
pub mod Server
mod Examples
use maeve_csms_reservations.Prelude.{ℕ, String, Option, List}
use maeve_csms_reservations.Prelude.Result.{Result}
use maeve_csms_reservations.Prelude.Int.{ℤ}
use maeve_csms_reservations.Store.Engine.{Action}

pub record Role : Type 0 where
  pub country_code : String
  pub party_id : String
  pub role : String

pub record CredentialsMessage : Type 0 where
  pub roles : List Role
  pub token : String
  pub url : String

pub record Version : Type 0 where
  pub url : String
  pub version : String

pub record Endpoint : Type 0 where
  pub identifier : String
  pub role : String
  pub url : String

-- `OcpiResponseListVersion` and `OcpiResponseVersionDetail`, with `A` the type of the data.
pub record OcpiResponse {ℓ} (A : Type ℓ) : Type ℓ where
  pub data_of : Option A
  pub status_code : ℤ

pub record Request : Type 0 where
  pub method : String
  pub url : String
  pub headers : List (String × String)
  pub body : String

-- A response whose body may fail to be read.
pub record Response : Type 0 where
  pub status_code : ℕ
  pub body : Result String

pub record Libraries (S : Type 0) : Type 0 where
  -- `http.NewRequestWithContext` and `Client.Do`
  pub send : Request → Action S Response
  pub unmarshal_versions : String → Result (OcpiResponse (List Version))
  -- the endpoints of the version
  pub unmarshal_endpoints : String → Result (OcpiResponse (List Endpoint))
  pub marshal_credentials : CredentialsMessage → Result String
  -- `rand.Int`, below its argument
  pub random : ℕ → Action S ℕ
  -- `string(bytes)`
  pub text_of : List ℕ → String

-- `OCPI`, without the store and the HTTP client.
pub record Party : Type 0 where
  pub external_url : String
  pub country_code : String
  pub party_id : String
