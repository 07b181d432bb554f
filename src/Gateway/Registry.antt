-- ===== src/Gateway/Registry.antt =====
-- gateway/registry/remote.go: the registry that asks the manager's API. The HTTP client, JSON, PEM
-- and X.509 are parameters; `http_get` covers the making of the request and its sending.
use Prim.Native.String.{◌++◌}
use maeve_csms_reservations.Prelude.{
  ℕ, String, Bool, Option, none, some, nat_eq, ◌==◌, if◌then◌else◌,
}
use maeve_csms_reservations.Prelude.Int.{ℤ}
use maeve_csms_reservations.Prelude.Result.{Result, ok, err, ◌>>=◌}
use maeve_csms_reservations.Gateway.Admission.{Certificate, ChargeStation, DeviceRegistry}

-- A response whose body may fail to be read.
pub record Response : Type 0 where
  pub status_code : ℕ
  pub body : Result String

pub record ChargeStationAuthDetailsResponse : Type 0 where
  pub security_profile : ℤ
  pub base64_sha256_password : String
  pub invalid_username_allowed : Bool

pub record Libraries : Type 0 where
  pub http_get : String → Result Response
  pub unmarshal_auth : String → Result ChargeStationAuthDetailsResponse
  -- the field `certificate` of a body
  pub unmarshal_certificate : String → Result String
  -- `pem.Decode`: the type and the bytes of the first block
  pub pem_decode : String → Option (String × String)
  pub parse_certificate : String → Result Certificate
  -- `strings.Replace(s, old, new, -1)`
  pub replace : String → String → String → String

abbrev pub charge_station_of : String → ChargeStationAuthDetailsResponse → ChargeStation
charge_station_of client_id details = record {
  client_id = client_id;
  security_profile = details.security_profile;
  base64_sha256_password = details.base64_sha256_password;
  invalid_username_allowed = details.invalid_username_allowed;
}

-- The path of the manager's API
abbrev pub auth_path : String → String → String
auth_path addr client_id = addr ++ ("/api/v0/cs/" ++ (client_id ++ "/auth"))

module _ (lib : Libraries) (manager_api_addr : String) where
  abbrev pub read_auth : String → Response → Result (Option ChargeStation)
  read_auth client_id resp =
      if nat_eq resp.status_code 200
      then (resp.body >>= λ b.
          lib.unmarshal_auth b >>= λ details. ok (some (charge_station_of client_id details)))
      else ok none

  unfoldable pub lookup_charge_station : String → Result (Option ChargeStation)
  lookup_charge_station client_id =
      lib.http_get (auth_path manager_api_addr client_id) >>= read_auth client_id

  abbrev pub parse_block : Option (String × String) → Result (Option Certificate)
  parse_block none = err "no pem data found"
  parse_block (some (type, bytes)) =
      if type == "CERTIFICATE"
      then (lib.parse_certificate bytes >>= λ certificate. ok (some certificate))
      else err "no certificate found in PEM data"

  abbrev pub read_certificate : Response → Result (Option Certificate)
  read_certificate resp =
      if nat_eq resp.status_code 200
      then (resp.body >>= λ b.
          lib.unmarshal_certificate b >>= λ pem. parse_block (lib.pem_decode pem))
      else ok none

  unfoldable pub lookup_certificate : String → Result (Option Certificate)
  lookup_certificate cert_hash =
      let url_safe = lib.replace (lib.replace cert_hash "/" "_") "+" "-" in
      lib.http_get (manager_api_addr ++ ("/api/v0/certificate/" ++ url_safe)) >>= read_certificate

  -- `RemoteRegistry`
  abbrev pub remote_registry : DeviceRegistry
  remote_registry = record {
    lookup_charge_station = lookup_charge_station;
    lookup_certificate = lookup_certificate;
  }
