-- ===== src/Gateway/Admission.antt =====
-- gateway/server/ws.go and middleware.go: which requests for a websocket connection are accepted.
-- A request comes with the headers that the code reads; the hash of a password, the reading of a
-- Boolean and the registry are parameters. A certificate is what the code reads of it.
pub mod Policy
pub mod Offload
mod Examples
use maeve_csms_reservations.Prelude.{
  ℕ, zero, suc, String, Bool, true, false, not, ◌&&◌, ◌||◌, Option, none, some, List, [], ◌∷◌, ◌==◌,
  any, if◌then◌else◌,
}
use maeve_csms_reservations.Prelude.Int.{ℤ, pos, negsuc}
use maeve_csms_reservations.Prelude.Result.{Result, ok, err}

pub record Certificate : Type 0 where
  pub organization : List String
  pub common_name : String

-- `registry.ChargeStation`
pub record ChargeStation : Type 0 where
  pub client_id : String
  pub security_profile : ℤ
  pub base64_sha256_password : String
  pub invalid_username_allowed : Bool

-- The headers that a proxy in front of the gateway sets.
pub record ProxyHeaders : Type 0 where
  pub forwarded_proto : String
  pub client_cert_present : String
  pub client_cert_chain_verified : String
  pub client_cert_hash : String

-- `tls` is `none` for a connection without TLS, else the certificates of the peer.
pub record Request : Type 0 where
  pub tls : Option (List Certificate)
  pub basic_auth : Option (String × String)
  pub proxy_headers : ProxyHeaders

-- `registry.DeviceRegistry`
pub record DeviceRegistry : Type 0 where
  pub lookup_charge_station : String → Result (Option ChargeStation)
  pub lookup_certificate : String → Result (Option Certificate)

-- `slices.Contains`
abbrev pub contains : List String → String → Bool
contains l x = any (λ y. y == x) l

module _ (password_hash : String → String) where
  abbrev pub check_credentials : Option (String × String) → ChargeStation → Bool
  check_credentials none cs = false
  check_credentials (some (username, password)) cs =
      if not (username == cs.client_id) && not cs.invalid_username_allowed
      then false
      else password_hash password == cs.base64_sha256_password

  unfoldable pub check_authorization : Request → ChargeStation → Bool
  check_authorization r cs = check_credentials r.basic_auth cs

-- The certificate's organizations, looked up one after the other.
unfoldable pub check_certificate : List Certificate → List String → Bool
check_certificate [] org_names = false
check_certificate (leaf ∷ rest) org_names = any (λ org. contains org_names org) leaf.organization

-- The answer to the request: an HTTP status, or the connection for that charge station.
pub data Decision : Type 0 where
  refused : ℕ → Decision
  accepted : ChargeStation → Decision

abbrev pub accept_if : Bool → ChargeStation → Decision
accept_if true cs = accepted cs
accept_if false cs = refused 401

module _ (password_hash : String → String) (org_names : List String) where
  -- `switch cs.SecurityProfile`
  unfoldable pub check_profile : ℤ → Option (List Certificate) → Request → ChargeStation → Bool
  unfolding check_authorization check_certificate
  check_profile (pos zero) (some peers) r cs = false
  check_profile (pos zero) none r cs = check_authorization password_hash r cs
  check_profile (pos (suc zero)) none r cs = false
  check_profile (pos (suc zero)) (some peers) r cs = check_authorization password_hash r cs
  check_profile (pos (suc (suc zero))) none r cs = false
  check_profile (pos (suc (suc zero))) (some peers) r cs = check_certificate peers org_names
  check_profile (pos (suc (suc (suc n)))) tls r cs = false
  check_profile (negsuc n) tls r cs = false

  abbrev pub admit_station : Request → Result (Option ChargeStation) → Decision
  admit_station r (err e) = refused 500
  admit_station r (ok none) = refused 404
  admit_station r (ok (some cs)) = accept_if (check_profile cs.security_profile r.tls r cs) cs

  -- `ServeHTTP`, up to the accepting of the connection
  unfoldable pub admit : DeviceRegistry → String → Request → Decision
  unfolding check_profile
  admit registry client_id r =
      if client_id == ""
      then refused 400
      else admit_station r (registry.lookup_charge_station client_id)

-- `strconv.ParseBool`; `none` is an error.
abbrev pub ParseBool : Type 0
ParseBool = String → Option Bool

abbrev pub is_yes : Option Bool → Bool
is_yes none = false
is_yes (some b) = b

abbrev pub found_certificate : Result (Option Certificate) → List Certificate
found_certificate (err e) = []
found_certificate (ok none) = []
found_certificate (ok (some certificate)) = certificate ∷ []

module _ (parse_bool : ParseBool) (registry : DeviceRegistry) where
  unfoldable pub offloaded_certificates : ProxyHeaders → List Certificate
  offloaded_certificates h =
      if is_yes (parse_bool h.client_cert_present)
      then (if is_yes (parse_bool h.client_cert_chain_verified)
          then found_certificate (registry.lookup_certificate h.client_cert_hash)
          else [])
      else []

  -- `TLSOffload`: the request that the next handler gets
  unfoldable pub tls_offload : Request → Request
  unfolding offloaded_certificates
  tls_offload r =
      if r.proxy_headers.forwarded_proto == "https"
      then record r { tls = some (offloaded_certificates r.proxy_headers) }
      else r
