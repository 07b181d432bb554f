-- ===== src/Services/TokenAuth.antt =====
-- manager/services/token_auth.go: how a token is authorized against the token store.
pub mod Verdict
use maeve_csms_reservations.Prelude.{String, Bool, Option, none, some, ◌==◌, if◌then◌else◌}
use maeve_csms_reservations.Store.{Token, cache_mode_never}
use maeve_csms_reservations.Store.Engine.{Result, ok, err, Engine}

-- `IdTokenType`, of which the code reads the token and its type.
pub record IdToken : Type 0 where
  pub id_token : String
  pub type : String

pub record IdTokenInfo : Type 0 where
  pub status : String
  pub group_id_token : Option IdToken
  pub cache_expiry_date_time : Option String

-- `TokenAuthService`, which leaves a state beside its answer.
abbrev pub TokenAuthService : Type 0 → Type 0
TokenAuthService S = IdToken → S → IdTokenInfo × S

abbrev pub just_status : String → IdTokenInfo
just_status status = record {
  status = status;
  group_id_token = none;
  cache_expiry_date_time = none;
}

abbrev pub cache_expiry : String → String → Option String
cache_expiry now cache_mode = if cache_mode == cache_mode_never then some now else none

abbrev pub group_id_token_of : Option String → Option IdToken
group_id_token_of none = none
group_id_token_of (some group_id) = some (record { id_token = group_id; type = "Central" })

unfoldable pub token_info : String → Result (Option Token) → IdTokenInfo
token_info now (err e) = just_status "Unknown"
token_info now (ok none) = just_status "Unknown"
token_info now (ok (some token)) = record {
  status = if token.valid then "Accepted" else "Invalid";
  group_id_token = group_id_token_of token.group_id;
  cache_expiry_date_time = cache_expiry now token.cache_mode;
}

module _ {S F : Type 0} (engine : Engine S F) where
  -- `OcppTokenAuthService.Authorize`
  unfoldable pub authorize : String → TokenAuthService S
  unfolding token_info
  authorize now token s =
      if token.type == "NoAuthorization"
      then (just_status "Accepted", s)
      else if token.type == "Central"
      then (just_status "Accepted", s)
      else if token.type == "Local"
      then (just_status "Invalid", s)
      else (let (found, after) = engine.lookup_token token.id_token s in
          (token_info now found, after))
