-- ===== src/Ocpi/Tokens.antt =====
-- manager/ocpi/server.go and manager/ocpi/ocpi.go: the tokens that another party owns, over any store.
-- A panic, of a token that is not found or of a field whose value has the wrong type, is answered with
-- status 500 by the server's middleware.
use maeve_csms_reservations.Prelude.{
  ◌≡◌, refl, String, Bool, true, false, Option, none, some, List, [], ◌∷◌, ◌==◌, eq_refl, not, ◌&&◌,
  ◌||◌, if◌then◌else◌,
}
use maeve_csms_reservations.Prelude.Dict.{lookup-insert}
use maeve_csms_reservations.Prelude.Int.{pos}
use maeve_csms_reservations.Store
use maeve_csms_reservations.Store.Engine.{
  Result, ok, err, Action, pure, fail, ◌>>=◌, Engine, ApiEngine,
}
use maeve_csms_reservations.Store.Sorting.{BinarySearch}
use maeve_csms_reservations.Store.InMemory.{Store}
use maeve_csms_reservations.Store.InMemory.Records.{CertificateHash, set_token, lookup_token}
use maeve_csms_reservations.Store.InMemory.AsEngine.{in_memory, in_memory_api}
use maeve_csms_reservations.Api.{Answer, replied, body, Handler, bound, calling}
use maeve_csms_reservations.Ocpi.{OcpiResponse}

pub record EnergyContract : Type 0 where
  pub contract_id : Option String
  pub supplier_name : String

pub record Token : Type 0 where
  pub contract_id : String
  pub country_code : String
  pub default_profile_type : Option String
  pub energy_contract : Option EnergyContract
  pub group_id : Option String
  pub issuer : String
  pub language : Option String
  pub last_updated : String
  pub party_id : String
  pub type : String
  pub uid : String
  pub valid : Bool
  pub visual_number : Option String
  pub whitelist : String

abbrev pub shown_token : Store.Token → Token
shown_token tok = record {
  contract_id = tok.contract_id;
  country_code = tok.country_code;
  default_profile_type = none;
  energy_contract = none;
  group_id = tok.group_id;
  issuer = tok.issuer;
  language = tok.language_code;
  last_updated = tok.last_updated;
  party_id = tok.party_id;
  type = tok.type;
  uid = tok.uid;
  valid = tok.valid;
  visual_number = tok.visual_number;
  whitelist = tok.cache_mode;
}

abbrev pub stored_token : Token → Store.Token
stored_token token = record {
  country_code = token.country_code;
  party_id = token.party_id;
  type = token.type;
  uid = token.uid;
  contract_id = token.contract_id;
  visual_number = token.visual_number;
  issuer = token.issuer;
  group_id = token.group_id;
  valid = token.valid;
  language_code = token.language;
  cache_mode = token.whitelist;
  last_updated = "";
}

-- A value of JSON in a patch.
pub data Value : Type 0 where
  text : String → Value
  truth : Bool → Value
  other : Value

abbrev pub with_text : (String → Token) → Value → Option Token
with_text f (text t) = some (f t)
with_text f _ = none

abbrev pub with_truth : (Bool → Token) → Value → Option Token
with_truth f (truth b) = some (f b)
with_truth f _ = none

-- The token with one field changed; `none` is the panic of a value of another type.
unfoldable pub patch_field : String → Value → Token → Option Token
patch_field k v tok =
    if k == "contract_id"
    then with_text (λ t. record tok { contract_id = t }) v
    else if k == "group_id"
    then with_text (λ t. record tok { group_id = some t }) v
    else if k == "issuer"
    then with_text (λ t. record tok { issuer = t }) v
    else if k == "language"
    then with_text (λ t. record tok { language = some t }) v
    else if k == "type"
    then with_text (λ t. record tok { type = t }) v
    else if k == "valid"
    then with_truth (λ b. record tok { valid = b }) v
    else if k == "visual_number"
    then with_text (λ t. record tok { visual_number = some t }) v
    else if k == "whitelist"
    then with_text (λ t. record tok { whitelist = t }) v
    else some tok

unfoldable pub is_field : String → Bool
is_field k =
    (k == "contract_id" || (k == "group_id" || (k == "issuer" || k == "language")))
    || (k == "type" || (k == "valid" || (k == "visual_number" || k == "whitelist")))

-- The loop over the patch, in the order in which it happens to visit the map, with whether a field
-- was unknown.
unfoldable pub patch_token : List (String × Value) → Token × Bool → Option (Token × Bool)
unfolding patch_field is_field
patch_token [] state = some state
patch_token ((k, v) ∷ patch) (tok, refused) = elim (patch_field k v tok) [
  | none ↦ none
  | some changed ↦ patch_token patch (changed, refused || not (is_field k))
]

-- What `GetToken` makes of what the store finds.
abbrev pub owned_by : {S : Type 0} → String → String → Option Store.Token → Action S (Option Token)
owned_by country_code party_id none = fail "nil pointer dereference"
owned_by country_code party_id (some tok) =
    if not (tok.country_code == country_code) || not (tok.party_id == party_id)
    then pure none
    else pure (some (shown_token tok))

abbrev pub response_token : Option Token → Answer (OcpiResponse Token)
response_token token = body (record { data_of = token; status_code = pos 1000 })

module _ {S F : Type 0} (engine : Engine S F) (store : ApiEngine S) where
  unfoldable pub get_token : String → String → String → Action S (Option Token)
  get_token country_code party_id token_uid =
      engine.lookup_token token_uid >>= owned_by country_code party_id

  unfoldable pub get_client_owned_token : String → String → String → Handler S (OcpiResponse Token)
  unfolding get_token
  get_client_owned_token country_code party_id token_uid =
      calling (get_token country_code party_id token_uid) response_token

  abbrev pub stored_or_failure : Result (Unit {0}) → Answer (OcpiResponse Token)
  stored_or_failure (ok done) = replied 200
  stored_or_failure (err e) = body (record { data_of = none; status_code = pos 3000 })

  abbrev pub store_put : Token → Handler S (OcpiResponse Token)
  store_put tok s = let (r, t) = store.set_token (stored_token tok) s in (stored_or_failure r, t)

  -- The token must be the one that the path names.
  unfoldable pub put_client_owned_token :
      String → String → String → Result Token → Handler S (OcpiResponse Token)
  put_client_owned_token country_code party_id token_uid request = bound request (λ tok.
      if tok.country_code == country_code && (tok.party_id == party_id && tok.uid == token_uid)
      then store_put tok
      else λ s. (replied 400, s))

  -- A patch with an unknown field is answered with status 400, and its other fields are stored.
  abbrev pub store_patched : Option (Token × Bool) → Handler S (OcpiResponse Token)
  store_patched none s = (replied 500, s)
  store_patched (some (tok, true)) s =
      let (r, t) = store.set_token (stored_token tok) s in (replied 400, t)
  store_patched (some (tok, false)) s =
      calling (store.set_token (stored_token tok)) (λ u. replied 200) s

  abbrev pub patch_found : List (String × Value) → Option Token → Handler S (OcpiResponse Token)
  unfolding patch_token
  patch_found patch none s = (replied 404, s)
  patch_found patch (some tok) s = store_patched (patch_token patch (tok, false)) s

  abbrev pub patch_known :
      List (String × Value) → Result (Option Token) → Handler S (OcpiResponse Token)
  patch_known patch (err e) s = (replied 500, s)
  patch_known patch (ok tok) s = patch_found patch tok s

  unfoldable pub patch_client_owned_token :
      String → String → String → Result (List (String × Value)) → Handler S (OcpiResponse Token)
  unfolding get_token patch_token
  patch_client_owned_token country_code party_id token_uid request =
      bound request (λ patch s.
        let (r, t) = get_token country_code party_id token_uid s in patch_known patch r t)

-- What is kept of a token, with the time at which it is stored.
abbrev pub kept : String → Token → Token
kept now tok = record tok {
  default_profile_type = none;
  energy_contract = none;
  last_updated = now;
}

module _ {F : Type 0} (search : BinarySearch) (now : String) (hash : CertificateHash) where
  -- With the in-memory store, a token that is put under its own country code, party and uid is stored,
  -- and answered when the same path is asked for, but without its default profile and energy contract
  -- and with the time of storing.
  pub put_then_get :
      (tok : Token) (s : Store F)
      → let (answer, after) =
          put_client_owned_token
            (in_memory search)
            (in_memory_api now hash)
            tok.country_code
            tok.party_id
            tok.uid
            (ok tok)
            s in
        (answer ≡ replied 200)
        × ((get_client_owned_token
              (in_memory search)
              (in_memory_api now hash)
              tok.country_code
              tok.party_id
              tok.uid
              after).0
            ≡ response_token (some (kept now tok)))
  unfolding put_client_owned_token get_client_owned_token get_token set_token lookup_token
  put_then_get tok s =
      rw (eq_refl tok.country_code, eq_refl tok.party_id, eq_refl tok.uid)
        (
          refl,
          rw
              (lookup-insert tok.uid tok.uid (record (stored_token tok) { last_updated = now })
                s.tokens)
              (rw (eq_refl tok.uid, eq_refl tok.country_code, eq_refl tok.party_id) refl),
        )
