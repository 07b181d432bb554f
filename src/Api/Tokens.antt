-- ===== src/Api/Tokens.antt =====
-- manager/api/server.go with manager/store/inmemory/store.go: the tokens that the API stores.
use maeve_csms_reservations.Prelude.{◌≡◌, refl, sym, subst, String, List, ℕ, All}
use maeve_csms_reservations.Prelude.Dict.{insert-All}
use maeve_csms_reservations.Store.Engine.{Result, ok, err, Engine}
use maeve_csms_reservations.Store.InMemory.{Store}
use maeve_csms_reservations.Store.InMemory.Records.{CertificateHash, set_token}
use maeve_csms_reservations.Store.InMemory.AsEngine.{in_memory_api}
use maeve_csms_reservations.Store
use maeve_csms_reservations.Emaid
use maeve_csms_reservations.Emaid.{normalize_emaid}
use maeve_csms_reservations.Emaid.FixedPoint.{normalize_emaid_idem}
use maeve_csms_reservations.Api.{Token}
use maeve_csms_reservations.Api.Server
use maeve_csms_reservations.Api.Server.{Bytes, set_normalized_token}

-- The contract id is a normal form.
abbrev pub IsNormal : Bytes → String × Store.Token → Type 0
IsNormal bytes (uid, token) =
    let contract_id = bytes.of_text token.contract_id in
    normalize_emaid contract_id ≡ Emaid.ok contract_id

module _ {F : Type 0} (engine : Engine (Store F) F) (clock : String) (hash : CertificateHash)
    (bytes : Bytes) where
  set_normalized_token-IsNormal :
      (now : String) (req : Token) (outcome : Emaid.Outcome) (s : Store F)
      → normalize_emaid (bytes.of_text req.contract_id) ≡ outcome
      → ((t : List ℕ) → outcome ≡ Emaid.ok t → bytes.of_text (bytes.to_text t) ≡ t)
      → All (IsNormal bytes) s.tokens
      → All
          (IsNormal bytes)
          (set_normalized_token engine (in_memory_api clock hash) bytes now req outcome s).1.tokens
  unfolding set_token
  set_normalized_token-IsNormal now req Emaid.panic s e exact h = h
  set_normalized_token-IsNormal now req Emaid.invalid s e exact h = h
  set_normalized_token-IsNormal now req (Emaid.bad_check_digit found expected) s e exact h = h
  set_normalized_token-IsNormal now req (Emaid.ok t) s e exact h =
      insert-All (IsNormal bytes) req.uid _ s.tokens h (
        subst (λ id. normalize_emaid id ≡ Emaid.ok id) (sym (exact t refl))
          (normalize_emaid_idem (bytes.of_text req.contract_id) t e))

  -- With the in-memory store, and if the conversion of a normal form to a text and back gives the
  -- same bytes, whatever the request to store a token is, if every stored contract id is a normal
  -- form before, so is every one afterwards.
  pub set_token-IsNormal :
      (now : String) (request : Result Token) (s : Store F)
      → ((req : Token) (t : List ℕ)
          → normalize_emaid (bytes.of_text req.contract_id) ≡ Emaid.ok t
          → bytes.of_text (bytes.to_text t) ≡ t)
      → All (IsNormal bytes) s.tokens
      → All
          (IsNormal bytes)
          (Server.set_token engine (in_memory_api clock hash) bytes now request s).1.tokens
  unfolding Server.set_token
  set_token-IsNormal now (err e) s exact h = h
  set_token-IsNormal now (ok req) s exact h =
      set_normalized_token-IsNormal now req (normalize_emaid (bytes.of_text req.contract_id)) s refl
        (exact req) h
