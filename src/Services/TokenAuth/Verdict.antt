-- ===== src/Services/TokenAuth/Verdict.antt =====
-- manager/services/token_auth.go: which tokens are accepted, and that no state changes.
use maeve_csms_reservations.Prelude.{
  String, Bool, false, not, ◌&&◌, ◌||◌, ◌≡◌, refl, Option, none, some, ◌==◌, Bool-cases, inl, inr,
}
use maeve_csms_reservations.Store.{Token}
use maeve_csms_reservations.Store.Sorting.{BinarySearch}
use maeve_csms_reservations.Store.Engine.{Result, ok, err, Engine}
use maeve_csms_reservations.Store.InMemory.{Store}
use maeve_csms_reservations.Store.InMemory.AsEngine.{in_memory}
use maeve_csms_reservations.Services.TokenAuth.{IdToken, token_info, authorize}

-- A token was found, and it is valid.
abbrev pub is_valid : Result (Option Token) → Bool
is_valid (err e) = false
is_valid (ok none) = false
is_valid (ok (some token)) = token.valid

token_info-accepted :
    (now : String) (r : Result (Option Token))
    → ((token_info now r).status == "Accepted") ≡ is_valid r
unfolding token_info
token_info-accepted now (err e) = refl
token_info-accepted now (ok none) = refl
token_info-accepted now (ok (some token)) = elim (Bool-cases token.valid) [
  | inl e ↦ rw e refl
  | inr e ↦ rw e refl
]

-- A token is accepted exactly if its type is NoAuthorization or Central, or it has another type
-- than Local and the store has it as valid; a failing store accepts no token.
pub authorize-accepted :
    {S F : Type 0} (engine : Engine S F) (now : String) (token : IdToken) (s : S)
    → ((authorize engine now token s).0.status == "Accepted") ≡ (
        token.type == "NoAuthorization"
        || (token.type == "Central"
            || (not (token.type == "Local") && is_valid (engine.lookup_token token.id_token s).0)))
unfolding authorize
authorize-accepted engine now token s = elim (Bool-cases (token.type == "NoAuthorization")) [
  | inl e ↦ rw e refl
  | inr e ↦ elim (Bool-cases (token.type == "Central")) [
    | inl f ↦ rw (e, f) refl
    | inr f ↦ elim (Bool-cases (token.type == "Local")) [
      | inl g ↦ rw (e, f, g) refl
      | inr g ↦ rw (e, f, g) (token_info-accepted now (engine.lookup_token token.id_token s).0)
    ]
  ]
]

-- With the in-memory store, authorizing a token changes nothing.
pub authorize-reads :
    {F : Type 0} (search : BinarySearch) (now : String) (token : IdToken) (s : Store F)
    → (authorize (in_memory search) now token s).1 ≡ s
unfolding authorize
authorize-reads search now token s = elim (Bool-cases (token.type == "NoAuthorization")) [
  | inl e ↦ rw e refl
  | inr e ↦ elim (Bool-cases (token.type == "Central")) [
    | inl f ↦ rw (e, f) refl
    | inr f ↦ elim (Bool-cases (token.type == "Local")) [
      | inl g ↦ rw (e, f, g) refl
      | inr g ↦ rw (e, f, g) refl
    ]
  ]
]
