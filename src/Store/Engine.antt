-- ===== src/Store/Engine.antt =====
-- The `store.Engine` interface of manager/store/engine.go, as far as the handlers use it: each
-- method may fail, and returns the state that it leaves beside its result.
use maeve_csms_reservations.Prelude.{ℕ, String, Bool, Option, List}
use maeve_csms_reservations.Prelude.Int.{ℤ}
pub use maeve_csms_reservations.Prelude.Result.{Result, ok, err}
use maeve_csms_reservations.Store.{
  ChargeStationAuth, ChargeStationSettings, ChargeStationRuntimeDetails,
  ChargeStationTriggerMessage, ChargeStationInstallCertificates, Token, MeterValue, Transaction,
  OcpiRegistration, OcpiParty, Location,
}

abbrev pub Action {ℓ} : Type ℓ → Type ℓ → Type ℓ
Action S A = S → Result A × S

module _ {ℓ} {S A : Type ℓ} where
  abbrev pub pure : A → Action S A
  pure a s = (ok a, s)

  abbrev pub fail : String → Action S A
  fail e s = (err e, s)

module _ {ℓ} {S A B : Type ℓ} where
  abbrev pub continue : Result A → (A → Action S B) → Action S B
  continue (ok a) f s = f a s
  continue (err e) f s = (err e, s)

  infixl 10 ◌>>=◌ ◌>>◌
  -- `if err != nil { return nil, err }` after each call
  abbrev pub ◌>>=◌ : Action S A → (A → Action S B) → Action S B
  ◌>>=◌ m f s = let (r, s') = m s in continue r f s'

  abbrev pub ◌>>◌ : Action S A → Action S B → Action S B
  m >> n = m >>= λ _. n

pub record Engine (S F : Type 0) : Type 0 where
  pub lookup_token : String → Action S (Option Token)
  pub find_transaction : String → String → Action S (Option (Transaction F))
  pub create_transaction :
      String → String → String → String → List (MeterValue F) → ℤ → Bool → Action S Unit
  pub update_transaction : String → String → List (MeterValue F) → Action S Unit
  pub end_transaction : String → String → String → String → List (MeterValue F) → ℤ → Action S Unit
  pub set_charge_station_runtime_details : String → ChargeStationRuntimeDetails → Action S Unit
  pub lookup_charge_station_runtime_details : String → Action S (Option ChargeStationRuntimeDetails)
  pub update_charge_station_settings : String → ChargeStationSettings → Action S Unit
  pub lookup_charge_station_settings : String → Action S (Option ChargeStationSettings)
  pub delete_charge_station_settings : String → Action S Unit
  pub list_charge_station_settings : ℕ → String → Action S (List ChargeStationSettings)
  pub update_charge_station_install_certificates :
      String → ChargeStationInstallCertificates → Action S Unit
  pub set_charge_station_trigger_message : String → ChargeStationTriggerMessage → Action S Unit
  pub delete_charge_station_trigger_message : String → Action S Unit
  pub list_charge_station_trigger_messages :
      ℕ → String → Action S (List ChargeStationTriggerMessage)

-- The further methods that the HTTP API uses.
pub record ApiEngine (S : Type 0) : Type 0 where
  pub set_charge_station_auth : String → ChargeStationAuth → Action S Unit
  pub lookup_charge_station_auth : String → Action S (Option ChargeStationAuth)
  pub set_token : Token → Action S Unit
  pub list_tokens : ℕ → ℕ → Action S (List Token)
  pub set_certificate : String → Action S Unit
  pub delete_certificate : String → Action S Unit
  pub lookup_certificate : String → Action S String
  pub set_registration_details : String → OcpiRegistration → Action S Unit
  pub set_location : Location → Action S Unit

-- The further methods that OCPI uses.
pub record OcpiEngine (S : Type 0) : Type 0 where
  pub get_registration_details : String → Action S (Option OcpiRegistration)
  pub set_registration_details : String → OcpiRegistration → Action S Unit
  pub delete_registration_details : String → Action S Unit
  pub set_party_details : OcpiParty → Action S Unit
  pub list_party_details_for_role : String → Action S (List OcpiParty)
