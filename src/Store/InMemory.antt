-- ===== src/Store/InMemory.antt =====
-- manager/store/inmemory/store.go: the store that keeps everything in Go maps. Each method holds
-- the store's lock from its first to its last line, so it is one step on the state. What the code
-- stores is a pointer; here it is the value that the pointer leads to.
pub mod Listing
pub mod Stations
pub mod Transactions
pub mod Records
pub mod AsEngine
use maeve_csms_reservations.Prelude.{String, []}
use maeve_csms_reservations.Prelude.Dict.{Dict}
use maeve_csms_reservations.Store.{
  ChargeStationAuth, ChargeStationSettings, ChargeStationInstallCertificates,
  ChargeStationRuntimeDetails, ChargeStationTriggerMessage, Token, Transaction, OcpiRegistration,
  OcpiParty, Location,
}

pub record Store (F : Type 0) : Type 0 where
  pub charge_station_auth : Dict ChargeStationAuth
  pub charge_station_settings : Dict ChargeStationSettings
  pub charge_station_install_certificates : Dict ChargeStationInstallCertificates
  pub charge_station_runtime_details : Dict ChargeStationRuntimeDetails
  pub charge_station_trigger_message : Dict ChargeStationTriggerMessage
  pub tokens : Dict Token
  pub transactions : Dict (Transaction F)
  pub certificates : Dict String
  pub registrations : Dict OcpiRegistration
  pub party_details : Dict OcpiParty
  pub locations : Dict Location

-- `NewStore`
abbrev pub new_store : (F : Type 0) → Store F
new_store F = record {
  charge_station_auth = [];
  charge_station_settings = [];
  charge_station_install_certificates = [];
  charge_station_runtime_details = [];
  charge_station_trigger_message = [];
  tokens = [];
  transactions = [];
  certificates = [];
  registrations = [];
  party_details = [];
  locations = [];
}
