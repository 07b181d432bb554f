-- ===== src/Store.antt =====
-- manager/store/: the data that the manager keeps. The string types with named values are texts
-- with constants, since the code converts between them freely; a time is a number, the zero time
-- is 0; `F` stands for the type float64, which the manager only passes on here.
pub mod Engine
pub mod Sorting
pub mod InMemory
pub mod Examples
use maeve_csms_reservations.Prelude.{ℕ, String, Bool, Option, List}
use maeve_csms_reservations.Prelude.Dict.{Dict}
use maeve_csms_reservations.Prelude.Int.{ℤ, pos}

-- `SecurityProfile`, an int8
abbrev pub unsecured_transport_with_basic_auth : ℤ
unsecured_transport_with_basic_auth = pos 0

abbrev pub tls_with_basic_auth : ℤ
tls_with_basic_auth = pos 1

abbrev pub tls_with_client_side_certificates : ℤ
tls_with_client_side_certificates = pos 2

pub record ChargeStationAuth : Type 0 where
  pub security_profile : ℤ
  pub base64_sha256_password : String
  pub invalid_username_allowed : Bool

-- `ChargeStationSettingStatus`
abbrev pub setting_pending : String
setting_pending = "Pending"

abbrev pub setting_accepted : String
setting_accepted = "Accepted"

abbrev pub setting_reboot_required : String
setting_reboot_required = "RebootRequired"

pub record ChargeStationSetting : Type 0 where
  pub value : String
  pub status : String
  pub send_after : ℕ

pub record ChargeStationSettings : Type 0 where
  pub charge_station_id : String
  pub settings : Dict ChargeStationSetting

pub record ChargeStationRuntimeDetails : Type 0 where
  pub ocpp_version : String

pub record ChargeStationInstallCertificate : Type 0 where
  pub certificate_type : String
  pub certificate_id : String
  pub certificate_data : String
  pub certificate_installation_status : String
  pub send_after : ℕ

pub record ChargeStationInstallCertificates : Type 0 where
  pub charge_station_id : String
  pub certificates : List ChargeStationInstallCertificate

-- `TriggerStatus`
abbrev pub trigger_pending : String
trigger_pending = "Pending"

pub record ChargeStationTriggerMessage : Type 0 where
  pub charge_station_id : String
  pub trigger_message : String
  pub trigger_status : String
  pub send_after : ℕ

-- `CacheModeNever`
abbrev pub cache_mode_never : String
cache_mode_never = "NEVER"

pub record Token : Type 0 where
  pub country_code : String
  pub party_id : String
  pub type : String
  pub uid : String
  pub contract_id : String
  pub visual_number : Option String
  pub issuer : String
  pub group_id : Option String
  pub valid : Bool
  pub language_code : Option String
  pub cache_mode : String
  pub last_updated : String

pub record UnitOfMeasure : Type 0 where
  pub unit : String
  pub multiplier : ℤ

pub record SampledValue (F : Type 0) : Type 0 where
  pub context : Option String
  pub location : Option String
  pub measurand : Option String
  pub phase : Option String
  pub unit_of_measure : Option UnitOfMeasure
  pub value : F

pub record MeterValue (F : Type 0) : Type 0 where
  pub sampled_values : List (SampledValue F)
  pub timestamp : String

pub record Transaction (F : Type 0) : Type 0 where
  pub charge_station_id : String
  pub transaction_id : String
  pub id_token : String
  pub token_type : String
  pub meter_values : List (MeterValue F)
  pub start_seq_no : ℤ
  pub ended_seq_no : ℤ
  pub updated_seq_no_count : ℕ
  pub offline : Bool

pub record OcpiRegistration : Type 0 where
  pub status : String

pub record OcpiParty : Type 0 where
  pub country_code : String
  pub party_id : String
  pub role : String
  pub url : String
  pub token : String

pub record GeoLocation : Type 0 where
  pub latitude : String
  pub longitude : String

pub record Connector : Type 0 where
  pub format : String
  pub id : String
  pub max_amperage : ℤ
  pub max_voltage : ℤ
  pub power_type : String
  pub standard : String
  pub last_updated : String

pub record Evse : Type 0 where
  pub connectors : List Connector
  pub evse_id : Option String
  pub status : String
  pub uid : String
  pub last_updated : String

pub record Location : Type 0 where
  pub address : String
  pub city : String
  pub coordinates : GeoLocation
  pub country : String
  pub evses : Option (List Evse)
  pub id : String
  pub last_updated : String
  pub name : String
  pub parking_type : String
  pub postal_code : String
