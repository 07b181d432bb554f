-- ===== src/Sync/Settings.antt =====
-- manager/sync/settings.go, over any store: one pass of the loop of `SyncSettings`. The result of
-- `Send` is only logged, so a call that is sent is an output of the pass. The regular expression of
-- the names and `strconv.Atoi` are parameters. The settings of a station are those that the listing
-- gave: the loop over them stores the one that it is at only. The code reads the clock twice for a
-- setting, before and after it has looked at the time: `now` and `later`.
pub mod Resend
pub mod Steady
pub mod Coverage
use maeve_csms_reservations.Prelude.{
  ℕ, ◌+◌, String, Bool, true, false, ◌&&◌, Option, none, some, List, [], ◌∷◌, ◌++◌, ◌==◌, ltb, any,
  if◌then◌else◌,
}
use maeve_csms_reservations.Prelude.Dict.{Dict, values}
use maeve_csms_reservations.Prelude.Int.{ℤ}
use maeve_csms_reservations.Store.{
  ChargeStationRuntimeDetails, ChargeStationSetting, ChargeStationSettings, setting_pending,
}
use maeve_csms_reservations.Store.Engine.{Result, ok, err, Engine}

pub record SetVariableData : Type 0 where
  pub component_name : String
  pub component_instance : Option String
  pub evse_id : Option ℤ
  pub variable_name : String
  pub variable_instance : Option String
  pub attribute_type : Option String
  pub attribute_value : String

-- A call to a charge station: the station, and the setting or the variables.
pub data SettingsCall : Type 0 where
  change_configuration : String → String → String → SettingsCall
  set_variables : String → List SetVariableData → SettingsCall

-- `FindStringSubmatch` of `ocpp201NamePattern`, and `strconv.Atoi`.
pub record Names : Type 0 where
  pub find_submatch : String → List String
  pub atoi : String → Result ℤ

abbrev pub unless_empty : String → Option String
unless_empty text = if text == "" then none else some text

abbrev pub evse_of : String → Result ℤ → Result (Option ℤ)
evse_of name (err e) = err "invalid ocpp 2.0.1 name (EVSE id is not an integer)"
evse_of name (ok id) = ok (some id)

abbrev pub variable_of :
    String → String → String → String → String → Result (Option ℤ) → Result SetVariableData
variable_of component instance_text variable variable_text type (err e) = err e
variable_of component instance_text variable variable_text type (ok evse_id) = ok (record {
  component_name = component;
  component_instance = unless_empty instance_text;
  evse_id = evse_id;
  variable_name = variable;
  variable_instance = unless_empty variable_text;
  attribute_type = unless_empty type;
  attribute_value = "";
})

module _ (names : Names) where
  abbrev pub of_matches : String → List String → Result SetVariableData
  of_matches name (all ∷ m1 ∷ m2 ∷ m3 ∷ m4 ∷ m5 ∷ m6 ∷ []) =
      variable_of m1 m2 m4 m5 m6 (if m3 == "" then ok none else evse_of name (names.atoi m3))
  of_matches name _ = err "invalid ocpp 2.0.1 name"

  -- `parseOcpp201Name`
  unfoldable pub parse_ocpp201_name : String → Result SetVariableData
  parse_ocpp201_name name = of_matches name (names.find_submatch name)

abbrev pub is_pending_setting : ChargeStationSetting → Bool
is_pending_setting setting = setting.status == setting_pending

unfoldable pub filter_pending_settings : List ChargeStationSettings → List ChargeStationSettings
filter_pending_settings [] = []
filter_pending_settings (station ∷ settings) =
    let rest = filter_pending_settings settings in
    if any is_pending_setting (values station.settings) then station ∷ rest else rest

-- The setting is pending, and its time has come.
abbrev pub is_due : ℕ → ChargeStationSetting → Bool
is_due now setting = is_pending_setting setting && ltb setting.send_after now

-- The update for a setting that is sent.
abbrev pub resend_at : ℕ → String → ChargeStationSetting → ChargeStationSettings
resend_at send_after name setting = record {
  charge_station_id = "";
  settings =
      (name, record { value = setting.value; status = setting.status; send_after = send_after })
      ∷ [];
}

-- How a pass ends: with the calls it has sent, at its end or in a panic.
pub data Pass : Type 0 where
  completed : List SettingsCall → Pass
  panicked : List SettingsCall → Pass

abbrev pub after_calls : List SettingsCall → Pass → Pass
after_calls calls (completed rest) = completed (calls ++ rest)
after_calls calls (panicked rest) = panicked (calls ++ rest)

abbrev pub with_value : String → Result SetVariableData → List SetVariableData
with_value value (err e) = []
with_value value (ok variable) = record variable { attribute_value = value } ∷ []

abbrev pub call_with_variables : String → List SetVariableData → List SettingsCall
call_with_variables cs_id [] = []
call_with_variables cs_id (variable ∷ variables) = set_variables cs_id (variable ∷ variables) ∷ []

abbrev pub last_station : String → List ChargeStationSettings → String
last_station id [] = id
last_station id (station ∷ settings) = last_station station.charge_station_id settings

module _ {S F : Type 0} (engine : Engine S F) (names : Names) (now later retry_after : ℕ) where
  -- What is sent once the store has the setting; nothing if that fails.
  abbrev pub if_stored : {A : Type 0} → List A → Result (Unit {0}) × S → List A × S
  if_stored sent (err e, s) = ([], s)
  if_stored sent (ok done, s) = (sent, s)

  abbrev pub store_sent :
      {A : Type 0} → String → String → ChargeStationSetting → List A → S → List A × S
  store_sent cs_id name setting sent s =
      if is_due now setting
      then if_stored sent (
          engine.update_charge_station_settings cs_id (resend_at (later + retry_after) name setting)
            s)
      else ([], s)

  -- `case "1.6"`
  unfoldable pub sync_v16 : String → Dict ChargeStationSetting → S → List SettingsCall × S
  sync_v16 cs_id [] s = ([], s)
  sync_v16 cs_id ((name, setting) ∷ settings) s =
      let (calls, t) =
        store_sent cs_id name setting (change_configuration cs_id name setting.value ∷ []) s in
      let (rest, u) = sync_v16 cs_id settings t in (calls ++ rest, u)

  -- `case "2.0.1"`: the variables; a name that is not one of a variable is stored as sent all the
  -- same.
  unfoldable pub variables_v201 : String → Dict ChargeStationSetting → S → List SetVariableData × S
  unfolding parse_ocpp201_name
  variables_v201 cs_id [] s = ([], s)
  variables_v201 cs_id ((name, setting) ∷ settings) s =
      let (variables, t) =
        store_sent cs_id name setting (with_value setting.value (parse_ocpp201_name names name))
          s in
      let (rest, u) = variables_v201 cs_id settings t in (variables ++ rest, u)

  unfoldable pub sync_v201 : String → Dict ChargeStationSetting → S → List SettingsCall × S
  unfolding variables_v201
  sync_v201 cs_id settings s =
      let (variables, t) = variables_v201 cs_id settings s in
      (call_with_variables cs_id variables, t)

  abbrev pub sync_version : String → String → Dict ChargeStationSetting → S → List SettingsCall × S
  sync_version version cs_id settings s =
      if version == "1.6"
      then sync_v16 cs_id settings s
      else (if version == "2.0.1" then sync_v201 cs_id settings s else ([], s))

  abbrev pub sync_known :
      ChargeStationSettings
      → Option ChargeStationRuntimeDetails
      → S
      → Option (List SettingsCall × S)
  sync_known station none s = none
  sync_known station (some details) s =
      some (sync_version details.ocpp_version station.charge_station_id station.settings s)

  -- The details of a station that are not found are nil, also if the store fails; they are read.
  abbrev pub sync_station :
      ChargeStationSettings
      → Result (Option ChargeStationRuntimeDetails) × S
      → Option (List SettingsCall × S) × S
  sync_station station (err e, s) = (none, s)
  sync_station station (ok details, s) = (sync_known station details s, s)

  abbrev pub pass_on : Option (List SettingsCall × S) × S → (S → Pass × S) → Pass × S
  pass_on (none, s) continue = (panicked [], s)
  pass_on (some (calls, t), s) continue = let (p, u) = continue t in (after_calls calls p, u)

  unfoldable pub sync_pending : List ChargeStationSettings → S → Pass × S
  unfolding sync_v16 sync_v201
  sync_pending [] s = (completed [], s)
  sync_pending (station ∷ stations) s =
      pass_on
        (sync_station station
          (engine.lookup_charge_station_runtime_details station.charge_station_id s))
        (sync_pending stations)

  abbrev pub with_settings : String → Result (List ChargeStationSettings) × S → (String × Pass) × S
  with_settings previous (err e, s) = ((previous, completed []), s)
  with_settings previous (ok settings, s) =
      let (pass, after) = sync_pending (filter_pending_settings settings) s in
      ((last_station "" settings, pass), after)

  -- One pass: the previous charge station id after it, how it ends, and the store.
  unfoldable pub sync_settings : String → S → (String × Pass) × S
  unfolding sync_pending filter_pending_settings
  sync_settings previous s =
      with_settings previous (engine.list_charge_station_settings 50 previous s)
