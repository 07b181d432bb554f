-- ===== src/Sync/Examples.antt =====
-- A concrete trigger and concrete settings for the theorems on manager/sync/triggers.go and
-- manager/sync/settings.go.
use maeve_csms_reservations.Prelude.{ℕ, String, ◌≡◌, refl, some, none, List, [], ◌∷◌, arith, All}
use maeve_csms_reservations.Prelude.Int.{pos}
use maeve_csms_reservations.Prelude.Dict.{Dict, keys, lookup, insert}
use maeve_csms_reservations.Store.{
  ChargeStationRuntimeDetails, ChargeStationSetting, ChargeStationSettings, setting_pending,
  setting_accepted,
}
use maeve_csms_reservations.Store.Engine.{Result, ok, err}
use maeve_csms_reservations.Store.Examples.{search}
use maeve_csms_reservations.Store.Sorting.{sort_strings, insert_sorted}
use maeve_csms_reservations.Store.InMemory.{Store, new_store}
use maeve_csms_reservations.Store.InMemory.AsEngine.{in_memory, in_memory_api}
use maeve_csms_reservations.Store.InMemory.Stations.{
  set_charge_station_runtime_details, lookup_charge_station_runtime_details,
  update_charge_station_settings,
}
use maeve_csms_reservations.Sync.Settings.{Names, sync_v16, change_configuration}
use maeve_csms_reservations.Sync.Settings.Resend.{setting_of, sync_v16_lem}
use maeve_csms_reservations.Sync.Settings.Coverage.{visited, visited-sort_strings}
use maeve_csms_reservations.Sync.Settings.Steady.{HasDetails}
use maeve_csms_reservations.Sync.Triggers.{sync_triggers}
use maeve_csms_reservations.Sync.Triggers.Retry.{IsNameless, request_all, requests-unsent}

abbrev details : ChargeStationRuntimeDetails
details = record { ocpp_version = "1.6" }

-- A station that has booted, and requests for two triggers.
abbrev store : Store ℕ
store = set_charge_station_runtime_details "cs1" details (new_store ℕ)

abbrev requests : List (String × Result String)
requests =
    ("cs1", ok "BootNotification") ∷ ("cs2", err "no body") ∷ ("cs2", ok "StatusNotification") ∷ []

nameless_unknown : lookup_charge_station_runtime_details "" store ≡ none
unfolding lookup_charge_station_runtime_details set_charge_station_runtime_details lookup insert
nameless_unknown = refl

no_triggers : All IsNameless store.charge_station_trigger_message
unfolding set_charge_station_runtime_details
no_triggers = tt

requests-unsent_example :
    let after = request_all search (in_memory_api "08:00" ok) requests store in
    sync_triggers (in_memory search) 10 10 60 "" after ≡ (("", []), after)
requests-unsent_example =
    requests-unsent search (in_memory_api "08:00" ok) requests 10 10 60 "" store no_triggers
      nameless_unknown

abbrev interval : ChargeStationSetting
interval = record { value = "900"; status = setting_pending; send_after = 3 }

abbrev listed : Dict ChargeStationSetting
listed =
    ("MeterValueSampleInterval", interval)
    ∷ ("HeartbeatInterval", record { value = "60"; status = setting_accepted; send_after = 0 })
    ∷ []

abbrev configured : Store ℕ
configured =
    update_charge_station_settings "cs1" (record { charge_station_id = ""; settings = listed })
      (new_store ℕ)

abbrev names : Names
names = record { find_submatch = λ name. []; atoi = λ text. ok (pos 0) }

sync_v16_lem_example :
    let run = sync_v16 (in_memory search) names 10 10 60 "cs1" listed configured in
    (run.0 ≡ change_configuration "cs1" "MeterValueSampleInterval" "900" ∷ [])
    × (setting_of "cs1" "MeterValueSampleInterval" run.1
        ≡ some (record { value = "900"; status = setting_pending; send_after = 70 }))
unfolding lookup
sync_v16_lem_example =
    sync_v16_lem search names 10 10 60 "cs1" "MeterValueSampleInterval" listed configured
      (refl, (refl, tt))

-- Two stations with settings, stored out of order.
abbrev configured_for : String → ChargeStationSettings
configured_for id = record { charge_station_id = id; settings = listed }

abbrev stations : Store ℕ
stations = record (new_store ℕ) {
  charge_station_settings = ("cs2", configured_for "cs2") ∷ ("cs1", configured_for "cs1") ∷ [];
  charge_station_runtime_details = ("cs1", details) ∷ ("cs2", details) ∷ [];
}

both_known :
    All (HasDetails stations.charge_station_runtime_details) (keys stations.charge_station_settings)
unfolding lookup
both_known = ((details, refl), ((details, refl), tt))

in_order : sort_strings (keys stations.charge_station_settings) ≡ "cs1" ∷ "cs2" ∷ []
unfolding sort_strings insert_sorted
in_order = refl

visited-sort_strings_example :
    visited search names 10 10 60 3 "" stations
    ≡ sort_strings (keys stations.charge_station_settings)
unfolding sort_strings insert_sorted
visited-sort_strings_example =
    visited-sort_strings search names 10 10 60 3 stations (refl, (refl, tt)) both_known
      (refl, (refl, tt)) refl (omega arith)
