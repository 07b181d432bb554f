-- ===== src/Handlers/Ocpp16/Examples.antt =====
-- Concrete settings for the theorems on manager/handlers/ocpp16/boot_notification.go and
-- change_configuration_result.go.
use maeve_csms_reservations.Prelude.{ℕ, ◌≡◌, String, some, [], ◌∷◌, if◌then◌else◌}
use maeve_csms_reservations.Store.{
  ChargeStationSetting, ChargeStationSettings, setting_pending, setting_accepted,
  setting_reboot_required,
}
use maeve_csms_reservations.Store.Engine.{ok}
use maeve_csms_reservations.Store.Examples.{search}
use maeve_csms_reservations.Store.InMemory.{Store, new_store}
use maeve_csms_reservations.Store.InMemory.AsEngine.{in_memory}
use maeve_csms_reservations.Store.InMemory.Stations.{
  update_charge_station_settings, lookup_charge_station_settings,
}
use maeve_csms_reservations.Store.InMemory.Stations.Settings.{settings_in}
use maeve_csms_reservations.Handlers.Ocpp16.Settings.{
  SendTrigger, sent_or_done, change_configuration_result,
}
use maeve_csms_reservations.Handlers.Ocpp16.Settings.Reboot.{
  reboot_due, answered, change_configuration_result_lem,
}

abbrev setting : String → ChargeStationSetting
setting status = record { value = "60"; status = status; send_after = 0 }

abbrev stored_settings : ChargeStationSettings
stored_settings = record {
  charge_station_id = "cs1";
  settings =
      ("HeartbeatInterval", setting setting_reboot_required)
      ∷ ("MeterInterval", setting setting_pending)
      ∷ [];
}

abbrev configured : Store ℕ
configured = record (new_store ℕ) { charge_station_settings = ("cs1", stored_settings) ∷ [] }

abbrev send : SendTrigger (Store ℕ)
send cs trigger s = (ok tt, s)

abbrev after : Store ℕ
after =
    update_charge_station_settings "cs1" (answered "cs1" "MeterInterval" "60" setting_accepted)
      configured

change_configuration_result_lem_example :
    change_configuration_result
      (in_memory search)
      send
      "cs1"
      "MeterInterval"
      "60"
      setting_accepted
      configured
    ≡ (if reboot_due (settings_in (lookup_charge_station_settings "cs1" after))
        then sent_or_done (send "cs1" (record { requested_message = "BootNotification" }) after)
        else (some (ok tt), after))
change_configuration_result_lem_example =
    change_configuration_result_lem search send "cs1" "MeterInterval" "60" setting_accepted
      configured
