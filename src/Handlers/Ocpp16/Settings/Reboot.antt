-- ===== src/Handlers/Ocpp16/Settings/Reboot.antt =====
-- manager/handlers/ocpp16/change_configuration_result.go and boot_notification.go over the store of
-- manager/store/inmemory/: when a boot notification is asked for, and what the
-- boot leaves of the settings.
use maeve_csms_reservations.Prelude.{
  String, Bool, true, false, not, ◌&&◌, ◌||◌, ◌≡◌, refl, Option, none, some, List, [], ◌∷◌, eq_refl,
  if◌then◌else◌, any, arith, Bool-cases, inl, inr,
}
use maeve_csms_reservations.Prelude.Dict.{Dict, values, lookup, lookup-insert}
use maeve_csms_reservations.Store.{ChargeStationSetting, ChargeStationSettings}
use maeve_csms_reservations.Store.Sorting.{BinarySearch}
use maeve_csms_reservations.Store.Engine.{ok}
use maeve_csms_reservations.Store.InMemory.{Store}
use maeve_csms_reservations.Store.InMemory.AsEngine.{in_memory}
use maeve_csms_reservations.Store.InMemory.Stations.{
  update_charge_station_settings, lookup_charge_station_settings, updated_settings,
}
use maeve_csms_reservations.Store.InMemory.Stations.Settings.{settings_in}
use maeve_csms_reservations.Handlers.Ocpp16.Settings.{
  is_pending, needs_reboot, scan, SendTrigger, sent_or_done, change_configuration_result,
  accept_rebooted,
}

-- The loop finds that a reboot is due exactly if no setting is pending and one needs the reboot,
-- in whatever order it comes to them.
scan_lem :
    (settings : List ChargeStationSetting) (reboot_required : Bool)
    → ((scan settings reboot_required).0 && (scan settings reboot_required).1)
      ≡ (not (any is_pending settings) && (reboot_required || any needs_reboot settings))
unfolding scan
scan_lem [] reboot_required = ground arith
scan_lem (setting ∷ settings) reboot_required = elim (Bool-cases (is_pending setting)) [
  | inl e ↦ rw e refl
  | inr e ↦ elim (Bool-cases (needs_reboot setting)) [
    | inl f ↦ rw (e, f, scan_lem settings true) (ground arith)
    | inr f ↦ rw (e, f, scan_lem settings reboot_required) refl
  ]
]

-- A reboot is due.
abbrev pub reboot_due : Dict ChargeStationSetting → Bool
reboot_due settings = not (any is_pending (values settings)) && any needs_reboot (values settings)

-- The setting that the answer to a change of configuration stands for.
abbrev pub answered : String → String → String → String → ChargeStationSettings
answered cs key value status = record {
  charge_station_id = cs;
  settings = (key, record { value = value; status = status; send_after = 0 }) ∷ [];
}

-- The setting after the reboot, if there is one.
abbrev pub rebooted : Option ChargeStationSetting → Option ChargeStationSetting
rebooted none = none
rebooted (some setting) = some (accept_rebooted setting)

module _ {F : Type 0} (search : BinarySearch) where
  lookup-update :
      (cs : String) (news : ChargeStationSettings) (s : Store F)
      → lookup_charge_station_settings cs (update_charge_station_settings cs news s)
        ≡ some (updated_settings cs (lookup_charge_station_settings cs s) news)
  unfolding lookup_charge_station_settings update_charge_station_settings
  lookup-update cs news s =
      let new = updated_settings cs (lookup cs s.charge_station_settings) news in
      rw (lookup-insert cs cs new s.charge_station_settings, eq_refl cs) refl

  -- With the in-memory store, the answer to a change of configuration is stored, and the charge
  -- station is sent a trigger message that asks for a boot notification, which is no reboot, exactly
  -- if then no setting of the station is pending and one needs a reboot.
  pub change_configuration_result_lem :
      (send : SendTrigger (Store F)) (cs key value status : String) (s : Store F)
      → let after = update_charge_station_settings cs (answered cs key value status) s in
        change_configuration_result (in_memory search) send cs key value status s ≡ (
          if reboot_due (settings_in (lookup_charge_station_settings cs after))
          then sent_or_done (send cs (record { requested_message = "BootNotification" }) after)
          else (some (ok tt), after))
  unfolding change_configuration_result
  change_configuration_result_lem send cs key value status s =
      let stored =
        updated_settings cs (lookup_charge_station_settings cs s) (answered cs key value status) in
      rw (lookup-update cs (answered cs key value status) s)
        (rw (scan_lem (values stored.settings) false) refl)
