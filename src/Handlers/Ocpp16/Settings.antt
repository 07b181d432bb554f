-- ===== src/Handlers/Ocpp16/Settings.antt =====
-- manager/handlers/ocpp16/boot_notification.go and change_configuration_result.go, over any store:
-- the settings of a station from their sending to the reboot that some of them need.
pub mod Reboot
use Prim.Native.String.{◌++◌ as append}
use maeve_csms_reservations.Prelude.{
  ℕ, String, Bool, true, false, ◌&&◌, ◌||◌, Option, none, some, List, [], ◌∷◌, ◌==◌, if◌then◌else◌,
  map, any,
}
use maeve_csms_reservations.Prelude.Dict.{Dict, values}
use maeve_csms_reservations.Store.{
  ChargeStationSetting, ChargeStationSettings, setting_pending, setting_accepted,
  setting_reboot_required,
}
use maeve_csms_reservations.Store.Engine.{Result, ok, err, Engine, Action, pure, ◌>>=◌, ◌>>◌}

abbrev pub is_pending : ChargeStationSetting → Bool
is_pending setting = setting.status == setting_pending

abbrev pub needs_reboot : ChargeStationSetting → Bool
needs_reboot setting = setting.status == setting_reboot_required

-- `for _, setting := range settings.Settings`: all_done and reboot_required after the loop, which
-- stops at the first pending setting.
unfoldable pub scan : List ChargeStationSetting → Bool → Bool × Bool
scan [] reboot_required = (true, reboot_required)
scan (setting ∷ settings) reboot_required =
    let now_required = if needs_reboot setting then true else reboot_required in
    let rest = scan settings now_required in
    if is_pending setting then (false, now_required) else rest

-- `TriggerMessageJson`, without the connector id, which is never set.
pub record TriggerMessage : Type 0 where
  pub requested_message : String

-- `CallMaker.Send` of a trigger message to a charge station.
abbrev pub SendTrigger : Type 0 → Type 0
SendTrigger S = String → TriggerMessage → Action S (Unit {0})

-- The result of the handler, `none` for a panic: the lookup's result is dereferenced.
abbrev pub Handled : Type 0 → Type 0
Handled S = Option (Result (Unit {0})) × S

abbrev pub wrapped : {S : Type 0} → String → String → S → Handled S
wrapped text e s = (some (err (append text e)), s)

abbrev pub sent_or_done : {S : Type 0} → Result (Unit {0}) × S → Handled S
sent_or_done (r, s) = (some r, s)

module _ {S F : Type 0} (engine : Engine S F) (send : SendTrigger S) where
  abbrev after_lookup : String → Result (Option ChargeStationSettings) × S → Handled S
  after_lookup cs (err e, s) = wrapped "lookup charge station settings: " e s
  after_lookup cs (ok none, s) = (none, s)
  after_lookup cs (ok (some settings), s) =
      let (all_done, reboot_required) = scan (values settings.settings) false in
      if all_done && reboot_required
      then sent_or_done (send cs (record { requested_message = "BootNotification" }) s)
      else (some (ok tt), s)

  abbrev after_update : String → Result (Unit {0}) × S → Handled S
  after_update cs (err e, s) = wrapped "update charge station settings: " e s
  after_update cs (ok _, s) = after_lookup cs (engine.lookup_charge_station_settings cs s)

  -- `ChangeConfigurationResultHandler.HandleCallResult`, for a request's key and value and the
  -- status of the response; the time of sending is the zero time.
  unfoldable pub change_configuration_result : String → String → String → String → S → Handled S
  unfolding scan
  change_configuration_result cs key value status s = after_update cs (
      engine.update_charge_station_settings cs
        (record {
          charge_station_id = cs;
          settings = (key, record { value = value; status = status; send_after = 0 }) ∷ [];
        })
        s)

-- A setting that needed the reboot is accepted. The code changes it through its pointer.
abbrev pub accepted_if : Bool → ChargeStationSetting → ChargeStationSetting
accepted_if true setting = record setting { status = setting_accepted }
accepted_if false setting = setting

abbrev pub accept_rebooted : ChargeStationSetting → ChargeStationSetting
accept_rebooted setting = accepted_if (needs_reboot setting) setting

unfoldable pub accept_all : Dict ChargeStationSetting → Dict ChargeStationSetting
accept_all [] = []
accept_all ((key, setting) ∷ settings) = (key, accept_rebooted setting) ∷ accept_all settings

module _ {S F : Type 0} (engine : Engine S F) where
  abbrev pub store_rebooted : String → Option ChargeStationSettings → Action S (Unit {0})
  store_rebooted cs none = pure tt
  store_rebooted cs (some settings) =
      if any needs_reboot (values settings.settings)
      then engine.update_charge_station_settings cs
          (record settings { settings = accept_all settings.settings })
      else pure tt

  -- `BootNotificationHandler.HandleCall`: what it does before it answers Accepted.
  unfoldable pub boot_notification : String → Action S (Unit {0})
  unfolding accept_all
  boot_notification cs =
      engine.set_charge_station_runtime_details cs (record { ocpp_version = "1.6" })
      >> engine.lookup_charge_station_settings cs
      >>= store_rebooted cs
