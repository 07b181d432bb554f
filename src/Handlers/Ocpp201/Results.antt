-- ===== src/Handlers/Ocpp201/Results.antt =====
-- manager/handlers/ocpp201/trigger_message_result.go, set_variables_result.go and boot_notification.go.
-- A missing response of DataTransfer is `none`; of a response the handlers read the
-- status, or nothing. The time is a parameter.
use maeve_csms_reservations.Prelude.{
  ℕ, String, Bool, true, false, Option, none, some, ◌==◌, if◌then◌else◌,
}
use maeve_csms_reservations.Store.Engine.{ok, Action, Engine, pure, ◌>>◌}
use maeve_csms_reservations.Store.InMemory.{Store}
use maeve_csms_reservations.Store.InMemory.Stations.{
  set_charge_station_trigger_message, delete_charge_station_trigger_message,
}

pub record BootNotificationResponse : Type 0 where
  pub current_time : String
  pub interval : ℕ
  pub status : String

-- The status that counts: without a response the trigger counts as accepted.
abbrev pub trigger_result : Option String → String
trigger_result none = "Accepted"
trigger_result (some status) = if status == "Accepted" then "Accepted" else "NotImplemented"

module _ {S F : Type 0} (engine : Engine S F) where
  -- the message that was asked for, and the status of the response
  unfoldable pub trigger_message_result : String → String → Option String → Action S (Unit {0})
  trigger_message_result cs_id requested_message response =
      let status = trigger_result response in
      if status == "Accepted"
      then engine.delete_charge_station_trigger_message cs_id
      else (engine.set_charge_station_trigger_message cs_id (record {
        charge_station_id = "";
        trigger_message = requested_message;
        trigger_status = status;
        send_after = 0;
      }))

  -- The results of the variables are traced only; an error of the store is logged.
  abbrev pub logged : Action S (Unit {0}) → Action S (Unit {0})
  logged m s = let (o, t) = m s in (ok tt, t)

  unfoldable pub set_variables_result : String → Bool → Action S (Unit {0})
  set_variables_result cs_id false = pure tt
  set_variables_result cs_id true = logged (engine.delete_charge_station_settings cs_id)

  unfoldable pub boot_notification : String → ℕ → String → Action S BootNotificationResponse
  boot_notification now heartbeat_interval cs_id =
      engine.set_charge_station_runtime_details cs_id (record { ocpp_version = "2.0.1" })
      >> pure (record { current_time = now; interval = heartbeat_interval; status = "Accepted" })
