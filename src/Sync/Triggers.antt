-- ===== src/Sync/Triggers.antt =====
-- manager/sync/triggers.go, over any store: one pass of the loop of `SyncTriggers`. The result of
-- `Send` is only traced, so a call that is sent is an output of the pass. The code reads the clock
-- twice for a trigger, before and after it has looked at the time: `now` and `later`.
pub mod Retry
use maeve_csms_reservations.Prelude.{
  ℕ, ◌+◌, String, Bool, ◌||◌, Option, none, some, List, [], ◌∷◌, ◌++◌, ◌==◌, ltb, if◌then◌else◌,
}
use maeve_csms_reservations.Store.{
  ChargeStationRuntimeDetails, ChargeStationTriggerMessage, trigger_pending,
}
use maeve_csms_reservations.Store.Engine.{Result, ok, err, Engine}

-- A call to a charge station: the station, and the message that it is to send. The three ways are
-- the three call makers.
pub data Call : Type 0 where
  v16 : String → String → Call
  data_transfer : String → String → Call
  v201 : String → String → Call

-- The messages that OCPP 1.6 itself can ask for.
unfoldable pub is_v16_message : String → Bool
is_v16_message message =
    message == "BootNotification"
    || (message == "DiagnosticStatusNotification"
        || (message == "FirmwareStatusNotification"
            || (message == "Heartbeat"
                || (message == "MeterValues" || message == "StatusNotification"))))

unfoldable pub call_for : String → String → String → Call
unfolding is_v16_message
call_for ocpp_version id message =
    if ocpp_version == "1.6"
    then (if is_v16_message message then v16 id message else data_transfer id message)
    else v201 id message

-- The trigger as it is stored when it is sent; its charge station id is left empty.
abbrev pub sent_trigger : ℕ → ChargeStationTriggerMessage → ChargeStationTriggerMessage
sent_trigger send_after t = record {
  charge_station_id = "";
  trigger_message = t.trigger_message;
  trigger_status = trigger_pending;
  send_after = send_after;
}

-- Where a page ends, or the start again behind the last page.
abbrev pub next_previous : String → List ChargeStationTriggerMessage → String
next_previous id [] = id
next_previous id (t ∷ triggers) = next_previous t.charge_station_id triggers

module _ {S F : Type 0} (engine : Engine S F) where
  abbrev after_set : ChargeStationTriggerMessage → String → Result (Unit {0}) × S → List Call × S
  after_set t version (err e, s) = ([], s)
  after_set t version (ok _, s) = (call_for version t.charge_station_id t.trigger_message ∷ [], s)

  abbrev with_details :
      ℕ
      → ℕ
      → ℕ
      → ChargeStationTriggerMessage
      → Result (Option ChargeStationRuntimeDetails) × S
      → List Call × S
  with_details now later retry_after t (err e, s) = ([], s)
  with_details now later retry_after t (ok none, s) = ([], s)
  with_details now later retry_after t (ok (some details), s) =
      if ltb t.send_after now
      then after_set t details.ocpp_version (
          engine.set_charge_station_trigger_message t.charge_station_id
            (sent_trigger (later + retry_after) t) s)
      else ([], s)

  -- The body of the inner loop.
  unfoldable pub sync_trigger : ℕ → ℕ → ℕ → ChargeStationTriggerMessage → S → List Call × S
  unfolding call_for
  sync_trigger now later retry_after t s =
      with_details now later retry_after t
        (engine.lookup_charge_station_runtime_details t.charge_station_id s)

  unfoldable pub sync_page : ℕ → ℕ → ℕ → List ChargeStationTriggerMessage → S → List Call × S
  unfolding sync_trigger
  sync_page now later retry_after [] s = ([], s)
  sync_page now later retry_after (t ∷ triggers) s =
      let (calls, s1) = sync_trigger now later retry_after t s in
      let (rest, s2) = sync_page now later retry_after triggers s1 in (calls ++ rest, s2)

  abbrev with_page :
      ℕ → ℕ → ℕ → String → Result (List ChargeStationTriggerMessage) × S → (String × List Call) × S
  with_page now later retry_after previous (err e, s) = ((previous, []), s)
  with_page now later retry_after previous (ok triggers, s) =
      let (calls, after) = sync_page now later retry_after triggers s in
      ((next_previous "" triggers, calls), after)

  -- One pass: the previous charge station id after it, the calls that it sends, and the store.
  unfoldable pub sync_triggers : ℕ → ℕ → ℕ → String → S → (String × List Call) × S
  unfolding sync_page
  sync_triggers now later retry_after previous s =
      with_page now later retry_after previous
        (engine.list_charge_station_trigger_messages 50 previous s)
