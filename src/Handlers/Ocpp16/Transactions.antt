-- ===== src/Handlers/Ocpp16/Transactions.antt =====
-- manager/handlers/ocpp16/: the handlers Authorize, StartTransaction and StopTransaction, over any
-- store. Fields of the requests that the handlers do not read are left out. The current time is an
-- argument, in the form that the code gives it (RFC 3339), and so is the random number.
pub mod Energy
pub mod Stored
pub mod Unknown
use maeve_csms_reservations.Prelude.{
  ℕ, String, Bool, true, false, not, ◌&&◌, Option, none, some, List, [], ◌∷◌, ◌++◌, ◌==◌,
  if◌then◌else◌,
}
use maeve_csms_reservations.Prelude.Int.{ℤ, pos, negsuc, ◌+ℤ◌, ◌-ℤ◌}
use maeve_csms_reservations.Store.{UnitOfMeasure, SampledValue, MeterValue, Transaction, Token}
use maeve_csms_reservations.Store.Engine.{Result, ok, err, Engine, Action, pure, ◌>>=◌, ◌>>◌}
use maeve_csms_reservations.Handlers.{Float, holds, returned, convert_each}
use maeve_csms_reservations.Handlers.Ocpp16.Uuid.{UuidText, convert_to_uuid}

abbrev pub status_accepted : String
status_accepted = "Accepted"

abbrev pub status_invalid : String
status_invalid = "Invalid"

abbrev pub token_status : Option Token → String
token_status none = status_invalid
token_status (some token) = status_accepted

pub record StartTransaction : Type 0 where
  pub id_tag : String
  pub meter_start : ℤ

pub record StartTransactionResponse : Type 0 where
  pub status : String
  pub transaction_id : ℤ

pub record TransactionSample : Type 0 where
  pub context : Option String
  pub format : Option String
  pub location : Option String
  pub measurand : Option String
  pub phase : Option String
  pub unit : Option String
  pub value : String

pub record TransactionDataElem : Type 0 where
  pub sampled_value : List TransactionSample
  pub timestamp : String

pub record StopTransaction : Type 0 where
  pub id_tag : Option String
  pub meter_stop : ℤ
  pub transaction_data : List TransactionDataElem
  pub transaction_id : ℤ

-- The response holds the status of its `IdTagInfo`, if it has one.
pub record StopTransactionResponse : Type 0 where
  pub id_tag_status : Option String

-- -1, and for a token that is known the random number
abbrev pub transaction_id_for : Option Token → ℕ → ℤ
transaction_id_for none random = negsuc 0
transaction_id_for (some token) random = pos random

abbrev pub convert_unit_of_measure : Option String → Option UnitOfMeasure
convert_unit_of_measure none = none
convert_unit_of_measure (some unit) = some (record { unit = unit; multiplier = pos 1 })

-- `format != nil && *format != Raw`
abbrev pub is_signed : Option String → Bool
is_signed none = false
is_signed (some format) = not (format == "Raw")

abbrev pub start_seq : {F : Type 0} → Option (Transaction F) → ℤ
start_seq none = negsuc 0
start_seq (some t) = (t.start_seq_no +ℤ pos t.updated_seq_no_count) +ℤ pos 1

abbrev pub previous_meter_values : {F : Type 0} → Option (Transaction F) → List (MeterValue F)
previous_meter_values none = []
previous_meter_values (some t) = t.meter_values

abbrev pub token_type_for : Option String → String
token_type_for none = ""
token_type_for (some tag) = "ISO14443"

abbrev pub or_empty : Option String → String
or_empty none = ""
or_empty (some tag) = tag

module _ {F : Type 0} where
  -- Is it the reading that ends a transaction?
  unfoldable pub is_outlet_energy : SampledValue F → Bool
  is_outlet_energy sv =
      holds sv.context "Transaction.End"
      && (holds sv.measurand "Energy.Active.Import.Register" && holds sv.location "Outlet")

  unfoldable pub is_begin_value : SampledValue F → Bool
  is_begin_value sv =
      holds sv.context "Transaction.Begin"
      && (holds sv.measurand "MeterValue" && holds sv.location "Outlet")

  -- The first value that passes the test, in the order of the two nested loops.
  abbrev pub find_in : (SampledValue F → Bool) → List (SampledValue F) → Option (SampledValue F)
  find_in p [] = none
  find_in p (sv ∷ svs) = if p sv then some sv else find_in p svs

  abbrev pub or_else : Option (SampledValue F) → Option (SampledValue F) → Option (SampledValue F)
  or_else none rest = rest
  or_else (some sv) rest = some sv

  abbrev pub find_value : (SampledValue F → Bool) → List (MeterValue F) → Option (SampledValue F)
  find_value p [] = none
  find_value p (mv ∷ mvs) = or_else (find_in p mv.sampled_values) (find_value p mvs)

  abbrev found : Option (SampledValue F) → Bool
  found none = false
  found (some sv) = true

  unfoldable pub find_outlet_energy_reading : List (MeterValue F) → Bool
  unfolding is_outlet_energy
  find_outlet_energy_reading values = found (find_value is_outlet_energy values)

  module _ (float : Float F) where
    abbrev as_int : Option (SampledValue F) → Option ℤ
    as_int none = none
    as_int (some sv) = some (float.to_int sv.value)

    unfoldable pub find_transaction_begin_meter_values : List (MeterValue F) → Option ℤ
    unfolding is_begin_value
    find_transaction_begin_meter_values values = as_int (find_value is_begin_value values)

    abbrev pub energy_value : String → ℤ → MeterValue F
    energy_value now energy_used = record {
      sampled_values =
          (record {
            context = some "Transaction.End";
            location = some "Outlet";
            measurand = some "Energy.Active.Import.Register";
            phase = none;
            unit_of_measure = none;
            value = float.of_int energy_used;
          })
          ∷ [];
      timestamp = now;
    }

    abbrev with_energy : String → List (MeterValue F) → Option ℤ → ℤ → List (MeterValue F)
    with_energy now values none meter_stop = values
    with_energy now values (some meter_start) meter_stop =
        values ++ (energy_value now (meter_stop -ℤ meter_start) ∷ [])

    unfoldable pub calculate_transaction_end_outlet_energy :
        String → List (MeterValue F) → List (MeterValue F) → ℤ → List (MeterValue F)
    unfolding find_outlet_energy_reading find_transaction_begin_meter_values ◌-ℤ◌
    calculate_transaction_end_outlet_energy now values previous meter_stop =
        if find_outlet_energy_reading values
        then values
        else with_energy now values (find_transaction_begin_meter_values previous) meter_stop

    abbrev pub convert_value : Option String → String → Result F
    convert_value format value =
        if is_signed format
        then err "conversion from signed data not implemented"
        else float.parse_float value

    abbrev sample_with : TransactionSample → Result F → Result (SampledValue F)
    sample_with sample (err e) = err e
    sample_with sample (ok value) = ok (record {
      context = sample.context;
      location = sample.location;
      measurand = sample.measurand;
      phase = sample.phase;
      unit_of_measure = convert_unit_of_measure sample.unit;
      value = value;
    })

    abbrev pub convert_sample_value : TransactionSample → Result (SampledValue F)
    convert_sample_value sample = sample_with sample (convert_value sample.format sample.value)

    abbrev pub convert_sampled_values : List TransactionSample → Result (List (SampledValue F))
    convert_sampled_values = convert_each convert_sample_value

    abbrev meter_value_with : String → Result (List (SampledValue F)) → Result (MeterValue F)
    meter_value_with timestamp (err e) = err e
    meter_value_with timestamp (ok values) =
        ok (record { sampled_values = values; timestamp = timestamp })

    abbrev pub convert_meter_value : TransactionDataElem → Result (MeterValue F)
    convert_meter_value elem =
        meter_value_with elem.timestamp (convert_sampled_values elem.sampled_value)

    unfoldable pub convert_meter_values : List TransactionDataElem → Result (List (MeterValue F))
    convert_meter_values = convert_each convert_meter_value

    abbrev pub begin_value : String → ℤ → MeterValue F
    begin_value now meter_start = record {
      sampled_values =
          (record {
            context = some "Transaction.Begin";
            location = none;
            measurand = some "MeterValue";
            phase = none;
            unit_of_measure = some (record { unit = "Wh"; multiplier = pos 1 });
            value = float.of_int meter_start;
          })
          ∷ [];
      timestamp = now;
    }

module _ {S F : Type 0} (engine : Engine S F) where
  -- `AuthorizeHandler.HandleCall`
  unfoldable pub authorize : String → Action S String
  authorize id_tag = engine.lookup_token id_tag >>= λ token. pure (token_status token)

  abbrev pub id_tag_status_of : Option String → Action S (Option String)
  id_tag_status_of none = pure none
  id_tag_status_of (some tag) =
      engine.lookup_token tag >>= λ token. pure (some (token_status token))

  module _ (float : Float F) (uuid_text : UuidText) where
    -- `StartTransactionHandler.HandleCall`
    unfoldable pub start_transaction :
        String → String → ℕ → StartTransaction → Action S StartTransactionResponse
    unfolding convert_to_uuid
    start_transaction cs now random req = engine.lookup_token req.id_tag >>= λ token.
        let transaction_id = transaction_id_for token random in
        engine.create_transaction cs (convert_to_uuid uuid_text transaction_id) req.id_tag
          "ISO14443" (begin_value float now req.meter_start ∷ []) (pos 0) false
        >> pure (record { status = token_status token; transaction_id = transaction_id })

    -- `StopTransactionHandler.HandleCall`
    unfoldable pub stop_transaction :
        String → String → StopTransaction → Action S StopTransactionResponse
    unfolding convert_to_uuid ◌+ℤ◌ convert_meter_values calculate_transaction_end_outlet_energy
    stop_transaction cs now req =
        let transaction_id = convert_to_uuid uuid_text req.transaction_id in
        id_tag_status_of req.id_tag >>= λ status.
        engine.find_transaction cs transaction_id >>= λ transaction.
        returned (convert_meter_values float req.transaction_data) >>= λ meter_values.
        engine.end_transaction cs transaction_id (or_empty req.id_tag) (token_type_for req.id_tag)
          (calculate_transaction_end_outlet_energy float now meter_values
            (previous_meter_values transaction) req.meter_stop)
          (start_seq transaction)
        >> pure (record { id_tag_status = status })
