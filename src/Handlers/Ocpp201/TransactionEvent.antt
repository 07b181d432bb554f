-- ===== src/Handlers/Ocpp201/TransactionEvent.antt =====
-- manager/handlers/ocpp201/transaction_event.go, over any store and any services. Fields of the
-- request that the handler only logs or ignores are left out.
pub mod Effect
use maeve_csms_reservations.Prelude.{ℕ, String, Bool, Option, none, some, List, map}
use maeve_csms_reservations.Prelude.Int.{ℤ}
use maeve_csms_reservations.Store.{UnitOfMeasure, SampledValue, MeterValue}
use maeve_csms_reservations.Store.Engine.{Result, ok, err, Engine, Action, pure, ◌>>=◌, ◌>>◌}
use maeve_csms_reservations.Services.TokenAuth.{IdToken, IdTokenInfo, TokenAuthService}
use maeve_csms_reservations.Services.Tariff.{TariffService}

-- `TransactionEventEnumType`: the three values that the code names, and any other text.
pub data EventType : Type 0 where
  started : EventType
  updated : EventType
  ended : EventType
  unknown : String → EventType

pub record UnitOfMeasureType : Type 0 where
  pub unit : String
  pub multiplier : ℤ

pub record SampledValueType (F : Type 0) : Type 0 where
  pub context : Option String
  pub location : Option String
  pub measurand : Option String
  pub phase : Option String
  pub unit_of_measure : Option UnitOfMeasureType
  pub value : F

pub record MeterValueType (F : Type 0) : Type 0 where
  pub sampled_value : List (SampledValueType F)
  pub timestamp : String

pub record TransactionEventRequest (F : Type 0) : Type 0 where
  pub event_type : EventType
  pub id_token : Option IdToken
  pub meter_value : List (MeterValueType F)
  pub offline : Bool
  pub seq_no : ℤ
  pub transaction_id : String

pub record TransactionEventResponse (F : Type 0) : Type 0 where
  pub id_token_info : Option IdTokenInfo
  pub total_cost : Option F

abbrev pub convert_unit_of_measure : Option UnitOfMeasureType → Option UnitOfMeasure
convert_unit_of_measure none = none
convert_unit_of_measure (some u) = some (record { unit = u.unit; multiplier = u.multiplier })

abbrev pub id_token_text : Option IdToken → String
id_token_text none = ""
id_token_text (some token) = token.id_token

abbrev pub id_token_type : Option IdToken → String
id_token_type none = ""
id_token_type (some token) = token.type

module _ {F : Type 0} where
  abbrev pub convert_sampled_value : SampledValueType F → SampledValue F
  convert_sampled_value v = record {
    context = v.context;
    location = v.location;
    measurand = v.measurand;
    phase = v.phase;
    unit_of_measure = convert_unit_of_measure v.unit_of_measure;
    value = v.value;
  }

  abbrev pub convert_meter_value : MeterValueType F → MeterValue F
  convert_meter_value v = record {
    sampled_values = map convert_sampled_value v.sampled_value;
    timestamp = v.timestamp;
  }

  unfoldable pub convert_meter_values : List (MeterValueType F) → List (MeterValue F)
  convert_meter_values = map convert_meter_value

  -- The error of the tariff service is logged, no more.
  abbrev pub ok_value : Result F → Option F
  ok_value (ok cost) = some cost
  ok_value (err e) = none

module _ {S F : Type 0} (engine : Engine S F) where
  -- `if req.IdToken != nil { ... }`
  unfoldable pub authorized : TokenAuthService S → Option IdToken → S → Option IdTokenInfo × S
  authorized auth none s = (none, s)
  authorized auth (some token) s = let (info, after) = auth token s in (some info, after)

  -- `switch req.EventType { ... }`
  unfoldable pub store_event : String → TransactionEventRequest F → EventType → Action S Unit
  unfolding convert_meter_values
  store_event cs req started =
      engine.create_transaction cs req.transaction_id (id_token_text req.id_token)
        (id_token_type req.id_token) (convert_meter_values req.meter_value) req.seq_no req.offline
  store_event cs req updated =
      engine.update_transaction cs req.transaction_id (convert_meter_values req.meter_value)
  store_event cs req ended =
      engine.end_transaction cs req.transaction_id (id_token_text req.id_token)
        (id_token_type req.id_token) (convert_meter_values req.meter_value) req.seq_no
  store_event cs req (unknown text) = pure tt

  abbrev pub cost_action : TariffService S F → String → String → Action S (Option F)
  cost_action tariff cs transaction_id =
      engine.find_transaction cs transaction_id >>= λ transaction s.
      let (cost, after) = tariff transaction s in (ok (ok_value cost), after)

  -- `if req.EventType == types.TransactionEventEnumTypeEnded { ... }`
  unfoldable pub total_cost :
      TariffService S F → String → TransactionEventRequest F → EventType → Action S (Option F)
  total_cost tariff cs req started = pure none
  total_cost tariff cs req updated = pure none
  total_cost tariff cs req (unknown text) = pure none
  total_cost tariff cs req ended = cost_action tariff cs req.transaction_id

  -- `TransactionEventHandler.HandleCall`
  unfoldable pub transaction_event :
      TokenAuthService S
      → TariffService S F
      → String
      → TransactionEventRequest F
      → Action S (TransactionEventResponse F)
  unfolding authorized store_event total_cost
  transaction_event auth tariff cs req s =
      let (info, after) = authorized auth req.id_token s in
      (store_event cs req req.event_type >> total_cost tariff cs req req.event_type >>= λ cost.
      pure (record { id_token_info = info; total_cost = cost }))
        after
