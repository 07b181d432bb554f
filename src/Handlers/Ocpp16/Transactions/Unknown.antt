-- ===== src/Handlers/Ocpp16/Transactions/Unknown.antt =====
-- manager/handlers/ocpp16/start_transaction.go over the store of manager/store/inmemory/: starts with
-- tags that are not known.
use mathlib.Core.List.{append_assoc}
use maeve_csms_reservations.Prelude.{
  ℕ, String, false, ◌≡◌, refl, ◌∙◌, ap, Option, none, some, List, [], ◌∷◌, ◌++◌,
}
use maeve_csms_reservations.Prelude.Dict.{lookup}
use maeve_csms_reservations.Prelude.Int.{ℤ, pos, negsuc}
use maeve_csms_reservations.Store.{MeterValue, Transaction}
use maeve_csms_reservations.Store.Sorting.{BinarySearch}
use maeve_csms_reservations.Store.Engine.{ok}
use maeve_csms_reservations.Store.InMemory.{Store}
use maeve_csms_reservations.Store.InMemory.AsEngine.{in_memory}
use maeve_csms_reservations.Store.InMemory.Records.{lookup_token}
use maeve_csms_reservations.Store.InMemory.Transactions.{
  find_transaction, get_transaction, create_transaction, created, update_transaction_entry,
  write_back,
}
use maeve_csms_reservations.Store.InMemory.Transactions.History.{recorded}
use maeve_csms_reservations.Handlers.{Float}
use maeve_csms_reservations.Handlers.Ocpp16.Uuid.{UuidText, convert_to_uuid}
use maeve_csms_reservations.Handlers.Ocpp16.Transactions.{
  StartTransaction, start_transaction, transaction_id_for, begin_value,
}
use maeve_csms_reservations.Handlers.Ocpp16.Transactions.Energy.{start_transaction_lem}

module _ {F : Type 0} (float : Float F) where
  -- The reading of the meter at the start.
  abbrev pub start_reading : String → ℤ → MeterValue F
  start_reading now meter = record {
    sampled_values =
        record {
          context = some "Transaction.Begin";
          location = none;
          measurand = some "MeterValue";
          phase = none;
          unit_of_measure = some (record { unit = "Wh"; multiplier = pos 1 });
          value = float.of_int meter;
        }
        ∷ [];
    timestamp = now;
  }

module _ {F : Type 0} (float : Float F) (uuid_text : UuidText) (search : BinarySearch) where
  created-tokens :
      (cs id tag type : String) (values : List (MeterValue F)) (found : Option (Transaction F))
      (s : Store F)
      → (created cs id tag type values (pos 0) false found s).tokens ≡ s.tokens
  unfolding created update_transaction_entry write_back
  created-tokens cs id tag type values none s = refl
  created-tokens cs id tag type values (some t) s = refl

  start-tokens :
      (cs now : String) (random : ℕ) (req : StartTransaction) (tag : String) (s : Store F)
      → lookup_token tag
          (start_transaction (in_memory search) float uuid_text cs now random req s).1
        ≡ lookup_token tag s
  unfolding start_transaction lookup_token create_transaction
  start-tokens cs now random req tag s = ap (lookup tag) (
      created-tokens cs
        (convert_to_uuid uuid_text (transaction_id_for (lookup_token req.id_tag s) random))
        req.id_tag "ISO14443" (begin_value float now req.meter_start ∷ [])
        (get_transaction cs
          (convert_to_uuid uuid_text (transaction_id_for (lookup_token req.id_tag s) random)) s)
        s)

  -- With the in-memory store, two starts with tags that are not known are both answered as invalid
  -- and with the transaction id -1, and they share one stored transaction: under the UUID of -1 the
  -- readings of both starts stand behind whatever was there.
  pub start_transaction-shared :
      (cs now later : String) (random random2 : ℕ) (first second : StartTransaction) (s : Store F)
      → lookup_token first.id_tag s ≡ none
      → lookup_token second.id_tag s ≡ none
      → let uuid = convert_to_uuid uuid_text (negsuc 0) in
        let run1 = start_transaction (in_memory search) float uuid_text cs now random first s in
        let run2 =
          start_transaction (in_memory search) float uuid_text cs later random2 second run1.1 in
        (run1.0 ≡ ok (record { status = "Invalid"; transaction_id = negsuc 0 }))
        × (run2.0 ≡ ok (record { status = "Invalid"; transaction_id = negsuc 0 }))
        × (recorded (find_transaction cs uuid run2.1)
            ≡ recorded (find_transaction cs uuid s)
              ++ (start_reading float now first.meter_start
                  ∷ start_reading float later second.meter_start
                  ∷ []))
  start_transaction-shared cs now later random random2 first second s unknown1 unknown2 =
      let run1 = start_transaction (in_memory search) float uuid_text cs now random first s in
      let unknown = start-tokens cs now random first second.id_tag s ∙ unknown2 in
      let (answer1, stored1) =
        rw unknown1 at (start_transaction_lem float uuid_text search cs now random first s) in
      let (answer2, stored2) =
        rw unknown at
          (start_transaction_lem float uuid_text search cs later random2 second run1.1) in
      (
        answer1,
        answer2,
        stored2
            ∙ ap (λ l. l ++ (start_reading float later second.meter_start ∷ [])) stored1
            ∙ append_assoc (recorded (find_transaction cs (convert_to_uuid uuid_text (negsuc 0)) s))
                (start_reading float now first.meter_start ∷ [])
                (start_reading float later second.meter_start ∷ []),
      )
