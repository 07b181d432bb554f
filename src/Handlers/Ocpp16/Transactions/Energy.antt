-- ===== src/Handlers/Ocpp16/Transactions/Energy.antt =====
-- manager/handlers/ocpp16/start_transaction.go and stop_transaction.go over the store of
-- manager/store/inmemory/: what the two handlers leave of a transaction.
use mathlib.Core.List.{append-nil}
use maeve_csms_reservations.Prelude.{
  subst, ℕ, String, false, ◌≡◌, refl, sym, ◌∙◌, ap, Option, none, some, List, [], ◌∷◌, ◌++◌,
  Bool-cases, inl, inr,
}
use maeve_csms_reservations.Prelude.Int.{ℤ, pos}
use maeve_csms_reservations.Store.{MeterValue, Transaction}
use maeve_csms_reservations.Store.Sorting.{BinarySearch}
use maeve_csms_reservations.Store.Engine.{ok, err}
use maeve_csms_reservations.Store.InMemory.{Store}
use maeve_csms_reservations.Store.InMemory.AsEngine.{in_memory}
use maeve_csms_reservations.Store.InMemory.Records.{lookup_token}
use maeve_csms_reservations.Store.InMemory.Transactions.{find_transaction, end_transaction}
use maeve_csms_reservations.Store.InMemory.Transactions.History.{
  create, close, recorded, apply_all-recorded,
}
use maeve_csms_reservations.Handlers.{Float}
use maeve_csms_reservations.Handlers.Ocpp16.Uuid.{UuidText, convert_to_uuid}
use maeve_csms_reservations.Handlers.Ocpp16.Transactions.{
  StartTransaction, StopTransaction, token_status, transaction_id_for, begin_value, is_begin_value,
  find_transaction_begin_meter_values, find_outlet_energy_reading,
  calculate_transaction_end_outlet_energy, convert_meter_values, start_transaction,
  stop_transaction, previous_meter_values, start_seq, or_empty, token_type_for, id_tag_status_of,
}

-- The status that the answer of StopTransaction has: none without a tag.
abbrev pub status_of_tag : {F : Type 0} → Option String → Store F → Option String
status_of_tag none s = none
status_of_tag (some tag) s = some (token_status (lookup_token tag s))

module _ {F : Type 0} (float : Float F) (uuid_text : UuidText) (search : BinarySearch) where
  -- With the in-memory store, StartTransaction never fails: it answers with the status of the tag
  -- and stores a transaction for any tag, under the UUID of the id that it answers, with the
  -- starting value behind the meter values that were there.
  pub start_transaction_lem :
      (cs now : String) (random : ℕ) (req : StartTransaction) (s : Store F)
      → let id = transaction_id_for (lookup_token req.id_tag s) random in
        let uuid = convert_to_uuid uuid_text id in
        let run = start_transaction (in_memory search) float uuid_text cs now random req s in
        (run.0
          ≡ ok (record { status = token_status (lookup_token req.id_tag s); transaction_id = id }))
        × (recorded (find_transaction cs uuid run.1)
            ≡ recorded (find_transaction cs uuid s) ++ (begin_value float now req.meter_start ∷ []))
  unfolding start_transaction
  start_transaction_lem cs now random req s =
      let id = transaction_id_for (lookup_token req.id_tag s) random in
      let uuid = convert_to_uuid uuid_text id in
      (
        refl,
        (apply_all-recorded cs uuid
            (create req.id_tag "ISO14443" (begin_value float now req.meter_start ∷ []) (pos 0) false
              ∷ [])
            s).0,
      )

  -- A transaction without a starting value at the outlet gets no energy.
  calculate-none :
      (now : String) (values previous : List (MeterValue F)) (meter_stop : ℤ)
      → find_transaction_begin_meter_values float previous ≡ none
      → calculate_transaction_end_outlet_energy float now values previous meter_stop ≡ values
  unfolding calculate_transaction_end_outlet_energy
  calculate-none now values previous meter_stop h =
      elim (Bool-cases (find_outlet_energy_reading values)) [
        | inl e ↦ rw e refl
        | inr e ↦ rw (e, h) refl
      ]

  find_begin-started :
      (now : String) (meter_start : ℤ)
      → find_transaction_begin_meter_values float (begin_value float now meter_start ∷ []) ≡ none
  unfolding find_transaction_begin_meter_values is_begin_value
  find_begin-started now meter_start = refl

  id_tag_status_of-reads :
      (tag : Option String) (s : Store F)
      → id_tag_status_of (in_memory search) tag s ≡ (ok (status_of_tag tag s), s)
  id_tag_status_of-reads none s = refl
  id_tag_status_of-reads (some tag) s = refl

  -- The state in which StopTransaction leaves the store, for data that converts.
  abbrev pub stopped : String → String → StopTransaction → List (MeterValue F) → Store F → Store F
  stopped cs now req values s =
      let uuid = convert_to_uuid uuid_text req.transaction_id in
      let before = find_transaction cs uuid s in
      end_transaction cs uuid (or_empty req.id_tag) (token_type_for req.id_tag)
        (calculate_transaction_end_outlet_energy float now values (previous_meter_values before)
          req.meter_stop)
        (start_seq before) s

  stop-converted :
      (cs now : String) (req : StopTransaction) (values : List (MeterValue F)) (s : Store F)
      → convert_meter_values float req.transaction_data ≡ ok values
      → stop_transaction (in_memory search) float uuid_text cs now req s
        ≡ (ok (record { id_tag_status = status_of_tag req.id_tag s }), stopped cs now req values s)
  unfolding stop_transaction
  stop-converted cs now req values s h = rw (id_tag_status_of-reads req.id_tag s, h) refl

  -- StopTransaction with data that does not convert answers the error of the conversion, and
  -- leaves the store as it was.
  pub stop_transaction-err :
      (cs now e : String) (req : StopTransaction) (s : Store F)
      → convert_meter_values float req.transaction_data ≡ err e
      → stop_transaction (in_memory search) float uuid_text cs now req s ≡ (err e, s)
  unfolding stop_transaction
  stop_transaction-err cs now e req s h = rw (id_tag_status_of-reads req.id_tag s, h) refl

  recorded-previous : (o : Option (Transaction F)) → recorded o ≡ previous_meter_values o
  recorded-previous none = refl
  recorded-previous (some t) = refl

  -- StopTransaction with data that converts succeeds for every transaction id, stored or not: the
  -- answer has the status of the tag, if the request has one, and the stored transaction has the
  -- converted values, with the energy if that is to be added, behind the ones that it had.
  pub stop_transaction_lem :
      (cs now : String) (req : StopTransaction) (values : List (MeterValue F)) (s : Store F)
      → convert_meter_values float req.transaction_data ≡ ok values
      → let uuid = convert_to_uuid uuid_text req.transaction_id in
        let before = recorded (find_transaction cs uuid s) in
        let run = stop_transaction (in_memory search) float uuid_text cs now req s in
        (run.0 ≡ ok (record { id_tag_status = status_of_tag req.id_tag s }))
        × (recorded (find_transaction cs uuid run.1)
            ≡ before
              ++ calculate_transaction_end_outlet_energy float now values before req.meter_stop)
  stop_transaction_lem cs now req values s h =
      let uuid = convert_to_uuid uuid_text req.transaction_id in
      let before = find_transaction cs uuid s in
      let new =
        calculate_transaction_end_outlet_energy float now values (previous_meter_values before)
          req.meter_stop in
      let closed =
        (apply_all-recorded cs uuid
          (close (or_empty req.id_tag) (token_type_for req.id_tag) new (start_seq before) ∷ [])
          s).0 in
      (
        ap (λ r. r.0) (stop-converted cs now req values s h),
        rw (stop-converted cs now req values s h, closed, append-nil new, recorded-previous before)
            refl,
      )

  -- With the in-memory store, a transaction that was not stored before, that StartTransaction begins
  -- and StopTransaction ends under the id of the start, with data that converts, has the starting
  -- value and the converted values, whatever the meter shows at the end: no energy is computed
  -- from the two readings.
  pub start_then_stop :
      (cs now later : String) (random : ℕ) (start : StartTransaction) (stop : StopTransaction)
      (values : List (MeterValue F)) (s : Store F)
      → stop.transaction_id ≡ transaction_id_for (lookup_token start.id_tag s) random
      → find_transaction cs (convert_to_uuid uuid_text stop.transaction_id) s ≡ none
      → convert_meter_values float stop.transaction_data ≡ ok values
      → let started =
          (start_transaction (in_memory search) float uuid_text cs now random start s).1 in
        recorded (
          find_transaction cs
            (convert_to_uuid uuid_text stop.transaction_id)
            (stop_transaction (in_memory search) float uuid_text cs later stop started).1)
        ≡ begin_value float now start.meter_start ∷ values
  start_then_stop cs now later random start stop values s same fresh converts =
      let started =
        (start_transaction (in_memory search) float uuid_text cs now random start s).1 in
      let uuid = convert_to_uuid uuid_text stop.transaction_id in
      let begun : recorded (find_transaction cs uuid started)
          ≡ begin_value float now start.meter_start ∷ [] =
        subst
          (λ id.
            recorded (find_transaction cs (convert_to_uuid uuid_text id) started)
            ≡ begin_value float now start.meter_start ∷ [])
          (sym same) ((start_transaction_lem cs now random start s).1 ∙ rw (← same, fresh) refl) in
      (stop_transaction_lem cs later stop values started converts).1
      ∙ rw begun (
          ap (◌∷◌ (begin_value float now start.meter_start)) (
            calculate-none later values _ stop.meter_stop
              (find_begin-started now start.meter_start)))
