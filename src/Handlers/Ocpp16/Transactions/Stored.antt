-- ===== src/Handlers/Ocpp16/Transactions/Stored.antt =====
-- manager/handlers/ocpp16/stop_transaction.go over the store of manager/store/inmemory/: the energy that
-- is stored at the end of a transaction.
use maeve_csms_reservations.Prelude.{
  String, Bool, true, ◌≡◌, refl, ◌∙◌, ap, none, some, List, [], ◌∷◌, ◌++◌, All, Bool-cases, inl,
  inr, and-true, and-intro,
}
use maeve_csms_reservations.Prelude.Int.{ℤ, ◌-ℤ◌}
use maeve_csms_reservations.Store.{SampledValue, MeterValue}
use maeve_csms_reservations.Store.Sorting.{BinarySearch}
use maeve_csms_reservations.Store.Engine.{ok}
use maeve_csms_reservations.Store.InMemory.{Store}
use maeve_csms_reservations.Store.InMemory.AsEngine.{in_memory}
use maeve_csms_reservations.Store.InMemory.Transactions.{find_transaction}
use maeve_csms_reservations.Store.InMemory.Transactions.History.{recorded}
use maeve_csms_reservations.Handlers.{Float, holds_iff}
use maeve_csms_reservations.Handlers.Ocpp16.Uuid.{UuidText, convert_to_uuid}
use maeve_csms_reservations.Handlers.Ocpp16.Transactions.{
  StopTransaction, is_begin_value, is_outlet_energy, find_in, find_value,
  find_transaction_begin_meter_values, find_outlet_energy_reading,
  calculate_transaction_end_outlet_energy, convert_meter_values, stop_transaction,
}
use maeve_csms_reservations.Handlers.Ocpp16.Transactions.Energy.{stop_transaction_lem}

module _ {F : Type 0} where
  -- A sampled value with a context, a measurand, and the location of the outlet.
  abbrev pub IsAtOutlet : String → String → SampledValue F → Type 0
  IsAtOutlet context measurand sv =
      (sv.context ≡ some context) × (sv.measurand ≡ some measurand) × (sv.location ≡ some "Outlet")

  -- None of the sampled values is one.
  abbrev pub NoneAtOutlet : String → String → List (SampledValue F) → Type 0
  NoneAtOutlet context measurand = All (λ sv. ¬ IsAtOutlet context measurand sv)

  abbrev pub NowhereAtOutlet : String → String → List (MeterValue F) → Type 0
  NowhereAtOutlet context measurand = All (λ mv. NoneAtOutlet context measurand mv.sampled_values)

  begin-IsAtOutlet :
      (sv : SampledValue F)
      → (is_begin_value sv ≡ true → IsAtOutlet "Transaction.Begin" "MeterValue" sv)
        × (IsAtOutlet "Transaction.Begin" "MeterValue" sv → is_begin_value sv ≡ true)
  unfolding is_begin_value
  begin-IsAtOutlet sv = (
    λ e.
        let (context, others) = and-true _ _ e in
        let (measurand, location) = and-true _ _ others in
        (
          (holds_iff sv.context _).0 context,
          (holds_iff sv.measurand _).0 measurand,
          (holds_iff sv.location _).0 location,
        ),
    λ h.
        let (context, measurand, location) = h in
        and-intro _ _ ((holds_iff sv.context _).1 context) (
          and-intro _ _ ((holds_iff sv.measurand _).1 measurand)
            ((holds_iff sv.location _).1 location)),
  )

  energy-IsAtOutlet :
      (sv : SampledValue F)
      → is_outlet_energy sv ≡ true
      → IsAtOutlet "Transaction.End" "Energy.Active.Import.Register" sv
  unfolding is_outlet_energy
  energy-IsAtOutlet sv e =
      let (context, others) = and-true _ _ e in
      let (measurand, location) = and-true _ _ others in
      (
        (holds_iff sv.context _).0 context,
        (holds_iff sv.measurand _).0 measurand,
        (holds_iff sv.location _).0 location,
      )

  module _ (p : SampledValue F → Bool) (P : SampledValue F → Type 0)
      (sound : (sv : SampledValue F) → p sv ≡ true → P sv) where
    find_in-absent : (svs : List (SampledValue F)) → All (λ sv. ¬ P sv) svs → find_in p svs ≡ none
    find_in-absent [] h = refl
    find_in-absent (sv ∷ svs) h = elim (Bool-cases (p sv)) [
      | inl e ↦ absurd (h.0 (sound sv e))
      | inr e ↦ rw e (find_in-absent svs h.1)
    ]

    find_value-absent :
        (mvs : List (MeterValue F))
        → All (λ mv. All (λ sv. ¬ P sv) mv.sampled_values) mvs
        → find_value p mvs ≡ none
    find_value-absent [] h = refl
    find_value-absent (mv ∷ mvs) h =
        rw (find_in-absent mv.sampled_values h.0, find_value-absent mvs h.1) refl

    find_in-first :
        (before after : List (SampledValue F)) (sv : SampledValue F)
        → All (λ v. ¬ P v) before
        → p sv ≡ true
        → find_in p (before ++ (sv ∷ after)) ≡ some sv
    find_in-first [] after sv h e = rw e refl
    find_in-first (v ∷ before) after sv h e = elim (Bool-cases (p v)) [
      | inl found ↦ absurd (h.0 (sound v found))
      | inr other ↦ rw other (find_in-first before after sv h.1 e)
    ]

    find_value-first :
        (before after : List (MeterValue F)) (mv : MeterValue F) (sv : SampledValue F)
        → All (λ m. All (λ v. ¬ P v) m.sampled_values) before
        → find_in p mv.sampled_values ≡ some sv
        → find_value p (before ++ (mv ∷ after)) ≡ some sv
    find_value-first [] after mv sv h e = rw e refl
    find_value-first (m ∷ before) after mv sv h e =
        rw (find_in-absent m.sampled_values h.0, find_value-first before after mv sv h.1 e) refl

module _ {F : Type 0} (float : Float F) where
  -- The reading of the energy that is added at the end.
  abbrev pub end_reading : String → ℤ → MeterValue F
  end_reading now energy = record {
    sampled_values =
        record {
          context = some "Transaction.End";
          location = some "Outlet";
          measurand = some "Energy.Active.Import.Register";
          phase = none;
          unit_of_measure = none;
          value = float.of_int energy;
        }
        ∷ [];
    timestamp = now;
  }

  found-begin :
      (stored before after : List (MeterValue F)) (mv : MeterValue F) (sv : SampledValue F)
      (earlier later : List (SampledValue F))
      → stored ≡ before ++ (mv ∷ after)
      → mv.sampled_values ≡ earlier ++ (sv ∷ later)
      → NowhereAtOutlet "Transaction.Begin" "MeterValue" before
      → NoneAtOutlet "Transaction.Begin" "MeterValue" earlier
      → IsAtOutlet "Transaction.Begin" "MeterValue" sv
      → find_transaction_begin_meter_values float stored ≡ some (float.to_int sv.value)
  unfolding find_transaction_begin_meter_values
  found-begin stored before after mv sv earlier later at within none_before none_earlier begins =
      let inner =
        ap (find_in is_begin_value) within
        ∙ find_in-first is_begin_value (IsAtOutlet "Transaction.Begin" "MeterValue")
            (λ v. (begin-IsAtOutlet v).0) earlier later sv none_earlier
            ((begin-IsAtOutlet sv).1 begins) in
      rw
        (
          at,
          find_value-first is_begin_value (IsAtOutlet "Transaction.Begin" "MeterValue")
              (λ v. (begin-IsAtOutlet v).0) before after mv sv none_before inner,
        )
        refl

  calculate-added :
      (now : String) (values previous : List (MeterValue F)) (meter_stop begun : ℤ)
      → NowhereAtOutlet "Transaction.End" "Energy.Active.Import.Register" values
      → find_transaction_begin_meter_values float previous ≡ some begun
      → calculate_transaction_end_outlet_energy float now values previous meter_stop
        ≡ values ++ (end_reading now (meter_stop -ℤ begun) ∷ [])
  unfolding calculate_transaction_end_outlet_energy find_outlet_energy_reading
  calculate-added now values previous meter_stop begun absent found =
      rw
        (
          find_value-absent is_outlet_energy
              (IsAtOutlet "Transaction.End" "Energy.Active.Import.Register") energy-IsAtOutlet
              values absent,
          found,
        )
        refl

module _ {F : Type 0} (float : Float F) (uuid_text : UuidText) (search : BinarySearch) where
  -- With the in-memory store, if the request's data converts and has no reading of the energy at the
  -- outlet at the end of a transaction, and the stored transaction has a value of the meter at the
  -- outlet at its beginning, StopTransaction stores the converted values behind those that are
  -- there, and behind them one such reading, of the stop of the meter less the first such value.
  pub stop_transaction-energy :
      (cs now : String) (req : StopTransaction) (values : List (MeterValue F)) (s : Store F)
      (before after : List (MeterValue F)) (mv : MeterValue F) (sv : SampledValue F)
      (earlier later : List (SampledValue F))
      → convert_meter_values float req.transaction_data ≡ ok values
      → NowhereAtOutlet "Transaction.End" "Energy.Active.Import.Register" values
      → recorded (find_transaction cs (convert_to_uuid uuid_text req.transaction_id) s)
        ≡ before ++ (mv ∷ after)
      → mv.sampled_values ≡ earlier ++ (sv ∷ later)
      → NowhereAtOutlet "Transaction.Begin" "MeterValue" before
      → NoneAtOutlet "Transaction.Begin" "MeterValue" earlier
      → IsAtOutlet "Transaction.Begin" "MeterValue" sv
      → let uuid = convert_to_uuid uuid_text req.transaction_id in
        let run = stop_transaction (in_memory search) float uuid_text cs now req s in
        recorded (find_transaction cs uuid run.1)
        ≡ (before ++ (mv ∷ after))
          ++ (values ++ (end_reading float now (req.meter_stop -ℤ float.to_int sv.value) ∷ []))
  stop_transaction-energy cs now req values s before after mv sv earlier later converts absent at
        within none_before none_earlier begins =
      let uuid = convert_to_uuid uuid_text req.transaction_id in
      let stored = recorded (find_transaction cs uuid s) in
      let begun =
        found-begin float stored before after mv sv earlier later at within none_before none_earlier
          begins in
      (stop_transaction_lem float uuid_text search cs now req values s converts).1
      ∙ ap (λ l. stored ++ l)
          (calculate-added float now values stored req.meter_stop _ absent begun)
      ∙ ap
          (λ l.
            l ++ (values ++ (end_reading float now (req.meter_stop -ℤ float.to_int sv.value) ∷ [])))
          at
