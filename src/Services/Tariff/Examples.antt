-- ===== src/Services/Tariff/Examples.antt =====
-- A concrete transaction for the theorem on manager/services/tariff.go: two readings of the outlet's
-- energy, the later one stored first, sorted by insertion.
use mathlib.Core.List.{Mem, Perm, mem-cons_self, mem-cons_of_mem}
use mathlib.Core.List.Perm
use maeve_csms_reservations.Prelude.{
  ℕ, ◌*◌, ◌≤◌, ◌≡◌, ◌⊎◌, refl, String, Bool, false, ltb, All, none, some, List, [], ◌∷◌, Bool-cases,
  inl, inr, arith, ◌==◌, if◌then◌else◌,
}
use maeve_csms_reservations.Prelude.Int.{pos}
use maeve_csms_reservations.Store.{SampledValue, MeterValue, Transaction}
use maeve_csms_reservations.Store.Engine.{ok, err}
use maeve_csms_reservations.Services.Tariff.{SortSlice, Ordered, Price, calculate_cost, cost_of}
use maeve_csms_reservations.Services.Tariff.Cost.{IsFinal, calculate_cost-latest}

widen : {A : Type 0} (x y : A) (l : List A) {a : A} → Mem a (x ∷ l) → Mem a (x ∷ y ∷ l)
widen x y l mem = (Perm.mem_iff (Perm.swap x y l)).0 (mem-cons_of_mem y mem)

module _ {A : Type 0} (less : A → A → Bool) where
  insert : A → List A → List A
  insert x [] = x ∷ []
  insert x (y ∷ l) = let rest = insert x l in if less y x then y ∷ rest else x ∷ y ∷ l

  sort : List A → List A
  unfolding insert
  sort [] = []
  sort (x ∷ l) = insert x (sort l)

  insert-Perm : (x : A) (l : List A) → Perm (insert x l) (x ∷ l)
  unfolding insert
  insert-Perm x [] = Perm.refl (x ∷ [])
  insert-Perm x (y ∷ l) = elim (Bool-cases (less y x)) [
    | inl e ↦ rw e (Perm.trans (Perm.cons y (insert-Perm x l)) (Perm.swap x y l))
    | inr e ↦ rw e (Perm.refl (x ∷ y ∷ l))
  ]

  sort-Perm : (l : List A) → Perm (sort l) l
  unfolding sort
  sort-Perm [] = Perm.refl []
  sort-Perm (x ∷ l) = Perm.trans (insert-Perm x (sort l)) (Perm.cons x (sort-Perm l))

  module _ (rank : A → ℕ) where
    abbrev Agrees : List A → Type 0
    Agrees l = (a b : A) → Mem a l → Mem b l → less a b ≡ ltb (rank a) (rank b)

    above : (m n : ℕ) (l : List A) → m ≤ n → All (λ y. n ≤ rank y) l → All (λ y. m ≤ rank y) l
    above m n [] le h = tt
    above m n (y ∷ l) le h = (omega (arith, h.0), above m n l le h.1)

    above_insert :
        (m : ℕ) (x : A) (l : List A)
        → m ≤ rank x
        → All (λ y. m ≤ rank y) l
        → All (λ y. m ≤ rank y) (insert x l)
    unfolding insert
    above_insert m x [] le h = (le, tt)
    above_insert m x (y ∷ l) le h = elim (Bool-cases (less y x)) [
      | inl e ↦ rw e (h.0, above_insert m x l le h.1)
      | inr e ↦ rw e (le, h)
    ]

    insert-Ordered :
        (x : A) (l : List A) → Agrees (x ∷ l) → Ordered rank l → Ordered rank (insert x l)
    unfolding insert
    insert-Ordered x [] agrees h = (tt, tt)
    insert-Ordered x (y ∷ l) agrees h =
        let same = agrees y x (mem-cons_of_mem x mem-cons_self) mem-cons_self in
        elim (Bool-cases (less y x)) [
          | inl e ↦
              (let below : rank y ≤ rank x = ground (arith, same) in
                rw e (
                  above_insert (rank y) x l below h.0,
                  insert-Ordered x l (λ a b ma mb. agrees a b (widen x y l ma) (widen x y l mb))
                      h.1,
                ))
          | inr e ↦
              (let below : rank x ≤ rank y = ground (arith, same) in
                rw e ((below, above (rank x) (rank y) l below h.0), h))
        ]

    sort-Ordered : (l : List A) → Agrees l → Ordered rank (sort l)
    unfolding sort
    sort-Ordered [] agrees = tt
    sort-Ordered (x ∷ l) agrees =
        let perm = Perm.cons x (sort-Perm l) in
        insert-Ordered x (sort l)
          (λ a b ma mb. agrees a b ((Perm.mem_iff perm).0 ma) ((Perm.mem_iff perm).0 mb))
          (sort-Ordered l (λ a b ma mb. agrees a b (mem-cons_of_mem x ma) (mem-cons_of_mem x mb)))

abbrev by_insertion : (A : Type 0) → SortSlice A
by_insertion A = record {
  sort = λ less. sort less;
  permutes = λ less. sort-Perm less;
  sorts = λ less rank. sort-Ordered less rank;
}

abbrev price : Price ℕ
price = record { rational = λ n d. n; multiply = λ a b. a * b }

abbrev at_end : ℕ → String → MeterValue ℕ
at_end value time = record {
  sampled_values =
      record {
        context = some "Transaction.End";
        location = some "Outlet";
        measurand = some "Energy.Active.Import.Register";
        phase = none;
        unit_of_measure = none;
        value = value;
      }
      ∷ [];
  timestamp = time;
}

abbrev read : Transaction ℕ
read = record {
  charge_station_id = "cs1";
  transaction_id = "tx1";
  id_token = "T1";
  token_type = "ISO14443";
  meter_values = at_end 150 "11:00" ∷ at_end 100 "10:00" ∷ [];
  start_seq_no = pos 0;
  ended_seq_no = pos 1;
  updated_seq_no_count = 0;
  offline = false;
}

abbrev time_of : String → ℕ
time_of text = if text == "11:00" then 11 else 10

-- The later reading counts, which is stored first.
latest_test :
    (calculate_cost (by_insertion (MeterValue ℕ)) (λ text. ok (time_of text)) price (some read)).0
    ≡ ok 8250
unfolding calculate_cost cost_of sort insert
latest_test = refl

calculate_cost-latest_example :
    let cost =
      (calculate_cost
        (by_insertion (MeterValue ℕ))
        (λ text. ok (time_of text))
        price
        (some read)).0 in
    ((cost ≡ err "no output energy reading found in transaction")
      × ((mv : MeterValue ℕ) (sv : SampledValue ℕ)
          → Mem mv read.meter_values
          → Mem sv mv.sampled_values
          → ¬ IsFinal sv))
    ⊎ ((mv : MeterValue ℕ) × (sv : SampledValue ℕ) × Mem mv read.meter_values
        × Mem sv mv.sampled_values
        × IsFinal sv
        × (cost ≡ ok (55 * sv.value))
        × ((other : MeterValue ℕ) (reading : SampledValue ℕ)
            → Mem other read.meter_values
            → Mem reading other.sampled_values
            → IsFinal reading
            → time_of other.timestamp ≤ time_of mv.timestamp))
calculate_cost-latest_example =
    calculate_cost-latest (by_insertion (MeterValue ℕ)) (λ text. ok (time_of text)) price
      (λ mv. time_of mv.timestamp) read (λ mv mem. refl)
