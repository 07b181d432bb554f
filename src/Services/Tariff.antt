-- ===== src/Services/Tariff.antt =====
-- manager/services/tariff.go: the cost of a transaction.
pub mod Cost
mod Examples
use mathlib.Core.List.{Mem, Perm}
use maeve_csms_reservations.Prelude.{
  ℕ, ◌*◌, ◌≤◌, ◌≡◌, String, Bool, false, ltb, All, ◌&&◌, Option, none, some, List, [], ◌∷◌,
  if◌then◌else◌,
}
use maeve_csms_reservations.Store.{SampledValue, MeterValue, Transaction}
use maeve_csms_reservations.Store.Engine.{Result, ok, err, Action}
use maeve_csms_reservations.Handlers.{holds}

-- `TariffService`, which leaves a state beside its result: an implementation may change what the
-- transaction's pointer leads to.
abbrev pub TariffService : Type 0 → Type 0 → Type 0
TariffService S F = Option (Transaction F) → Action S F

-- In order of their ranks.
abbrev pub Ordered : {A : Type 0} → (A → ℕ) → List A → Type 0
Ordered rank [] = Unit
Ordered rank (x ∷ l) = All (λ y. rank x ≤ rank y) l × Ordered rank l

-- What the documentation of `sort.Slice` says: it permutes the slice, and puts it in order if `less`
-- is an order of its elements.
pub record SortSlice (A : Type 0) : Type 0 where
  pub sort : (A → A → Bool) → List A → List A
  pub permutes : (less : A → A → Bool) (l : List A) → Perm (sort less l) l
  pub sorts :
      (less : A → A → Bool) (rank : A → ℕ) (l : List A)
      → ((a b : A) → Mem a l → Mem b l → less a b ≡ ltb (rank a) (rank b))
      → Ordered rank (sort less l)

-- `float64`: the constant that a fraction is rounded to, and the product.
pub record Price (F : Type 0) : Type 0 where
  pub rational : ℕ → ℕ → F
  pub multiply : F → F → F

-- `ts2.After(ts1)`, and false if one of the times cannot be parsed; the time is in nanoseconds.
abbrev pub is_before : Result ℕ → Result ℕ → Bool
is_before (ok ts1) (ok ts2) = ltb ts1 ts2
is_before _ _ = false

module _ {F : Type 0} where
  -- Is it the reading that ends a transaction?
  unfoldable pub is_outlet_energy : SampledValue F → Bool
  is_outlet_energy sv =
      holds sv.context "Transaction.End"
      && (holds sv.measurand "Energy.Active.Import.Register" && holds sv.location "Outlet")

  -- The two nested loops: `total_wh` is the value of the last reading so far, if there was one.
  abbrev pub last_in : Option F → List (SampledValue F) → Option F
  last_in total_wh [] = total_wh
  last_in total_wh (sv ∷ svs) =
      last_in (if is_outlet_energy sv then some sv.value else total_wh) svs

  abbrev pub last_reading : Option F → List (MeterValue F) → Option F
  last_reading total_wh [] = total_wh
  last_reading total_wh (mv ∷ mvs) = last_reading (last_in total_wh mv.sampled_values) mvs

  abbrev pub earlier : (String → Result ℕ) → MeterValue F → MeterValue F → Bool
  earlier parse_time a b = is_before (parse_time a.timestamp) (parse_time b.timestamp)

  unfoldable pub cost_of : Price F → Option F → Result F
  cost_of price none = err "no output energy reading found in transaction"
  cost_of price (some wh) = ok (price.multiply (price.rational 55 (100 * 1000)) wh)

  -- `BasicKwhTariffService.CalculateCost`: the cost, and the meter values that `sort.Slice` has
  -- put in order in place.
  unfoldable pub calculate_cost :
      SortSlice (MeterValue F)
      → (String → Result ℕ)
      → Price F
      → Option (Transaction F)
      → Result F × Option (Transaction F)
  unfolding is_outlet_energy cost_of
  calculate_cost slice parse_time price none = (err "no transaction provided", none)
  calculate_cost slice parse_time price (some t) =
      let sorted = slice.sort (earlier parse_time) t.meter_values in
      (cost_of price (last_reading none sorted), some (record t { meter_values = sorted }))
