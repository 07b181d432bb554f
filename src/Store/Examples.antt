-- ===== src/Store/Examples.antt =====
-- Concrete stores for the theorems on manager/store/inmemory/store.go.
use maeve_csms_reservations.Prelude.{
  ℕ, suc, ◌+◌, ◌≡◌, ◌≢◌, refl, String, Bool, true, false, some, List, [], ◌∷◌, ◌++◌, ◌==◌, eq_iff,
  any, get_elem?, if◌then◌else◌, Bool-cases, inl, inr, ap,
}
use maeve_csms_reservations.Prelude.Dict.{lookup}
use maeve_csms_reservations.Prelude.Int.{pos}
use maeve_csms_reservations.Store.{
  ChargeStationSetting, ChargeStationSettings, ChargeStationInstallCertificate, MeterValue,
  setting_pending,
}
use maeve_csms_reservations.Store.Sorting.{BinarySearch}
use maeve_csms_reservations.Store.InMemory.{new_store}
use maeve_csms_reservations.Store.InMemory.Stations.{
  update_charge_station_settings, lookup_charge_station_settings, merge_certificates,
}
use maeve_csms_reservations.Store.InMemory.Stations.Certificates.{
  times_of, ids_of, not_stored, merge_certificates_lem, first_with, last_with, after_update,
}
use maeve_csms_reservations.Store.InMemory.Stations.Settings.{
  settings_in, or_old, update_charge_station_settings_lem,
}
use maeve_csms_reservations.Store.InMemory.Transactions.{find_transaction}
use maeve_csms_reservations.Store.InMemory.Transactions.History.{
  Event, create, update, close, apply_all, recorded, counted, all_values, updates_in,
  apply_all-recorded,
}

-- A search that looks at each element in turn, for the parameter of the listings.
abbrev next_place : ℕ × Bool → ℕ × Bool
next_place (i, found) = (suc i, found)

unfoldable pub linear_search : List String → String → ℕ × Bool
linear_search [] x = (0, false)
linear_search (y ∷ l) x = if y == x then (0, true) else next_place (linear_search l x)

pub linear_search-found :
    (l : List String) (x : String) → (linear_search l x).1 ≡ any (λ y. y == x) l
unfolding linear_search
linear_search-found [] x = refl
linear_search-found (y ∷ l) x = elim (Bool-cases (y == x)) [
  | inl e ↦ rw e refl
  | inr e ↦ rw e (linear_search-found l x)
]

pub linear_search-at :
    (l : List String) (x : String)
    → (linear_search l x).1 ≡ true
    → get_elem? l (linear_search l x).0 ≡ some x
unfolding linear_search
linear_search-at [] x h = cc
linear_search-at (y ∷ l) x h = elim (Bool-cases (y == x)) [
  | inl e ↦ rw e (ap some ((eq_iff y x).0 e))
  | inr e ↦ rw e (linear_search-at l x (rw e at h))
]

abbrev pub search : BinarySearch
search = record {
  search = linear_search;
  found_iff = λ l x sorted. linear_search-found l x;
  found_at = λ l x sorted h. linear_search-at l x h;
}

abbrev no_values : List (MeterValue ℕ)
no_values = []

abbrev value_at : String → MeterValue ℕ
value_at time = record { sampled_values = []; timestamp = time }

abbrev events : List (Event ℕ)
events =
    create "T1" "ISO14443" (value_at "08:00" ∷ []) (pos 0) false
    ∷ update (value_at "09:00" ∷ [])
    ∷ close "T1" "ISO14443" (value_at "10:00" ∷ []) (pos 2)
    ∷ []

apply_all-recorded_example :
    (recorded (find_transaction "cs1" "tx1" (apply_all "cs1" "tx1" events (new_store ℕ)))
      ≡ recorded (find_transaction "cs1" "tx1" (new_store ℕ)) ++ all_values events)
    × (counted (find_transaction "cs1" "tx1" (apply_all "cs1" "tx1" events (new_store ℕ)))
        ≡ counted (find_transaction "cs1" "tx1" (new_store ℕ)) + updates_in events)
    × ((other : String)
        → "tx1" ≢ other
        → find_transaction "cs1" other (apply_all "cs1" "tx1" events (new_store ℕ))
          ≡ find_transaction "cs1" other (new_store ℕ))
apply_all-recorded_example = apply_all-recorded "cs1" "tx1" events (new_store ℕ)

abbrev station : String
station = "cs1"

abbrev other_station : String
other_station = "cs2"

abbrev setting : String → ChargeStationSetting
setting value = record { value = value; status = setting_pending; send_after = 0 }

abbrev news : ChargeStationSettings
news = record {
  charge_station_id = "";
  settings = ("HeartbeatInterval", setting "60") ∷ ("MeterInterval", setting "10") ∷ [];
}

update_charge_station_settings_lem_example :
    (lookup "MeterInterval" (
        settings_in (
          lookup_charge_station_settings station
            (update_charge_station_settings station news (new_store ℕ))))
      ≡ or_old (lookup "MeterInterval" news.settings) (
          lookup "MeterInterval"
            (settings_in (lookup_charge_station_settings station (new_store ℕ)))))
    × (station ≢ other_station
        → lookup_charge_station_settings other_station
            (update_charge_station_settings station news (new_store ℕ))
          ≡ lookup_charge_station_settings other_station (new_store ℕ))
update_charge_station_settings_lem_example =
    update_charge_station_settings_lem station other_station "MeterInterval" news (new_store ℕ)
      (refl, (refl, tt))

abbrev certificate : String → String → ℕ → ChargeStationInstallCertificate
certificate id text time = record {
  certificate_type = "V2G";
  certificate_id = id;
  certificate_data = text;
  certificate_installation_status = "Pending";
  send_after = time;
}

abbrev stored : List ChargeStationInstallCertificate
stored = certificate "a" "old" 5 ∷ certificate "b" "old" 6 ∷ []

abbrev arriving : List ChargeStationInstallCertificate
arriving = certificate "c" "new" 7 ∷ certificate "b" "new" 8 ∷ []

merge_certificates_lem_example :
    (times_of (merge_certificates arriving stored)
      ≡ times_of stored ++ times_of (not_stored (ids_of stored) arriving))
    × ((id : String)
        → first_with id (merge_certificates arriving stored)
          ≡ after_update (first_with id stored) (first_with id arriving) (last_with id arriving))
merge_certificates_lem_example = merge_certificates_lem arriving stored
