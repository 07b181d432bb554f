-- ===== src/Sync/Settings/Coverage.antt =====
-- manager/sync/settings.go over the store of manager/store/inmemory/: the stations that the passes of
-- the loop come to.
use maeve_csms_reservations.Prelude.{
  ℕ, zero, suc, ◌<◌, ◌≡◌, refl, ap, ◌∙◌, String, false, List, [], ◌∷◌, ◌++◌, map, All, any, length,
  arith, ◌==◌, Bool-cases, inl, inr,
}
use maeve_csms_reservations.Prelude.Dict.{Dict, keys, values}
use maeve_csms_reservations.Store.{ChargeStationSettings, ChargeStationRuntimeDetails}
use maeve_csms_reservations.Store.Sorting.{BinarySearch, sort_strings, sort_strings-Sorted}
use maeve_csms_reservations.Store.InMemory.{Store}
use maeve_csms_reservations.Store.InMemory.AsEngine.{in_memory}
use maeve_csms_reservations.Store.InMemory.Listing.{list_page, page_keys}
use maeve_csms_reservations.Store.InMemory.Listing.Paging.{
  UniqueKeys, last_or, join_pages, sweep, sweep_all,
}
use maeve_csms_reservations.Store.InMemory.Stations.{list_charge_station_settings}
use maeve_csms_reservations.Sync.Settings.{
  Names, Pass, completed, panicked, filter_pending_settings, sync_settings, is_pending_setting,
}
use maeve_csms_reservations.Sync.Settings.Steady.{
  IsIn, IsKeyed, HasDetails, own_members, All-sort_strings, All-page_keys, values_at-ids,
  last_station-ids, Steady, sync_pending-Steady,
}

ids_within :
    (ids : List String) (stations : List ChargeStationSettings)
    → All (IsIn ids) (map (λ set. set.charge_station_id) stations)
    → All (λ station. IsIn ids station.charge_station_id) (filter_pending_settings stations)
unfolding filter_pending_settings
ids_within ids [] h = tt
ids_within ids (station ∷ stations) h =
    elim (Bool-cases (any is_pending_setting (values station.settings))) [
      | inl e ↦ rw e (h.0, ids_within ids stations h.1)
      | inr e ↦ rw e (ids_within ids stations h.1)
    ]

-- The ids of the stations that a pass lists.
abbrev pub listed_ids : {F : Type 0} → BinarySearch → String → Store F → List String
listed_ids search previous s =
    map (λ set. set.charge_station_id) (list_charge_station_settings search 50 previous s)

-- A panic ends the program.
abbrev pub unless_panicked : Pass → List String → List String
unless_panicked (completed calls) rest = rest
unless_panicked (panicked calls) rest = []

page_within :
    (search : BinarySearch) (ids : List String) (previous : String)
    → All (IsIn ids) (page_keys search 50 previous (sort_strings ids))
page_within search ids previous =
    All-page_keys (IsIn ids) search 50 previous (sort_strings ids)
      (All-sort_strings (IsIn ids) ids (own_members ids ids (λ k i. i)))

join-same :
    (page rest : List String) (next_page : String → List String)
    → ((k : String) (ks : List String) → page ≡ k ∷ ks → rest ≡ next_page (last_or k ks))
    → join_pages page (λ last. rest) ≡ join_pages page next_page
join-same [] rest next_page h = refl
join-same (k ∷ ks) rest next_page h = ap (λ l. (k ∷ ks) ++ l) (h k ks refl)

module _ (search : BinarySearch) (names : Names) (now later retry_after : ℕ) where
  -- The stations that the passes list one after the other, each pass with the store and the previous
  -- id that the one before leaves, until one lists none.
  unfoldable pub visited : {F : Type 0} → ℕ → String → Store F → List String
  unfolding sync_settings list_charge_station_settings
  visited zero previous s = []
  visited (suc fuel) previous s =
      let ((next, pass), after) =
        sync_settings (in_memory search) names now later retry_after previous s in
      join_pages (listed_ids search previous s)
        (λ last. unless_panicked pass (visited fuel next after))

  module _ {F : Type 0} (ids : List String) (details : Dict ChargeStationRuntimeDetails)
      (known : All (HasDetails details) ids) where
    listed_ids-page :
        (previous : String) (s : Store F)
        → Steady ids details s
        → listed_ids search previous s ≡ page_keys search 50 previous (sort_strings ids)
    unfolding list_charge_station_settings list_page
    listed_ids-page previous s h =
        values_at-ids _ s.charge_station_settings h.keyed
          (rw h.same_ids (page_within search ids previous))
        ∙ ap (λ l. page_keys search 50 previous (sort_strings l)) h.same_ids

    pass_lem :
        (previous : String) (s : Store F)
        → Steady ids details s
        → let run = sync_settings (in_memory search) names now later retry_after previous s in
          ((calls : _) × (run.0.1 ≡ completed calls))
          × Steady ids details run.1
          × (run.0.0 ≡ last_or "" (listed_ids search previous s))
    unfolding sync_settings
    pass_lem previous s h =
        let stations = list_charge_station_settings search 50 previous s in
        let within =
          ids_within ids stations
            (rw (listed_ids-page previous s h) (page_within search ids previous)) in
        let (ends, steady) =
          sync_pending-Steady ids details search names now later retry_after
            (filter_pending_settings stations) s known within h in
        (ends, steady, last_station-ids "" stations)

    visited-sweep :
        (fuel : ℕ) (previous : String) (s : Store F)
        → Steady ids details s
        → visited fuel previous s ≡ sweep search 50 fuel previous (sort_strings ids)
    unfolding visited sweep
    visited-sweep zero previous s h = refl
    visited-sweep (suc fuel) previous s h =
        let ((calls, ends), steady, next) = pass_lem previous s h in
        let run = sync_settings (in_memory search) names now later retry_after previous s in
        let page = listed_ids-page previous s h in
        let ih = visited-sweep fuel run.0.0 run.1 steady in
        join-same (listed_ids search previous s) _
          (λ last. sweep search 50 fuel last (sort_strings ids))
          (λ k ks e.
            rw (ends, ih)
              (ap (λ l. sweep search 50 fuel l (sort_strings ids)) (next ∙ ap (last_or "") e)))
        ∙ ap (λ l. join_pages l (λ last. sweep search 50 fuel last (sort_strings ids))) page

  -- With the in-memory store, if every set of settings has the id that it is stored under, no id is
  -- stored twice or empty, and every station has runtime details, then the passes that begin without
  -- a previous id list every station with settings in the order of the ids and once, before one lists
  -- none, although each changes the store; passes for one page more than there are stations are
  -- enough.
  pub visited-sort_strings :
      {F : Type 0} (fuel : ℕ) (s : Store F)
      → All IsKeyed s.charge_station_settings
      → All (HasDetails s.charge_station_runtime_details) (keys s.charge_station_settings)
      → UniqueKeys (sort_strings (keys s.charge_station_settings))
      → any (λ k. k == "") (sort_strings (keys s.charge_station_settings)) ≡ false
      → length (sort_strings (keys s.charge_station_settings)) < fuel
      → visited fuel "" s ≡ sort_strings (keys s.charge_station_settings)
  visited-sort_strings fuel s keyed known unique named enough =
      let ids = keys s.charge_station_settings in
      visited-sweep ids s.charge_station_runtime_details known fuel "" s
        (record { keyed = keyed; same_ids = refl; same_details = refl })
      ∙ sweep_all search 50 fuel "" (sort_strings ids) (omega arith) enough
          (sort_strings-Sorted ids) unique named
