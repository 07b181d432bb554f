-- ===== src/Sync/Settings/Steady.antt =====
-- manager/sync/settings.go over the store of manager/store/inmemory/: a pass of the loop, and the ids
-- and runtime details of the stations in the store.
use maeve_csms_reservations.Prelude.{
  ℕ, zero, suc, ◌+◌, ◌≡◌, refl, sym, subst, ap, ◌∙◌, String, true, none, some, List, [], ◌∷◌, map,
  All, any, take, drop, arith, ◌==◌, eq_iff, eq_refl, Bool-cases, Option-cases, inl, inr,
}
use maeve_csms_reservations.Prelude.Dict.{Dict, keys, lookup, insert, lookup-All, insert-All}
use maeve_csms_reservations.Store.{
  ChargeStationSetting, ChargeStationSettings, ChargeStationRuntimeDetails,
}
use maeve_csms_reservations.Store.Sorting.{BinarySearch, sort_strings, insert_sorted, str_le}
use maeve_csms_reservations.Store.InMemory.{Store}
use maeve_csms_reservations.Store.InMemory.AsEngine.{in_memory}
use maeve_csms_reservations.Store.InMemory.Listing.{values_at, page_keys}
use maeve_csms_reservations.Store.InMemory.Listing.Paging.{last_or}
use maeve_csms_reservations.Store.InMemory.Stations.{
  updated_settings, update_charge_station_settings, lookup_charge_station_runtime_details,
}
use maeve_csms_reservations.Sync.Settings.{
  Names, completed, last_station, store_sent, is_due, sync_v16, variables_v201, sync_v201,
  sync_version, sync_pending, resend_at,
}

abbrev pub IsIn : List String → String → Type 0
IsIn ks k = any (λ j. j == k) ks ≡ true

-- Every set of settings has the id that it is stored under.
abbrev pub IsKeyed : String × ChargeStationSettings → Type 0
IsKeyed (id, set) = set.charge_station_id ≡ id

-- Every station has runtime details.
abbrev pub HasDetails : Dict ChargeStationRuntimeDetails → String → Type 0
HasDetails details id = (found : ChargeStationRuntimeDetails) × (lookup id details ≡ some found)

keys-insert :
    {V : Type 0} (k : String) (v : V) (m : Dict V) → IsIn (keys m) k → keys (insert k v m) ≡ keys m
unfolding insert
keys-insert k v [] h = absurd (cc)
keys-insert k v ((j, w) ∷ m) h = elim (Bool-cases (j == k)) [
  | inl e ↦ rw e (ap (λ i. i ∷ keys m) (sym ((eq_iff j k).0 e)))
  | inr e ↦ rw e (ap (λ l. j ∷ l) (keys-insert k v m (ground arith)))
]

pub own_members : (ks l : List String) → ((k : String) → IsIn l k → IsIn ks k) → All (IsIn ks) l
own_members ks [] h = tt
own_members ks (x ∷ l) h =
    (h x (ground (arith, eq_refl x)), own_members ks l (λ k i. h k (ground arith)))

at_id {ℓ} : (P : String → Type ℓ) (k : String) (ks : List String) → All P ks → IsIn ks k → P k
at_id P k [] h i = absurd (cc)
at_id P k (x ∷ ks) h i = elim (Bool-cases (x == k)) [
  | inl e ↦ subst P ((eq_iff x k).0 e) h.0
  | inr e ↦ at_id P k ks h.1 (ground arith)
]

module _ {ℓ} (P : String → Type ℓ) where
  All-insert_sorted : (x : String) (l : List String) → P x → All P l → All P (insert_sorted x l)
  unfolding insert_sorted
  All-insert_sorted x [] p h = (p, tt)
  All-insert_sorted x (y ∷ l) p h = elim (Bool-cases (str_le x y)) [
    | inl e ↦ rw e (p, h)
    | inr e ↦ rw e (h.0, All-insert_sorted x l p h.1)
  ]

  pub All-sort_strings : (l : List String) → All P l → All P (sort_strings l)
  unfolding sort_strings
  All-sort_strings [] h = tt
  All-sort_strings (x ∷ l) h = All-insert_sorted x (sort_strings l) h.0 (All-sort_strings l h.1)

  All-take : (n : ℕ) (l : List String) → All P l → All P (take n l)
  All-take zero l h = tt
  All-take (suc n) [] h = tt
  All-take (suc n) (x ∷ l) h = (h.0, All-take n l h.1)

  All-drop : (n : ℕ) (l : List String) → All P l → All P (drop n l)
  All-drop zero l h = h
  All-drop (suc n) [] h = tt
  All-drop (suc n) (x ∷ l) h = All-drop n l h.1

  pub All-page_keys :
      (search : BinarySearch) (n : ℕ) (previous : String) (l : List String)
      → All P l
      → All P (page_keys search n previous l)
  unfolding page_keys
  All-page_keys search n previous l h = All-take _ _ (All-drop _ l h)

in-found : {V : Type 0} (k : String) (m : Dict V) → IsIn (keys m) k → ¬ (lookup k m ≡ none)
unfolding lookup
in-found k [] h e = absurd (cc)
in-found k ((j, w) ∷ m) h e = elim (Bool-cases (j == k)) [
  | inl same ↦ absurd (cc (rw same at e))
  | inr differs ↦ in-found k m (ground arith) (rw differs at e)
]

-- The values at keys that are there, by their ids.
pub values_at-ids :
    (ks : List String) (m : Dict ChargeStationSettings)
    → All IsKeyed m
    → All (IsIn (keys m)) ks
    → map (λ set. set.charge_station_id) (values_at ks m) ≡ ks
unfolding values_at
values_at-ids [] m keyed h = refl
values_at-ids (k ∷ ks) m keyed h = elim (Option-cases (lookup k m)) [
  | inl e ↦ absurd (in-found k m h.0 e)
  | inr (set, e) ↦
      rw (e, values_at-ids ks m keyed h.1) (ap (λ i. i ∷ ks) (lookup-All IsKeyed k m keyed e))
]

pub last_station-ids :
    (id : String) (settings : List ChargeStationSettings)
    → last_station id settings ≡ last_or id (map (λ set. set.charge_station_id) settings)
last_station-ids id [] = refl
last_station-ids id (set ∷ settings) = last_station-ids set.charge_station_id settings

-- What no pass changes: the stations that have settings, and their details.
pub record Steady {F : Type 0} (ids : List String) (details : Dict ChargeStationRuntimeDetails)
    (s : Store F) : Type 0 where
  pub keyed : All IsKeyed s.charge_station_settings
  pub same_ids : keys s.charge_station_settings ≡ ids
  pub same_details : s.charge_station_runtime_details ≡ details

updated-id :
    (id : String) (news : ChargeStationSettings) (m : Dict ChargeStationSettings)
    → All IsKeyed m
    → (updated_settings id (lookup id m) news).charge_station_id ≡ id
unfolding updated_settings
updated-id id news m keyed = elim (Option-cases (lookup id m)) [
  | inl e ↦ rw e refl
  | inr (set, e) ↦ rw e (lookup-All IsKeyed id m keyed e)
]

module _ {F : Type 0} (ids : List String) (details : Dict ChargeStationRuntimeDetails) where
  update-Steady :
      (id : String) (news : ChargeStationSettings) (s : Store F)
      → IsIn ids id
      → Steady ids details s
      → Steady ids details (update_charge_station_settings id news s)
  unfolding update_charge_station_settings
  update-Steady id news s known h = record {
    keyed =
        insert-All IsKeyed id (updated_settings id (lookup id s.charge_station_settings) news)
          s.charge_station_settings h.keyed (updated-id id news s.charge_station_settings h.keyed);
    same_ids = keys-insert id _ s.charge_station_settings (rw h.same_ids known) ∙ h.same_ids;
    same_details = h.same_details;
  }

  module _ (search : BinarySearch) (names : Names) (now later retry_after : ℕ) where
    store_sent-Steady :
        {A : Type 0} (id name : String) (setting : ChargeStationSetting) (sent : List A)
        (s : Store F)
        → IsIn ids id
        → Steady ids details s
        → Steady ids details
            (store_sent (in_memory search) names now later retry_after id name setting sent s).1
    store_sent-Steady id name setting sent s known h = elim (Bool-cases (is_due now setting)) [
      | inl e ↦ rw e (update-Steady id (resend_at (later + retry_after) name setting) s known h)
      | inr e ↦ rw e h
    ]

    sync_v16-Steady :
        (id : String) (settings : Dict ChargeStationSetting) (s : Store F)
        → IsIn ids id
        → Steady ids details s
        → Steady ids details
            (sync_v16 (in_memory search) names now later retry_after id settings s).1
    unfolding sync_v16
    sync_v16-Steady id [] s known h = h
    sync_v16-Steady id ((name, setting) ∷ settings) s known h =
        sync_v16-Steady id settings _ known (store_sent-Steady id name setting _ s known h)

    variables_v201-Steady :
        (id : String) (settings : Dict ChargeStationSetting) (s : Store F)
        → IsIn ids id
        → Steady ids details s
        → Steady ids details
            (variables_v201 (in_memory search) names now later retry_after id settings s).1
    unfolding variables_v201
    variables_v201-Steady id [] s known h = h
    variables_v201-Steady id ((name, setting) ∷ settings) s known h =
        variables_v201-Steady id settings _ known (store_sent-Steady id name setting _ s known h)

    sync_version-Steady :
        (version id : String) (settings : Dict ChargeStationSetting) (s : Store F)
        → IsIn ids id
        → Steady ids details s
        → Steady ids details
            (sync_version (in_memory search) names now later retry_after version id settings s).1
    unfolding sync_v201
    sync_version-Steady version id settings s known h = elim (Bool-cases (version == "1.6")) [
      | inl e ↦ rw e (sync_v16-Steady id settings s known h)
      | inr e ↦ elim (Bool-cases (version == "2.0.1")) [
        | inl f ↦ rw (e, f) (variables_v201-Steady id settings s known h)
        | inr f ↦ rw (e, f) h
      ]
    ]

    -- A pass over stations that have details ends without a panic.
    pub sync_pending-Steady :
        (stations : List ChargeStationSettings) (s : Store F)
        → All (HasDetails details) ids
        → All (λ station. IsIn ids station.charge_station_id) stations
        → Steady ids details s
        → let run = sync_pending (in_memory search) names now later retry_after stations s in
          ((calls : _) × (run.0 ≡ completed calls)) × Steady ids details run.1
    unfolding sync_pending lookup_charge_station_runtime_details
    sync_pending-Steady [] s known within h = (([], refl), h)
    sync_pending-Steady (station ∷ stations) s known within h =
        let id = station.charge_station_id in
        let (found, e) = at_id (HasDetails details) id ids known within.0 in
        let here : lookup id s.charge_station_runtime_details ≡ some found = rw h.same_details e in
        let ((calls, ends), steady) =
          sync_pending-Steady stations _ known within.1
            (sync_version-Steady found.ocpp_version id station.settings s within.0 h) in
        rw (here, ends) ((_, refl), steady)
