-- ===== src/Store/InMemory/Stations/Settings.antt =====
-- manager/store/inmemory/store.go: what an update of a station's settings leaves of them.
use maeve_csms_reservations.Prelude.{
  String, false, ◌≡◌, ◌≢◌, refl, Option, none, some, [], ◌∷◌, ◌==◌, eq_iff, eq_refl, arith, any,
  eq-false, Bool-cases, inl, inr,
}
use maeve_csms_reservations.Prelude.Dict.{Dict, keys, lookup, insert, lookup-insert, Distinct}
use maeve_csms_reservations.Store.{ChargeStationSetting, ChargeStationSettings}
use maeve_csms_reservations.Store.InMemory.{Store}
use maeve_csms_reservations.Store.InMemory.Stations.{
  copy_all, updated_settings, update_charge_station_settings, lookup_charge_station_settings,
}

-- The new value if there is one, else the old one.
abbrev pub or_old {ℓ} : {V : Type ℓ} → Option V → Option V → Option V
or_old none old = old
or_old (some v) old = some v

module _ {ℓ} {V : Type ℓ} where
  pub lookup_absent :
      (k : String) (m : Dict V) → any (λ j. j == k) (keys m) ≡ false → lookup k m ≡ none
  unfolding lookup
  lookup_absent k [] h = refl
  lookup_absent k ((j, v) ∷ m) h = ground (arith, lookup_absent k m)

  lookup-copy_all :
      (k : String) (news set : Dict V)
      → Distinct news
      → lookup k (copy_all news set) ≡ or_old (lookup k news) (lookup k set)
  unfolding copy_all lookup
  lookup-copy_all k [] set distinct = refl
  lookup-copy_all k ((j, v) ∷ news) set (fresh, distinct) = elim (Bool-cases (j == k)) [
    | inl e ↦
        rw
          (
            lookup-copy_all k news (insert j v set) distinct,
            lookup-insert j k v set,
            e,
            lookup_absent k news (rw (← (eq_iff j k).0 e) fresh),
          )
          refl
    | inr e ↦ rw (lookup-copy_all k news (insert j v set) distinct, lookup-insert j k v set, e) refl
  ]

-- The settings of a station; none if it has no record.
abbrev pub settings_in : Option ChargeStationSettings → Dict ChargeStationSetting
settings_in none = []
settings_in (some set) = set.settings

settings_in-updated_settings :
    (id : String) (stored : Option ChargeStationSettings) (news : ChargeStationSettings)
    → (updated_settings id stored news).settings ≡ copy_all news.settings (settings_in stored)
unfolding updated_settings
settings_in-updated_settings id none news = refl
settings_in-updated_settings id (some set) news = refl

module _ {F : Type 0} where
  -- After an update of the settings of station `id` that names no setting twice, each setting of
  -- that station is the one that the update names, and what it was before if the update does not
  -- name it; no other station's settings change.
  pub update_charge_station_settings_lem :
      (id other key : String) (news : ChargeStationSettings) (s : Store F)
      → Distinct news.settings
      → (lookup key (
            settings_in
              (lookup_charge_station_settings id (update_charge_station_settings id news s)))
          ≡ or_old
              (lookup key news.settings)
              (lookup key (settings_in (lookup_charge_station_settings id s))))
        × (id ≢ other
            → lookup_charge_station_settings other (update_charge_station_settings id news s)
              ≡ lookup_charge_station_settings other s)
  unfolding update_charge_station_settings lookup_charge_station_settings
  update_charge_station_settings_lem id other key news s distinct =
      let stored = lookup id s.charge_station_settings in
      let new = updated_settings id stored news in
      (
        rw
            (
              lookup-insert id id new s.charge_station_settings,
              eq_refl id,
              settings_in-updated_settings id stored news,
            )
            (lookup-copy_all key news.settings (settings_in stored) distinct),
        λ apart. rw (lookup-insert id other new s.charge_station_settings, eq-false apart) refl,
      )
