-- ===== src/Sync/Settings/Resend.antt =====
-- manager/sync/settings.go with manager/store/inmemory/store.go: what a pass sends to a station that
-- speaks OCPP 1.6, and what it leaves of its settings.
use maeve_csms_reservations.Prelude.{
  ℕ, ◌+◌, ◌≡◌, refl, ap, ◌∙◌, String, Option, none, some, List, [], ◌∷◌, ◌==◌, eq_iff, Bool-cases,
  inl, inr, if◌then◌else◌,
}
use maeve_csms_reservations.Prelude.Dict.{Dict, lookup, Distinct}
use maeve_csms_reservations.Store.{ChargeStationSetting}
use maeve_csms_reservations.Store.Sorting.{BinarySearch}
use maeve_csms_reservations.Store.InMemory.{Store}
use maeve_csms_reservations.Store.InMemory.AsEngine.{in_memory}
use maeve_csms_reservations.Store.InMemory.Stations.{
  lookup_charge_station_settings, update_charge_station_settings,
}
use maeve_csms_reservations.Store.InMemory.Stations.Settings.{
  settings_in, update_charge_station_settings_lem, lookup_absent,
}
use maeve_csms_reservations.Sync.Settings.{
  SettingsCall, change_configuration, Names, is_due, resend_at, sync_v16,
}

-- The calls for the settings that are due, in order.
abbrev pub due_calls : ℕ → String → Dict ChargeStationSetting → List SettingsCall
due_calls now cs_id [] = []
due_calls now cs_id ((name, setting) ∷ settings) =
    let rest = due_calls now cs_id settings in
    if is_due now setting then change_configuration cs_id name setting.value ∷ rest else rest

abbrev pub sent_setting : ℕ → ChargeStationSetting → ChargeStationSetting
sent_setting send_after setting = record setting { send_after = send_after }

-- What a pass leaves of a setting, from what it was when the pass came to it.
abbrev pub left_of :
    ℕ → ℕ → Option ChargeStationSetting → Option ChargeStationSetting → Option ChargeStationSetting
left_of now send_after none before = before
left_of now send_after (some setting) before =
    if is_due now setting then some (sent_setting send_after setting) else before

abbrev pub setting_of : {F : Type 0} → String → String → Store F → Option ChargeStationSetting
setting_of cs_id name s = lookup name (settings_in (lookup_charge_station_settings cs_id s))

module _ {F : Type 0} (binary_search : BinarySearch) (names : Names)
    (now later retry_after : ℕ) where
  abbrev run16 : String → Dict ChargeStationSetting → Store F → List SettingsCall × Store F
  run16 cs_id settings s =
      sync_v16 (in_memory binary_search) names now later retry_after cs_id settings s

  sync_v16-calls :
      (cs_id : String) (settings : Dict ChargeStationSetting) (s : Store F)
      → (run16 cs_id settings s).0 ≡ due_calls now cs_id settings
  unfolding sync_v16
  sync_v16-calls cs_id [] s = refl
  sync_v16-calls cs_id ((name, setting) ∷ settings) s = elim (Bool-cases (is_due now setting)) [
    | inl e ↦
        (let t =
            update_charge_station_settings cs_id (resend_at (later + retry_after) name setting) s in
          rw e (
            ap (λ l. change_configuration cs_id name setting.value ∷ l)
              (sync_v16-calls cs_id settings t)))
    | inr e ↦ rw e (sync_v16-calls cs_id settings s)
  ]

  resend_at-setting_of :
      (cs_id name key : String) (setting : ChargeStationSetting) (s : Store F)
      → setting_of cs_id key
          (update_charge_station_settings cs_id (resend_at (later + retry_after) name setting) s)
        ≡ (if name == key
            then some (sent_setting (later + retry_after) setting)
            else setting_of cs_id key s)
  unfolding lookup
  resend_at-setting_of cs_id name key setting s =
      let update = resend_at (later + retry_after) name setting in
      let (found, _) = update_charge_station_settings_lem cs_id cs_id key update s (refl, tt) in
      elim (Bool-cases (name == key)) [
        | inl e ↦ rw e (found ∙ rw e refl)
        | inr e ↦ rw e (found ∙ rw e refl)
      ]

  sync_v16-settings :
      (cs_id key : String) (settings : Dict ChargeStationSetting) (s : Store F)
      → Distinct settings
      → setting_of cs_id key (run16 cs_id settings s).1
        ≡ left_of now (later + retry_after) (lookup key settings) (setting_of cs_id key s)
  unfolding sync_v16 lookup
  sync_v16-settings cs_id key [] s distinct = refl
  sync_v16-settings cs_id key ((name, setting) ∷ settings) s (fresh, distinct) =
      let t =
        update_charge_station_settings cs_id (resend_at (later + retry_after) name setting) s in
      elim (Bool-cases (name == key)) [
        | inl same ↦
            (let absent : lookup key settings ≡ none =
                lookup_absent key settings (rw (← (eq_iff name key).0 same) fresh) in
              elim (Bool-cases (is_due now setting)) [
                | inl e ↦
                    rw (e, same, e)
                      (sync_v16-settings cs_id key settings t distinct
                        ∙ rw (absent, resend_at-setting_of cs_id name key setting s, same) refl)
                | inr e ↦
                    rw (e, same, e)
                      (sync_v16-settings cs_id key settings s distinct ∙ rw absent refl)
              ])
        | inr apart ↦ elim (Bool-cases (is_due now setting)) [
          | inl e ↦
              rw (e, apart)
                (sync_v16-settings cs_id key settings t distinct
                  ∙ rw (resend_at-setting_of cs_id name key setting s, apart) refl)
          | inr e ↦ rw (e, apart) (sync_v16-settings cs_id key settings s distinct)
        ]
      ]

  -- With the in-memory store and no name twice among the listed settings of a station that speaks
  -- OCPP 1.6, a pass sends exactly the pending settings whose time has come, in order; each of these
  -- is stored again with the later time, and every other setting of the station is as it was.
  pub sync_v16_lem :
      (cs_id key : String) (settings : Dict ChargeStationSetting) (s : Store F)
      → Distinct settings
      → let run = sync_v16 (in_memory binary_search) names now later retry_after cs_id settings s in
        (run.0 ≡ due_calls now cs_id settings)
        × (setting_of cs_id key run.1
            ≡ left_of now (later + retry_after) (lookup key settings) (setting_of cs_id key s))
  sync_v16_lem cs_id key settings s distinct =
      (sync_v16-calls cs_id settings s, sync_v16-settings cs_id key settings s distinct)
