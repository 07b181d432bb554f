-- ===== src/Sync/Triggers/Retry.antt =====
-- manager/sync/triggers.go over the store of manager/store/inmemory/: what becomes of the triggers
-- that manager/api/server.go stores. Neither of the two gives a trigger its charge station id, and the
-- in-memory store does not add it.
use maeve_csms_reservations.Prelude.{
  ℕ, ◌≡◌, refl, ◌∙◌, String, none, List, [], ◌∷◌, All, Option-cases, inl, inr,
}
use maeve_csms_reservations.Prelude.Dict.{Dict, lookup, lookup-All, insert-All}
use maeve_csms_reservations.Store.{ChargeStationTriggerMessage}
use maeve_csms_reservations.Store.Sorting.{BinarySearch}
use maeve_csms_reservations.Store.Engine.{Result, ok, err, ApiEngine}
use maeve_csms_reservations.Store.InMemory.{Store}
use maeve_csms_reservations.Store.InMemory.AsEngine.{in_memory}
use maeve_csms_reservations.Store.InMemory.Listing.{values_at, list_page}
use maeve_csms_reservations.Store.InMemory.Stations.{
  lookup_charge_station_runtime_details, set_charge_station_trigger_message,
  list_charge_station_trigger_messages,
}
use maeve_csms_reservations.Api.Server.{trigger_charge_station}
use maeve_csms_reservations.Sync.Triggers.{sync_trigger, sync_page, sync_triggers, next_previous}

-- A trigger without the id of its charge station.
abbrev pub IsNameless : String × ChargeStationTriggerMessage → Type 0
IsNameless (cs_id, trigger) = trigger.charge_station_id ≡ ""

abbrev AllNameless : List ChargeStationTriggerMessage → Type 0
AllNameless = All (λ trigger. trigger.charge_station_id ≡ "")

values_at-Nameless :
    (ks : List String) (m : Dict ChargeStationTriggerMessage)
    → All IsNameless m
    → AllNameless (values_at ks m)
unfolding values_at
values_at-Nameless [] m h = tt
values_at-Nameless (k ∷ ks) m h = elim (Option-cases (lookup k m)) [
  | inl e ↦ rw e (values_at-Nameless ks m h)
  | inr (trigger, e) ↦ rw e (lookup-All IsNameless k m h e, values_at-Nameless ks m h)
]

next_previous-Nameless :
    (previous : String) (triggers : List ChargeStationTriggerMessage)
    → previous ≡ ""
    → AllNameless triggers
    → next_previous previous triggers ≡ ""
next_previous-Nameless previous [] e h = e
next_previous-Nameless previous (t ∷ triggers) e h =
    next_previous-Nameless t.charge_station_id triggers h.0 h.1

module _ {F : Type 0} (search : BinarySearch) (now later retry_after : ℕ) where
  sync_page-Nameless :
      (triggers : List ChargeStationTriggerMessage) (s : Store F)
      → AllNameless triggers
      → lookup_charge_station_runtime_details "" s ≡ none
      → sync_page (in_memory search) now later retry_after triggers s ≡ ([], s)
  unfolding sync_page sync_trigger
  sync_page-Nameless [] s h unknown = refl
  sync_page-Nameless (t ∷ triggers) s h unknown =
      rw (h.0, unknown) (sync_page-Nameless triggers s h.1 unknown)

  pass-Nameless :
      (previous : String) (s : Store F)
      → All IsNameless s.charge_station_trigger_message
      → lookup_charge_station_runtime_details "" s ≡ none
      → sync_triggers (in_memory search) now later retry_after previous s ≡ (("", []), s)
  unfolding sync_triggers list_charge_station_trigger_messages list_page
  pass-Nameless previous s h unknown =
      let page = values_at-Nameless _ s.charge_station_trigger_message h in
      rw (sync_page-Nameless _ s page unknown, next_previous-Nameless "" _ refl page) refl

-- The store after requests for triggers, each with the charge station of its path.
pub request_all :
    {F : Type 0}
    → BinarySearch
    → ApiEngine (Store F)
    → List (String × Result String)
    → Store F
    → Store F
unfolding trigger_charge_station
request_all search api [] s = s
request_all search api ((cs_id, request) ∷ requests) s =
    request_all search api requests
      (trigger_charge_station (in_memory search) api cs_id request s).1

module _ {F : Type 0} (search : BinarySearch) (api : ApiEngine (Store F)) where
  trigger-Nameless :
      (cs_id : String) (request : Result String) (s : Store F)
      → All IsNameless s.charge_station_trigger_message
      → let after = (trigger_charge_station (in_memory search) api cs_id request s).1 in
        All IsNameless after.charge_station_trigger_message
        × (lookup_charge_station_runtime_details "" after
            ≡ lookup_charge_station_runtime_details "" s)
  unfolding trigger_charge_station set_charge_station_trigger_message
      lookup_charge_station_runtime_details
  trigger-Nameless cs_id (err e) s h = (h, refl)
  trigger-Nameless cs_id (ok trigger) s h =
      (insert-All IsNameless cs_id _ s.charge_station_trigger_message h refl, refl)

  request_all-Nameless :
      (requests : List (String × Result String)) (s : Store F)
      → All IsNameless s.charge_station_trigger_message
      → All IsNameless (request_all search api requests s).charge_station_trigger_message
        × (lookup_charge_station_runtime_details "" (request_all search api requests s)
            ≡ lookup_charge_station_runtime_details "" s)
  unfolding request_all
  request_all-Nameless [] s h = (h, refl)
  request_all-Nameless ((cs_id, request) ∷ requests) s h =
      let (nameless, same) = trigger-Nameless cs_id request s h in
      let (all, later) =
        request_all-Nameless requests
          (trigger_charge_station (in_memory search) api cs_id request s).1 nameless in
      (all, later ∙ same)

  -- With the in-memory store, and if no stored trigger has the id of its charge station and the empty
  -- id has no runtime details, no request for a trigger through the API is ever sent: after any
  -- requests, a pass of the loop, at any time and behind any previous id, sends nothing, changes
  -- nothing, and starts the next one at the first page again.
  pub requests-unsent :
      (requests : List (String × Result String)) (now later retry_after : ℕ) (previous : String)
      (s : Store F)
      → All IsNameless s.charge_station_trigger_message
      → lookup_charge_station_runtime_details "" s ≡ none
      → let after = request_all search api requests s in
        sync_triggers (in_memory search) now later retry_after previous after ≡ (("", []), after)
  requests-unsent requests now later retry_after previous s h unknown =
      let (nameless, same) = request_all-Nameless requests s h in
      pass-Nameless search now later retry_after previous (request_all search api requests s)
        nameless (same ∙ unknown)
