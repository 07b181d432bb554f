-- ===== src/Handlers/Ocpp201/TransactionEvent/Effect.antt =====
-- manager/handlers/ocpp201/transaction_event.go over the store of manager/store/inmemory/: what
-- the events of a transaction leave, and what the handler answers.
use maeve_csms_reservations.Prelude.{
  String, Bool, true, false, ◌≡◌, refl, Option, none, List, [], ◌∷◌, ◌++◌,
}
use maeve_csms_reservations.Store.Sorting.{BinarySearch}
use maeve_csms_reservations.Store.Engine.{ok}
use maeve_csms_reservations.Store.InMemory.{Store}
use maeve_csms_reservations.Store.InMemory.AsEngine.{in_memory}
use maeve_csms_reservations.Store.InMemory.Transactions.{find_transaction}
use maeve_csms_reservations.Store.InMemory.Transactions.History.{
  Event, create, update, close, apply_all,
}
use maeve_csms_reservations.Services.TokenAuth.{IdToken, TokenAuthService}
use maeve_csms_reservations.Services.Tariff.{TariffService}
use maeve_csms_reservations.Handlers.Ocpp201.TransactionEvent.{
  EventType, started, updated, ended, unknown, TransactionEventRequest, convert_meter_values,
  ok_value, id_token_text, id_token_type, authorized, store_event, total_cost, transaction_event,
}

-- Is it the last event of a transaction?
abbrev pub is_ended : EventType → Bool
is_ended ended = true
is_ended started = false
is_ended updated = false
is_ended (unknown text) = false

module _ {F : Type 0} where
  -- The calls of the store that an event stands for.
  abbrev pub events_for : TransactionEventRequest F → EventType → List (Event F)
  events_for req started =
      create (id_token_text req.id_token) (id_token_type req.id_token)
        (convert_meter_values req.meter_value) req.seq_no req.offline
      ∷ []
  events_for req updated = update (convert_meter_values req.meter_value) ∷ []
  events_for req ended =
      close (id_token_text req.id_token) (id_token_type req.id_token)
        (convert_meter_values req.meter_value) req.seq_no
      ∷ []
  events_for req (unknown text) = []

  abbrev pub all_events : List (TransactionEventRequest F) → List (Event F)
  all_events [] = []
  all_events (req ∷ reqs) = events_for req req.event_type ++ all_events reqs

  -- A request about the transaction that is not its last one.
  abbrev pub IsBefore : String → TransactionEventRequest F → Type 0
  IsBefore id req = (req.transaction_id ≡ id) × (is_ended req.event_type ≡ false)

  -- A token service that only reads the store.
  abbrev pub OnlyReads : TokenAuthService (Store F) → Type 0
  OnlyReads auth = (token : IdToken) (s : Store F) → (auth token s).1 ≡ s

  -- The state in which the event leaves the store before the tariff service is asked.
  abbrev pub after_event :
      BinarySearch
      → TokenAuthService (Store F)
      → String
      → TransactionEventRequest F
      → Store F
      → Store F
  after_event search auth cs req s =
      apply_all cs req.transaction_id (events_for req req.event_type)
        (authorized (in_memory search) auth req.id_token s).1

  -- What the handler does about the cost, given the stored transactions.
  abbrev pub cost_after :
      TariffService (Store F) F → EventType → String → String → Store F → Option F × Store F
  cost_after tariff started cs id s = (none, s)
  cost_after tariff updated cs id s = (none, s)
  cost_after tariff (unknown text) cs id s = (none, s)
  cost_after tariff ended cs id s =
      let (cost, after) = tariff (find_transaction cs id s) s in (ok_value cost, after)

  module _ (search : BinarySearch) (auth : TokenAuthService (Store F))
      (tariff : TariffService (Store F) F) where
    store_event_lem :
        (cs : String) (req : TransactionEventRequest F) (type : EventType) (s : Store F)
        → store_event (in_memory search) cs req type s
          ≡ (ok tt, apply_all cs req.transaction_id (events_for req type) s)
    unfolding store_event
    store_event_lem cs req started s = refl
    store_event_lem cs req updated s = refl
    store_event_lem cs req ended s = refl
    store_event_lem cs req (unknown text) s = refl

    total_cost_lem :
        (cs : String) (req : TransactionEventRequest F) (type : EventType) (s : Store F)
        → total_cost (in_memory search) tariff cs req type s ≡ (
          ok (cost_after tariff type cs req.transaction_id s).0,
          (cost_after tariff type cs req.transaction_id s).1,
        )
    unfolding total_cost
    total_cost_lem cs req started s = refl
    total_cost_lem cs req updated s = refl
    total_cost_lem cs req (unknown text) s = refl
    total_cost_lem cs req ended s = refl

    -- With the in-memory store, the handler never fails: it answers what the token service says
    -- of the token, if there is one; the store changes by the call that the event stands for; and
    -- the cost is there exactly if the event ends the transaction and the tariff service, asked
    -- about the transaction as it is then, gives one.
    pub transaction_event_lem :
        (cs : String) (req : TransactionEventRequest F) (s : Store F)
        → let cost =
            cost_after tariff req.event_type cs req.transaction_id
              (after_event search auth cs req s) in
          transaction_event (in_memory search) auth tariff cs req s ≡ (
            ok (record {
              id_token_info = (authorized (in_memory search) auth req.id_token s).0;
              total_cost = cost.0;
            }),
            cost.1,
          )
    unfolding transaction_event
    transaction_event_lem cs req s =
        let after = (authorized (in_memory search) auth req.id_token s).1 in
        rw
          (
            store_event_lem cs req req.event_type after,
            total_cost_lem cs req req.event_type (after_event search auth cs req s),
          )
          refl

    -- The store after a sequence of requests of one charge station.
    pub handle_all : String → List (TransactionEventRequest F) → Store F → Store F
    unfolding transaction_event
    handle_all cs [] s = s
    handle_all cs (req ∷ reqs) s =
        handle_all cs reqs (transaction_event (in_memory search) auth tariff cs req s).1
