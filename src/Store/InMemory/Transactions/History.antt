-- ===== src/Store/InMemory/Transactions/History.antt =====
-- manager/store/inmemory/store.go: what is stored of a transaction after any sequence of the calls
-- that create, update and end it.
use mathlib.Core.List.{append_assoc, append-nil}
use text.Mathlib.TextLemmas.{append_cancel_left}
use maeve_csms_reservations.Prelude.{
  ℕ, ◌+◌, String, Bool, ◌≡◌, ◌≢◌, refl, sym, ◌∙◌, ap, Option, none, some, List, [], ◌∷◌, ◌++◌,
  eq_refl, eq-false, arith,
}
use maeve_csms_reservations.Prelude.Int.{ℤ}
use maeve_csms_reservations.Prelude.Dict.{lookup-insert}
use maeve_csms_reservations.Store.{MeterValue, Transaction}
use maeve_csms_reservations.Store.InMemory.{Store}
use maeve_csms_reservations.Store.InMemory.Transactions.{
  transaction_key, get_transaction, update_transaction_entry, write_back, find_transaction, created,
  create_transaction, updated, update_transaction, ended, end_transaction,
}

-- A call that changes a transaction.
pub data Event (F : Type 0) : Type 0 where
  create : String → String → List (MeterValue F) → ℤ → Bool → Event F
  update : List (MeterValue F) → Event F
  close : String → String → List (MeterValue F) → ℤ → Event F

-- Two transactions of one station have two keys.
key_ne : (cs id other : String) → id ≢ other → transaction_key cs id ≢ transaction_key cs other
unfolding transaction_key
key_ne cs id other apart e = apart (append_cancel_left ":" id other (append_cancel_left cs _ _ e))

module _ {F : Type 0} where
  abbrev pub apply : String → String → Event F → Store F → Store F
  apply cs id (create id_token token_type values seq_no offline) s =
      create_transaction cs id id_token token_type values seq_no offline s
  apply cs id (update values) s = update_transaction cs id values s
  apply cs id (close id_token token_type values seq_no) s =
      end_transaction cs id id_token token_type values seq_no s

  abbrev pub apply_all : String → String → List (Event F) → Store F → Store F
  apply_all cs id [] s = s
  apply_all cs id (e ∷ es) s = apply_all cs id es (apply cs id e s)

  abbrev pub values_of : Event F → List (MeterValue F)
  values_of (create id_token token_type values seq_no offline) = values
  values_of (update values) = values
  values_of (close id_token token_type values seq_no) = values

  abbrev pub all_values : List (Event F) → List (MeterValue F)
  all_values [] = []
  all_values (e ∷ es) = values_of e ++ all_values es

  abbrev pub is_update : Event F → ℕ
  is_update (create id_token token_type values seq_no offline) = 0
  is_update (update values) = 1
  is_update (close id_token token_type values seq_no) = 0

  abbrev pub updates_in : List (Event F) → ℕ
  updates_in [] = 0
  updates_in (e ∷ es) = is_update e + updates_in es

  -- The meter values and the number of updates of a transaction, none and 0 if it is not stored.
  abbrev pub recorded : Option (Transaction F) → List (MeterValue F)
  recorded none = []
  recorded (some t) = t.meter_values

  abbrev pub counted : Option (Transaction F) → ℕ
  counted none = 0
  counted (some t) = t.updated_seq_no_count

  -- What a change of the transaction leaves: its meter values, those of the call behind the ones
  -- before, and its number of updates; and every other transaction of the station as it was.
  abbrev Recorded : String → String → Event F → Option (Transaction F) → Store F → Store F → Type 0
  Recorded cs id e before s after =
      (recorded (find_transaction cs id after) ≡ recorded before ++ values_of e)
      × (counted (find_transaction cs id after) ≡ counted before + is_update e)
      × ((other : String)
          → id ≢ other
          → find_transaction cs other after ≡ find_transaction cs other s)

  write_back-Recorded :
      (cs id : String) (e : Event F) (before : Option (Transaction F)) (t : Transaction F)
      (s : Store F)
      → t.meter_values ≡ recorded before ++ values_of e
      → t.updated_seq_no_count ≡ counted before + is_update e
      → Recorded cs id e before s (write_back cs id t s)
  unfolding write_back find_transaction get_transaction
  write_back-Recorded cs id e before t s v c =
      let key = transaction_key cs id in
      let m = s.transactions in
      (
        rw (lookup-insert key key t m, eq_refl key) v,
        rw (lookup-insert key key t m, eq_refl key) c,
        λ other apart.
            rw
              (
                lookup-insert key (transaction_key cs other) t m,
                eq-false (key_ne cs id other apart),
              )
              refl,
      )

  -- A new entry is what writing it back would leave.
  update_transaction_entry_lem :
      (t : Transaction F) (s : Store F)
      → update_transaction_entry t s ≡ write_back t.charge_station_id t.transaction_id t s
  unfolding update_transaction_entry write_back
  update_transaction_entry_lem t s = refl

  created-Recorded :
      (cs id id_token token_type : String) (values : List (MeterValue F)) (seq_no : ℤ)
      (offline : Bool) (before : Option (Transaction F)) (s : Store F)
      → Recorded cs id
          (create id_token token_type values seq_no offline)
          before
          s
          (created cs id id_token token_type values seq_no offline before s)
  unfolding created update_transaction_entry_lem
  created-Recorded cs id id_token token_type values seq_no offline none s =
      rw (update_transaction_entry_lem _ s) (
        write_back-Recorded cs id (create id_token token_type values seq_no offline) none _ s refl
          refl)
  created-Recorded cs id id_token token_type values seq_no offline (some t) s =
      write_back-Recorded cs id (create id_token token_type values seq_no offline) (some t) _ s refl
        (omega arith)

  updated-Recorded :
      (cs id : String) (values : List (MeterValue F)) (before : Option (Transaction F))
      (s : Store F)
      → Recorded cs id (update values) before s (updated cs id values before s)
  unfolding updated
  updated-Recorded cs id values none s =
      rw (update_transaction_entry_lem _ s)
        (write_back-Recorded cs id (update values) none _ s refl refl)
  updated-Recorded cs id values (some t) s =
      write_back-Recorded cs id (update values) (some t) _ s refl (omega arith)

  ended-Recorded :
      (cs id id_token token_type : String) (values : List (MeterValue F)) (seq_no : ℤ)
      (before : Option (Transaction F)) (s : Store F)
      → Recorded cs id
          (close id_token token_type values seq_no)
          before
          s
          (ended cs id id_token token_type values seq_no before s)
  unfolding ended
  ended-Recorded cs id id_token token_type values seq_no none s =
      rw (update_transaction_entry_lem _ s)
        (write_back-Recorded cs id (close id_token token_type values seq_no) none _ s refl refl)
  ended-Recorded cs id id_token token_type values seq_no (some t) s =
      write_back-Recorded cs id (close id_token token_type values seq_no) (some t) _ s refl
        (omega arith)

  apply-Recorded :
      (cs id : String) (e : Event F) (s : Store F)
      → Recorded cs id e (find_transaction cs id s) s (apply cs id e s)
  unfolding create_transaction update_transaction end_transaction find_transaction
  apply-Recorded cs id (create id_token token_type values seq_no offline) s =
      created-Recorded cs id id_token token_type values seq_no offline (get_transaction cs id s) s
  apply-Recorded cs id (update values) s = updated-Recorded cs id values (get_transaction cs id s) s
  apply-Recorded cs id (close id_token token_type values seq_no) s =
      ended-Recorded cs id id_token token_type values seq_no (get_transaction cs id s) s

  -- However the calls that create, update and end a transaction follow one another, the stored
  -- transaction has the meter values of all of them in the order of the calls, behind those that
  -- it had before, its count of updates is larger by the number of updates, and every other
  -- transaction of the station is as it was.
  pub apply_all-recorded :
      (cs id : String) (es : List (Event F)) (s : Store F)
      → (recorded (find_transaction cs id (apply_all cs id es s))
          ≡ recorded (find_transaction cs id s) ++ all_values es)
        × (counted (find_transaction cs id (apply_all cs id es s))
            ≡ counted (find_transaction cs id s) + updates_in es)
        × ((other : String)
            → id ≢ other
            → find_transaction cs other (apply_all cs id es s) ≡ find_transaction cs other s)
  apply_all-recorded cs id [] s = (sym (append-nil _), omega arith, λ other apart. refl)
  apply_all-recorded cs id (e ∷ es) s =
      let (values, count, others) = apply-Recorded cs id e s in
      let (values', count', others') = apply_all-recorded cs id es (apply cs id e s) in
      (
        values'
            ∙ ap (λ l. l ++ all_values es) values
            ∙ append_assoc _ (values_of e) (all_values es),
        omega (arith, count, count'),
        λ other apart. others' other apart ∙ others other apart,
      )
