-- ===== src/Store/InMemory/Transactions.antt =====
-- manager/store/inmemory/store.go: the transactions, under keys that join the station's id and the
-- transaction's.
pub mod History
use Prim.Native.String.{◌++◌ as append}
use maeve_csms_reservations.Prelude.{ℕ, suc, String, Bool, false, Option, none, some, List, ◌++◌}
use maeve_csms_reservations.Prelude.Int.{ℤ, pos}
use maeve_csms_reservations.Prelude.Dict.{lookup, insert, values}
use maeve_csms_reservations.Store.{MeterValue, Transaction}
use maeve_csms_reservations.Store.InMemory.{Store}

-- `fmt.Sprintf("%s:%s", chargeStationId, transactionId)`
unfoldable pub transaction_key : String → String → String
transaction_key charge_station_id transaction_id =
    append charge_station_id (append ":" transaction_id)

module _ {F : Type 0} where
  unfoldable pub get_transaction : String → String → Store F → Option (Transaction F)
  get_transaction cs id s = lookup (transaction_key cs id) s.transactions

  unfoldable pub update_transaction_entry : Transaction F → Store F → Store F
  update_transaction_entry t s = record s {
    transactions = insert (transaction_key t.charge_station_id t.transaction_id) t s.transactions;
  }

  -- A change through the pointer that `getTransaction` returned.
  unfoldable pub write_back : String → String → Transaction F → Store F → Store F
  write_back cs id t s = record s { transactions = insert (transaction_key cs id) t s.transactions }

  unfoldable pub transactions_of : Store F → List (Transaction F)
  transactions_of s = values s.transactions

  unfoldable pub find_transaction : String → String → Store F → Option (Transaction F)
  unfolding get_transaction
  find_transaction cs id s = get_transaction cs id s

  unfoldable pub created :
      String
      → String
      → String
      → String
      → List (MeterValue F)
      → ℤ
      → Bool
      → Option (Transaction F)
      → Store F
      → Store F
  unfolding update_transaction_entry write_back
  created cs id id_token token_type meter_values seq_no offline (some t) s =
      write_back cs id
        (record t {
          id_token = id_token;
          token_type = token_type;
          meter_values = t.meter_values ++ meter_values;
          start_seq_no = seq_no;
          offline = offline;
        })
        s
  created cs id id_token token_type meter_values seq_no offline none s =
      update_transaction_entry
        (record {
          charge_station_id = cs;
          transaction_id = id;
          id_token = id_token;
          token_type = token_type;
          meter_values = meter_values;
          start_seq_no = seq_no;
          ended_seq_no = pos 0;
          updated_seq_no_count = 0;
          offline = offline;
        })
        s

  unfoldable pub create_transaction :
      String → String → String → String → List (MeterValue F) → ℤ → Bool → Store F → Store F
  unfolding get_transaction created
  create_transaction cs id id_token token_type meter_values seq_no offline s =
      created cs id id_token token_type meter_values seq_no offline (get_transaction cs id s) s

  unfoldable pub updated :
      String → String → List (MeterValue F) → Option (Transaction F) → Store F → Store F
  unfolding update_transaction_entry write_back
  updated cs id meter_values none s =
      update_transaction_entry
        (record {
          charge_station_id = cs;
          transaction_id = id;
          id_token = "";
          token_type = "";
          meter_values = meter_values;
          start_seq_no = pos 0;
          ended_seq_no = pos 0;
          updated_seq_no_count = 1;
          offline = false;
        })
        s
  updated cs id meter_values (some t) s =
      write_back cs id
        (record t {
          meter_values = t.meter_values ++ meter_values;
          updated_seq_no_count = suc t.updated_seq_no_count;
        })
        s

  unfoldable pub update_transaction : String → String → List (MeterValue F) → Store F → Store F
  unfolding get_transaction updated
  update_transaction cs id meter_values s = updated cs id meter_values (get_transaction cs id s) s

  unfoldable pub ended :
      String
      → String
      → String
      → String
      → List (MeterValue F)
      → ℤ
      → Option (Transaction F)
      → Store F
      → Store F
  unfolding update_transaction_entry write_back
  ended cs id id_token token_type meter_values seq_no none s =
      update_transaction_entry
        (record {
          charge_station_id = cs;
          transaction_id = id;
          id_token = id_token;
          token_type = token_type;
          meter_values = meter_values;
          start_seq_no = pos 0;
          ended_seq_no = seq_no;
          updated_seq_no_count = 0;
          offline = false;
        })
        s
  ended cs id id_token token_type meter_values seq_no (some t) s =
      write_back cs id
        (record t { meter_values = t.meter_values ++ meter_values; ended_seq_no = seq_no }) s

  unfoldable pub end_transaction :
      String → String → String → String → List (MeterValue F) → ℤ → Store F → Store F
  unfolding get_transaction ended
  end_transaction cs id id_token token_type meter_values seq_no s =
      ended cs id id_token token_type meter_values seq_no (get_transaction cs id s) s
