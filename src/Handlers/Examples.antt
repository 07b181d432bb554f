-- ===== src/Handlers/Examples.antt =====
-- Concrete requests for the theorems on manager/handlers/ and manager/services/.
use maeve_csms_reservations.Prelude.{
  ℕ, ◌≡◌, refl, String, true, false, ◌&&◌, ◌||◌, not, Option, none, some, List, [], ◌∷◌, ◌++◌,
  arith, ◌==◌,
}
use maeve_csms_reservations.Prelude.Dict.{lookup, insert}
use maeve_csms_reservations.Prelude.Int.{ℤ, pos, negsuc, ◌-ℤ◌}
use maeve_csms_reservations.Store.{Token, SampledValue, MeterValue}
use maeve_csms_reservations.Store.Examples.{search}
use maeve_csms_reservations.Store.Engine.{ok, err}
use maeve_csms_reservations.Store.InMemory.{Store, new_store}
use maeve_csms_reservations.Store.InMemory.AsEngine.{in_memory, reads}
use maeve_csms_reservations.Store.InMemory.Records.{lookup_token, set_token}
use maeve_csms_reservations.Store.InMemory.Transactions.{
  find_transaction, create_transaction, transaction_key,
}
use maeve_csms_reservations.Store.InMemory.Transactions.History.{recorded}
use maeve_csms_reservations.Services.TokenAuth.{IdToken, IdTokenInfo, TokenAuthService}
use maeve_csms_reservations.Services.TokenAuth
use maeve_csms_reservations.Services.TokenAuth.Verdict.{is_valid, authorize-accepted}
use maeve_csms_reservations.Services.Tariff.{TariffService}
use maeve_csms_reservations.Handlers.{Float}
use maeve_csms_reservations.Handlers.Ocpp16.Uuid.{UuidText, convert_to_uuid, uuid_bytes_injective}
use maeve_csms_reservations.Handlers.Ocpp16.Transactions.{
  StartTransaction, StopTransaction, transaction_id_for, begin_value, convert_meter_values,
  start_transaction, stop_transaction,
}
use maeve_csms_reservations.Handlers.Ocpp16.Transactions.Energy.{start_then_stop}
use maeve_csms_reservations.Handlers.Ocpp16.Transactions.Stored.{
  stop_transaction-energy, end_reading,
}
use maeve_csms_reservations.Handlers.Ocpp16.Transactions.Unknown.{
  start_transaction-shared, start_reading,
}
use maeve_csms_reservations.Handlers.Ocpp201.TransactionEvent.{
  EventType, started, updated, TransactionEventRequest,
}
use maeve_csms_reservations.Handlers.Ocpp201.Authorize
use maeve_csms_reservations.Handlers.Ocpp201.Authorize.{
  AuthorizeRequest, CertificateValidationService, no_error, other_error,
}
use maeve_csms_reservations.Handlers.Ocpp201.Authorize.Accepted.{
  is_no_error, last_verdict, authorize-accepted_iff,
}

-- Integers in place of float64; no text is a number.
abbrev float : Float ℤ
float = record { of_int = λ i. i; to_int = λ x. x; parse_float = λ text. err "not a number" }

abbrev uuid_text : UuidText
uuid_text bytes = "uuid"

abbrev token : Token
token = record {
  country_code = "GB";
  party_id = "TWK";
  type = "RFID";
  uid = "T1";
  contract_id = "GBTWK012345678V";
  visual_number = none;
  issuer = "TWK";
  group_id = none;
  valid = true;
  language_code = none;
  cache_mode = "NEVER";
  last_updated = "";
}

-- A store that knows the token T1.
abbrev known : Store ℤ
known = set_token "07:00" token (new_store ℤ)

abbrev start : StartTransaction
start = record { id_tag = "T1"; meter_start = pos 100 }

abbrev stop : StopTransaction
stop = record {
  id_tag = some "T1";
  meter_stop = pos 250;
  transaction_data = [];
  transaction_id = pos 42;
}

abbrev m : ℕ
m = 42

uuid_bytes_injective_example : m ≡ 42
uuid_bytes_injective_example = uuid_bytes_injective m 42 (omega arith) (omega arith) refl

tag_known : pos 42 ≡ transaction_id_for (lookup_token "T1" known) 42
unfolding lookup_token set_token lookup insert
tag_known = refl

untouched : find_transaction "cs1" (convert_to_uuid uuid_text (pos 42)) known ≡ none
unfolding find_transaction set_token lookup
untouched = refl

converts : convert_meter_values float stop.transaction_data ≡ ok []
unfolding convert_meter_values
converts = refl

start_then_stop_example :
    recorded (
      find_transaction "cs1"
        (convert_to_uuid uuid_text (pos 42))
        (stop_transaction
          (in_memory search)
          float
          uuid_text
          "cs1"
          "10:00"
          stop
          (start_transaction (in_memory search) float uuid_text "cs1" "08:00" 42 start known).1).1)
    ≡ begin_value float "08:00" (pos 100) ∷ []
start_then_stop_example =
    start_then_stop float uuid_text search "cs1" "08:00" "10:00" 42 start stop [] known tag_known
      untouched converts

-- A transaction with a value of the meter at its beginning, at the outlet.
abbrev at_outlet : SampledValue ℤ
at_outlet = record {
  context = some "Transaction.Begin";
  location = some "Outlet";
  measurand = some "MeterValue";
  phase = none;
  unit_of_measure = none;
  value = pos 100;
}

abbrev begin_reading : MeterValue ℤ
begin_reading = record { sampled_values = at_outlet ∷ []; timestamp = "08:00" }

abbrev metered : Store ℤ
metered =
    create_transaction "cs1" (convert_to_uuid uuid_text (pos 42)) "T1" "ISO14443"
      (begin_reading ∷ []) (pos 0) false known

metered_values :
    recorded (find_transaction "cs1" (convert_to_uuid uuid_text (pos 42)) metered)
    ≡ [] ++ (begin_reading ∷ [])
unfolding find_transaction create_transaction set_token lookup insert transaction_key
    convert_to_uuid
metered_values = refl

stop_transaction-energy_example :
    recorded (
      find_transaction "cs1"
        (convert_to_uuid uuid_text (pos 42))
        (stop_transaction (in_memory search) float uuid_text "cs1" "10:00" stop metered).1)
    ≡ ([] ++ (begin_reading ∷ [])) ++ ([] ++ (end_reading float "10:00" (pos 250 -ℤ pos 100) ∷ []))
stop_transaction-energy_example =
    stop_transaction-energy float uuid_text search "cs1" "10:00" stop [] metered [] [] begin_reading
      at_outlet [] [] converts tt metered_values refl tt tt (refl, refl, refl)

abbrev unknown_start : ℤ → StartTransaction
unknown_start meter = record { id_tag = "T9"; meter_start = meter }

tag_unknown : lookup_token "T9" known ≡ none
unfolding lookup_token set_token lookup insert
tag_unknown = refl

start_transaction-shared_example :
    let run1 =
      start_transaction
        (in_memory search)
        float
        uuid_text
        "cs1"
        "08:00"
        42
        (unknown_start (pos 5))
        known in
    let run2 =
      start_transaction
        (in_memory search)
        float
        uuid_text
        "cs1"
        "09:00"
        43
        (unknown_start (pos 7))
        run1.1 in
    (run1.0 ≡ ok (record { status = "Invalid"; transaction_id = negsuc 0 }))
    × (run2.0 ≡ ok (record { status = "Invalid"; transaction_id = negsuc 0 }))
    × (recorded (find_transaction "cs1" (convert_to_uuid uuid_text (negsuc 0)) run2.1)
        ≡ recorded (find_transaction "cs1" (convert_to_uuid uuid_text (negsuc 0)) known)
          ++ (start_reading float "08:00" (pos 5) ∷ start_reading float "09:00" (pos 7) ∷ []))
start_transaction-shared_example =
    start_transaction-shared float uuid_text search "cs1" "08:00" "09:00" 42 43
      (unknown_start (pos 5)) (unknown_start (pos 7)) known tag_unknown tag_unknown

-- The token service of manager/services/token_auth.go over that store.
abbrev auth : TokenAuthService (Store ℤ)
auth = TokenAuth.authorize (in_memory search) "08:00"

abbrev rfid : IdToken
rfid = record { id_token = "T1"; type = "ISO14443" }

-- A tariff service that always answers.
abbrev tariff : TariffService (Store ℤ) ℤ
tariff transaction s = (ok (pos 3), s)

abbrev event : EventType → Option IdToken → String → TransactionEventRequest ℤ
event type id_token time = record {
  event_type = type;
  id_token = id_token;
  meter_value = record { sampled_value = []; timestamp = time } ∷ [];
  offline = false;
  seq_no = pos 0;
  transaction_id = "tx1";
}

abbrev first_events : List (TransactionEventRequest ℤ)
first_events = event started (some rfid) "08:00" ∷ event updated none "09:00" ∷ []

authorize-accepted_example :
    ((TokenAuth.authorize (in_memory search) "08:00" rfid known).0.status == "Accepted") ≡ (
      rfid.type == "NoAuthorization"
      || (rfid.type == "Central"
          || (not (rfid.type == "Local") && is_valid (reads (lookup_token "T1") known).0)))
authorize-accepted_example = authorize-accepted (in_memory search) "08:00" rfid known

-- A certificate service that refuses every chain and takes every list of hashes.
abbrev certificates : CertificateValidationService (Store ℤ) String
certificates = record {
  validate_pem_certificate_chain = λ pem token s. (other_error, s);
  validate_hashed_certificate_chain = λ hashes s. (no_error, s);
}

abbrev request : AuthorizeRequest String
request = record {
  certificate = some "pem";
  id_token = rfid;
  iso15118_certificate_hash_data = some "hashes";
}

authorize-accepted_iff_example :
    ((Authorize.authorize certificates auth request known).0.id_token_info.status == "Accepted") ≡ (
      ((auth rfid known).0.status == "Accepted")
      && is_no_error
          (last_verdict certificates (some "pem") (some "hashes") "T1" (auth rfid known).1))
authorize-accepted_iff_example = authorize-accepted_iff certificates auth request known
