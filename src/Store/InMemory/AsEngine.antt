-- ===== src/Store/InMemory/AsEngine.antt =====
-- manager/store/inmemory/store.go as an implementation of manager/store/engine.go: none of these
-- methods fails.
use maeve_csms_reservations.Prelude.{String}
use maeve_csms_reservations.Store.Sorting.{BinarySearch}
use maeve_csms_reservations.Store.Engine.{ok, Engine, ApiEngine, OcpiEngine, Action}
use maeve_csms_reservations.Store.InMemory.{Store}
use maeve_csms_reservations.Store.InMemory.Stations.{
  set_charge_station_auth, lookup_charge_station_auth, update_charge_station_settings,
  lookup_charge_station_settings, delete_charge_station_settings, list_charge_station_settings,
  update_charge_station_install_certificates, set_charge_station_runtime_details,
  lookup_charge_station_runtime_details, set_charge_station_trigger_message,
  delete_charge_station_trigger_message, list_charge_station_trigger_messages,
}
use maeve_csms_reservations.Store.InMemory.Transactions.{
  find_transaction, create_transaction, update_transaction, end_transaction,
}
use maeve_csms_reservations.Store.InMemory.Records.{
  CertificateHash, lookup_token, set_token, list_tokens, set_certificate, delete_certificate,
  lookup_certificate, set_registration_details, set_location, get_registration_details,
  delete_registration_details, set_party_details, list_party_details_for_role,
}

-- A method that reads, and one that writes.
abbrev pub reads : {S A : Type 0} → (S → A) → Action S A
reads f s = (ok (f s), s)

abbrev pub writes : {S : Type 0} → (S → S) → Action S (Unit {0})
writes f s = (ok tt, f s)

abbrev pub in_memory : {F : Type 0} → BinarySearch → Engine (Store F) F
in_memory search = record {
  lookup_token = λ uid. reads (lookup_token uid);
  find_transaction = λ cs id. reads (find_transaction cs id);
  create_transaction = λ cs id id_token token_type values seq_no offline.
      writes (create_transaction cs id id_token token_type values seq_no offline);
  update_transaction = λ cs id values. writes (update_transaction cs id values);
  end_transaction = λ cs id id_token token_type values seq_no.
      writes (end_transaction cs id id_token token_type values seq_no);
  set_charge_station_runtime_details =
      λ id details. writes (set_charge_station_runtime_details id details);
  lookup_charge_station_runtime_details = λ id. reads (lookup_charge_station_runtime_details id);
  update_charge_station_settings =
      λ id settings. writes (update_charge_station_settings id settings);
  lookup_charge_station_settings = λ id. reads (lookup_charge_station_settings id);
  delete_charge_station_settings = λ id. writes (delete_charge_station_settings id);
  list_charge_station_settings =
      λ page_size previous. reads (list_charge_station_settings search page_size previous);
  update_charge_station_install_certificates =
      λ id certificates. writes (update_charge_station_install_certificates id certificates);
  set_charge_station_trigger_message =
      λ id trigger. writes (set_charge_station_trigger_message id trigger);
  delete_charge_station_trigger_message = λ id. writes (delete_charge_station_trigger_message id);
  list_charge_station_trigger_messages =
      λ page_size previous. reads (list_charge_station_trigger_messages search page_size previous);
}

-- The further methods, with the current time and the hash of certificates.
abbrev pub in_memory_api : {F : Type 0} → String → CertificateHash → ApiEngine (Store F)
in_memory_api now hash = record {
  set_charge_station_auth = λ id auth. writes (set_charge_station_auth id auth);
  lookup_charge_station_auth = λ id. reads (lookup_charge_station_auth id);
  set_token = λ token. writes (set_token now token);
  list_tokens = λ offset limit. reads (list_tokens offset limit);
  set_certificate = λ pem. set_certificate hash pem;
  delete_certificate = λ b64_hash. writes (delete_certificate b64_hash);
  lookup_certificate = λ b64_hash. reads (lookup_certificate b64_hash);
  set_registration_details =
      λ token registration. writes (set_registration_details token registration);
  set_location = λ location. writes (set_location location);
}

abbrev pub in_memory_ocpi : {F : Type 0} → OcpiEngine (Store F)
in_memory_ocpi = record {
  get_registration_details = λ token. reads (get_registration_details token);
  set_registration_details =
      λ token registration. writes (set_registration_details token registration);
  delete_registration_details = λ token. writes (delete_registration_details token);
  set_party_details = λ party. writes (set_party_details party);
  list_party_details_for_role = λ role. reads (list_party_details_for_role role);
}
