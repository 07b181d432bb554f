-- ===== src/Store/InMemory/Stations.antt =====
-- manager/store/inmemory/store.go: what the store keeps of each charge station.
pub mod Settings
pub mod Certificates
use maeve_csms_reservations.Prelude.{
  ℕ, String, Bool, Option, none, some, List, [], ◌∷◌, ◌++◌, ◌==◌, if◌then◌else◌,
}
use maeve_csms_reservations.Prelude.Dict.{Dict, lookup, insert, remove}
use maeve_csms_reservations.Store.{
  ChargeStationAuth, ChargeStationSettings, ChargeStationInstallCertificate,
  ChargeStationInstallCertificates, ChargeStationRuntimeDetails, ChargeStationTriggerMessage,
}
use maeve_csms_reservations.Store.Sorting.{BinarySearch}
use maeve_csms_reservations.Store.InMemory.{Store}
use maeve_csms_reservations.Store.InMemory.Listing.{list_page}

-- `for k, v := range settings { set[k] = v }`, and `maps.Copy`
unfoldable pub copy_all {ℓ} : {V : Type ℓ} → Dict V → Dict V → Dict V
copy_all [] set = set
copy_all ((k, v) ∷ settings) set = copy_all settings (insert k v set)

-- The settings of a station after an update, from those that it has.
unfoldable pub updated_settings :
    String → Option ChargeStationSettings → ChargeStationSettings → ChargeStationSettings
unfolding copy_all
updated_settings id none settings = record {
  charge_station_id = id;
  settings = copy_all settings.settings [];
}
updated_settings id (some set) settings = record set {
  settings = copy_all settings.settings set.settings;
}

abbrev pub cons_replaced :
    ChargeStationInstallCertificate
    → Option (List ChargeStationInstallCertificate)
    → Option (List ChargeStationInstallCertificate)
cons_replaced c none = none
cons_replaced c (some certs) = some (c ∷ certs)

-- The inner loop: the first stored certificate with the id of `v` gets its data, status and type,
-- and keeps its time; `none` if there is none.
unfoldable pub replace_certificate :
    ChargeStationInstallCertificate
    → List ChargeStationInstallCertificate
    → Option (List ChargeStationInstallCertificate)
replace_certificate v [] = none
replace_certificate v (c ∷ certs) =
    if v.certificate_id == c.certificate_id
    then some (
        (record c {
          certificate_data = v.certificate_data;
          certificate_installation_status = v.certificate_installation_status;
          certificate_type = v.certificate_type;
        })
        ∷ certs)
    else cons_replaced c (replace_certificate v certs)

-- The outer loop: the stored certificates after it, and those that are new, in order. A new
-- certificate is compared with the stored ones only.
abbrev pub merge_into :
    ChargeStationInstallCertificate
    → Option (List ChargeStationInstallCertificate)
    → List ChargeStationInstallCertificate
    → List ChargeStationInstallCertificate
    → List ChargeStationInstallCertificate × List ChargeStationInstallCertificate
merge_into v none certs new_certs = (certs, new_certs ++ (v ∷ []))
merge_into v (some replaced) certs new_certs = (replaced, new_certs)

unfoldable pub merge_loop :
    List ChargeStationInstallCertificate
    → List ChargeStationInstallCertificate × List ChargeStationInstallCertificate
    → List ChargeStationInstallCertificate × List ChargeStationInstallCertificate
unfolding replace_certificate
merge_loop [] state = state
merge_loop (v ∷ updates) (certs, new_certs) =
    merge_loop updates (merge_into v (replace_certificate v certs) certs new_certs)

unfoldable pub merge_certificates :
    List ChargeStationInstallCertificate
    → List ChargeStationInstallCertificate
    → List ChargeStationInstallCertificate
unfolding merge_loop
merge_certificates updates certs =
    let (replaced, new_certs) = merge_loop updates (certs, []) in replaced ++ new_certs

unfoldable pub updated_certificates :
    String
    → Option ChargeStationInstallCertificates
    → ChargeStationInstallCertificates
    → ChargeStationInstallCertificates
unfolding merge_certificates
updated_certificates id none certificates = record {
  charge_station_id = id;
  certificates = certificates.certificates;
}
updated_certificates id (some certs) certificates = record certs {
  certificates = merge_certificates certificates.certificates certs.certificates;
}

module _ {F : Type 0} where
  unfoldable pub set_charge_station_auth : String → ChargeStationAuth → Store F → Store F
  set_charge_station_auth id auth s = record s {
    charge_station_auth = insert id auth s.charge_station_auth;
  }

  unfoldable pub lookup_charge_station_auth : String → Store F → Option ChargeStationAuth
  lookup_charge_station_auth id s = lookup id s.charge_station_auth

  unfoldable pub update_charge_station_settings : String → ChargeStationSettings → Store F → Store F
  unfolding updated_settings
  update_charge_station_settings id settings s = record s {
    charge_station_settings =
        insert id (updated_settings id (lookup id s.charge_station_settings) settings)
          s.charge_station_settings;
  }

  unfoldable pub delete_charge_station_settings : String → Store F → Store F
  delete_charge_station_settings id s = record s {
    charge_station_settings = remove id s.charge_station_settings;
  }

  unfoldable pub lookup_charge_station_settings : String → Store F → Option ChargeStationSettings
  lookup_charge_station_settings id s = lookup id s.charge_station_settings

  unfoldable pub list_charge_station_settings :
      BinarySearch → ℕ → String → Store F → List ChargeStationSettings
  unfolding list_page
  list_charge_station_settings search page_size previous s =
      list_page search page_size previous s.charge_station_settings

  unfoldable pub update_charge_station_install_certificates :
      String → ChargeStationInstallCertificates → Store F → Store F
  unfolding updated_certificates
  update_charge_station_install_certificates id certificates s = record s {
    charge_station_install_certificates =
        insert id
          (updated_certificates id (lookup id s.charge_station_install_certificates) certificates)
          s.charge_station_install_certificates;
  }

  unfoldable pub lookup_charge_station_install_certificates :
      String → Store F → Option ChargeStationInstallCertificates
  lookup_charge_station_install_certificates id s = lookup id s.charge_station_install_certificates

  unfoldable pub list_charge_station_install_certificates :
      BinarySearch → ℕ → String → Store F → List ChargeStationInstallCertificates
  unfolding list_page
  list_charge_station_install_certificates search page_size previous s =
      list_page search page_size previous s.charge_station_install_certificates

  unfoldable pub set_charge_station_runtime_details :
      String → ChargeStationRuntimeDetails → Store F → Store F
  set_charge_station_runtime_details id details s = record s {
    charge_station_runtime_details = insert id details s.charge_station_runtime_details;
  }

  unfoldable pub lookup_charge_station_runtime_details :
      String → Store F → Option ChargeStationRuntimeDetails
  lookup_charge_station_runtime_details id s = lookup id s.charge_station_runtime_details

  unfoldable pub set_charge_station_trigger_message :
      String → ChargeStationTriggerMessage → Store F → Store F
  set_charge_station_trigger_message id trigger s = record s {
    charge_station_trigger_message = insert id trigger s.charge_station_trigger_message;
  }

  unfoldable pub delete_charge_station_trigger_message : String → Store F → Store F
  delete_charge_station_trigger_message id s = record s {
    charge_station_trigger_message = remove id s.charge_station_trigger_message;
  }

  unfoldable pub lookup_charge_station_trigger_message :
      String → Store F → Option ChargeStationTriggerMessage
  lookup_charge_station_trigger_message id s = lookup id s.charge_station_trigger_message

  unfoldable pub list_charge_station_trigger_messages :
      BinarySearch → ℕ → String → Store F → List ChargeStationTriggerMessage
  unfolding list_page
  list_charge_station_trigger_messages search page_size previous s =
      list_page search page_size previous s.charge_station_trigger_message
