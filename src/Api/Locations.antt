-- ===== src/Api/Locations.antt =====
-- manager/api/server.go: `RegisterLocation`, which stores a location and pushes it to the parties of
-- OCPI, a parameter. A dereference of a missing field panics, which the server's middleware answers
-- with status 500.
use maeve_csms_reservations.Prelude.{
  String, Bool, true, Option, none, some, List, [], ◌∷◌, ◌≡◌, refl, ap, All, map,
}
use maeve_csms_reservations.Prelude.Int.{ℤ}
use maeve_csms_reservations.Store
use maeve_csms_reservations.Store.{GeoLocation}
use maeve_csms_reservations.Store.Engine.{Result, ok, err, Action, ApiEngine}
use maeve_csms_reservations.Api.{replied, Handler, bound, answered}

pub record Connector : Type 0 where
  pub format : String
  pub id : String
  pub max_amperage : ℤ
  pub max_voltage : ℤ
  pub power_type : String
  pub standard : String

pub record Evse : Type 0 where
  pub connectors : List Connector
  pub evse_id : Option String
  pub uid : String

pub record Location : Type 0 where
  pub address : String
  pub city : String
  pub coordinates : GeoLocation
  pub country : String
  pub country_code : String
  pub evses : Option (List Evse)
  pub name : Option String
  pub parking_type : Option String
  pub party_id : String
  pub postal_code : Option String

-- `ocpi.Location`, without the fields that are never set; its connectors and EVSEs have the fields
-- of the store's.
pub record OcpiLocation : Type 0 where
  pub address : String
  pub city : String
  pub coordinates : GeoLocation
  pub country : String
  pub country_code : String
  pub evses : List Store.Evse
  pub id : String
  pub last_updated : String
  pub name : Option String
  pub parking_type : Option String
  pub party_id : String
  pub postal_code : Option String
  pub publish : Bool

abbrev pub stored_connector : String → Connector → Store.Connector
stored_connector now c = record {
  format = c.format;
  id = c.id;
  max_amperage = c.max_amperage;
  max_voltage = c.max_voltage;
  power_type = c.power_type;
  standard = c.standard;
  last_updated = now;
}

-- The EVSE is assigned in the loop over its connectors; without one it stays the zero value.
abbrev pub evse_from : String → Evse → List Connector → Store.Evse
evse_from now evse [] = record {
  connectors = [];
  evse_id = none;
  status = "";
  uid = "";
  last_updated = "";
}
evse_from now evse (c ∷ connectors) = record {
  connectors = stored_connector now c ∷ map (stored_connector now) connectors;
  evse_id = evse.evse_id;
  status = "UNKNOWN";
  uid = evse.uid;
  last_updated = now;
}

abbrev pub stored_evse : String → Evse → Store.Evse
stored_evse now evse = evse_from now evse evse.connectors

abbrev pub evses_of : Option (List Evse) → List Evse
evses_of none = []
evses_of (some evses) = evses

unfoldable pub stored_evses : String → Location → List Store.Evse
stored_evses now req = map (stored_evse now) (evses_of req.evses)

abbrev pub stored_with : String → Location → String → String → String → String → Store.Location
stored_with now req id name parking_type postal_code = record {
  address = req.address;
  city = req.city;
  coordinates = req.coordinates;
  country = req.country;
  evses = some (stored_evses now req);
  id = id;
  last_updated = "";
  name = name;
  parking_type = parking_type;
  postal_code = postal_code;
}

-- The location to store; `none` is the panic of a missing field.
abbrev pub stored_by :
    String
    → Location
    → String
    → Option String
    → Option String
    → Option String
    → Option Store.Location
stored_by now req id (some name) (some parking_type) (some postal_code) =
    some (stored_with now req id name parking_type postal_code)
stored_by now req id _ _ _ = none

abbrev pub stored_location : String → Location → String → Option Store.Location
stored_location now req id = stored_by now req id req.name req.parking_type req.postal_code

abbrev pub pushed_location : String → Location → String → OcpiLocation
pushed_location now req id = record {
  address = req.address;
  city = req.city;
  coordinates = req.coordinates;
  country = req.country;
  country_code = req.country_code;
  evses = stored_evses now req;
  id = id;
  last_updated = now;
  name = req.name;
  parking_type = req.parking_type;
  party_id = req.party_id;
  postal_code = req.postal_code;
  publish = true;
}

module _ {S : Type 0} (store : ApiEngine S) (now : String) where
  abbrev pub push_after :
      (OcpiLocation → Action S (Unit {0})) → OcpiLocation → Result (Unit {0}) → Handler S (Unit {0})
  push_after push_location location (err e) s = (replied 500, s)
  push_after push_location location (ok done) s =
      let (o, t) = push_location location s in answered o (λ pushed. replied 201) t

  abbrev pub store_and_push :
      (OcpiLocation → Action S (Unit {0}))
      → OcpiLocation
      → Option Store.Location
      → Handler S (Unit {0})
  store_and_push push_location location none s = (replied 500, s)
  store_and_push push_location location (some stored) s =
      let (o, t) = store.set_location stored s in push_after push_location location o t

  unfoldable pub register_location :
      Option (OcpiLocation → Action S (Unit {0})) → Result Location → String → Handler S (Unit {0})
  unfolding stored_evses
  register_location none request id s = (replied 404, s)
  register_location (some push_location) request id s =
      bound request
        (λ req.
          store_and_push push_location (pushed_location now req id) (stored_location now req id))
        s

-- If every EVSE of the request has a connector, the stored EVSEs have the ids of the request's.
stored_evses-uids :
    (now : String) (evses : List Evse)
    → All (λ e. (first : Connector) × (rest : List Connector) × (e.connectors ≡ first ∷ rest)) evses
    → map (λ e. e.uid) (map (stored_evse now) evses) ≡ map (λ e. e.uid) evses
stored_evses-uids now [] h = refl
stored_evses-uids now (e ∷ evses) ((first, rest, c), h) =
    rw (c) (ap (λ l. e.uid ∷ l) (stored_evses-uids now evses h))
