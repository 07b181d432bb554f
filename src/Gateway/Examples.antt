-- ===== src/Gateway/Examples.antt =====
-- A concrete run for the theorems on gateway/pipe/pipe.go: the charge station sends a call, the
-- goroutine passes it on, and the CSMS's answer comes back.
use maeve_csms_reservations.Prelude.{
  none, false, ◌≡◌, ◌≢◌, refl, some, List, [], ◌∷◌, All, arith, String,
}
use maeve_csms_reservations.Gateway.Message.{GatewayMessage, MessageType, call}
use maeve_csms_reservations.Gateway.Ring.{remembered}
use maeve_csms_reservations.Gateway.Pipe.{
  Pipe, new_pipe, Opt, with_csms_call_queue_len, with_message_id_buffer_len,
  with_csms_call_response_buffer_len, on_default, Run, here, next, loop, charge_station_sends, turn,
  on_charge_station_rx, on_timeout, goes_on, panics, waiting, charge_station_call, csms_tx,
  apply_opts, ensure_defaults,
}
use maeve_csms_reservations.Gateway.Pipe.Invariant.{new_pipe-ne-panics}
use maeve_csms_reservations.Gateway.Pipe.Replay.{Unique, new_pipe-Unique}
use maeve_csms_reservations.Gateway.Pipe.Delivery.{Justified, sent-Justified}
use maeve_csms_reservations.Prelude.{true, ◌==◌, if◌then◌else◌}
use maeve_csms_reservations.Prelude.Result.{Result, ok}
use maeve_csms_reservations.Gateway.Message.{call_result, call_error, other}
use maeve_csms_reservations.Gateway.Frame.{
  Json, parsed, read, reading_panics, marshal_gateway_message_as_ocpp,
  unmarshal_ocpp_as_gateway_message, unmarshal_json,
}
use maeve_csms_reservations.Gateway.Frame.RoundTrip.{JsonLaws, is_known, on_wire, frame_round}

abbrev message : MessageType → String → GatewayMessage
message type payload = record {
  message_type = type;
  action = "Heartbeat";
  message_id = "1";
  request_payload = payload;
  response_payload = "";
  error_code = "";
  error_description = "";
  state = "";
}

abbrev heartbeat : GatewayMessage
heartbeat = message call "{}"

abbrev options : List Opt
options = with_message_id_buffer_len 2 ∷ with_csms_call_queue_len 3 ∷ []

abbrev fresh : Pipe
fresh = record {
  charge_station_rx = [];
  csms_rx = [];
  csms_rx_call_buf = [];
  halt = false;
  csms_message_queue_len = 5;
  csms_call_queue_len = 3;
  polled = false;
  status = waiting;
  processed_message_ids = record { is_nil = false; value = none; others = none ∷ [] };
  processed_csms_calls = record {
    is_nil = false;
    value = none;
    others = none ∷ none ∷ none ∷ none ∷ [];
  };
}

fresh-new_pipe : new_pipe options ≡ fresh
unfolding new_pipe
fresh-new_pipe = refl

abbrev asked : Pipe
asked = record fresh { charge_station_rx = heartbeat ∷ [] }

abbrev busy : Pipe
busy = record fresh {
  status = charge_station_call;
  processed_message_ids = record { is_nil = false; value = some "1"; others = none ∷ [] };
}

asked-busy : turn on_charge_station_rx asked ≡ goes_on busy (csms_tx heartbeat ∷ [])
unfolding turn
asked-busy = refl

asked-Run : Run (new_pipe options) [] asked
unfolding new_pipe
asked-Run = next here (charge_station_sends heartbeat (omega arith))

busy-Run : Run (new_pipe options) (csms_tx heartbeat ∷ []) busy
busy-Run = next asked-Run (loop on_charge_station_rx asked-busy)

new_pipe-ne-panics_example : turn on_timeout busy ≢ panics
unfolding apply_opts ensure_defaults
new_pipe-ne-panics_example =
    new_pipe-ne-panics options on_timeout (omega arith) (omega arith) busy-Run

-- Without cells for the calls of the CSMS, the first turn panics.
no_calls_test : turn on_default (new_pipe (with_csms_call_response_buffer_len 0 ∷ [])) ≡ panics
unfolding turn new_pipe
no_calls_test = refl

new_pipe-Unique_example : Unique (remembered busy.processed_message_ids)
new_pipe-Unique_example = new_pipe-Unique options busy-Run

sent-Justified_example : All (Justified asked) (csms_tx heartbeat ∷ [])
sent-Justified_example = sent-Justified options on_charge_station_rx asked-Run asked-busy

-- Frames as lists of their values, every value taken for compact.
abbrev type_value : MessageType → String
type_value call = "2"
type_value call_result = "3"
type_value call_error = "4"
type_value (other n) = "5"

abbrev type_of_value : String → Result MessageType
type_of_value text =
    if text == "2" then ok call else (if text == "3" then ok call_result else ok call_error)

abbrev json : Json (List String)
json = record {
  marshal_type = type_value;
  marshal_text = λ text. text;
  marshal_array = λ values. ok values;
  unmarshal_type = type_of_value;
  unmarshal_text = λ text. ok text;
  unmarshal_array = λ values. ok values;
}

type_value-round : (t : MessageType) → is_known t ≡ true → type_of_value (type_value t) ≡ ok t
type_value-round call h = refl
type_value-round call_result h = refl
type_value-round call_error h = refl
type_value-round (other n) h = ground arith

laws : JsonLaws json (λ value. true)
laws = record {
  array_round = λ l h. (l, refl, refl);
  type_round = type_value-round;
  text_round = λ text. refl;
  type_compact = λ t. refl;
  text_compact = λ text. refl;
  empty_compact = refl;
}

-- A frame with nothing behind its message id.
short-panics : read json true ("2" ∷ "1" ∷ []) ≡ reading_panics
unfolding read unmarshal_ocpp_as_gateway_message unmarshal_json
short-panics = refl

frame_round_example :
    (b : List String) × (marshal_gateway_message_as_ocpp json heartbeat ≡ ok b)
    × (unmarshal_ocpp_as_gateway_message json b ≡ parsed (on_wire call heartbeat))
frame_round_example = frame_round json (λ value. true) laws heartbeat refl refl
