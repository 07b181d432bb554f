-- ===== src/Gateway/Frame.antt =====
-- gateway/ocpp/ocppj.go and gateway/server/ws.go: the OCPP-J frames, which are JSON arrays, and the
-- gateway's messages. `B` are the bytes of a frame; the JSON library is a parameter.
pub mod RoundTrip
use maeve_csms_reservations.Prelude.{
  ℕ, String, Bool, true, false, Option, none, some, if◌then◌else◌, List, [], ◌∷◌,
}
use maeve_csms_reservations.Prelude.Result.{Result, ok, err, ◌>>=◌}
use maeve_csms_reservations.Gateway.Message.{
  MessageType, call, call_result, call_error, other, GatewayMessage,
}

-- `json.Marshal` and `json.Unmarshal`, of a message type, a text and an array of raw values.
pub record Json (B : Type 0) : Type 0 where
  pub marshal_type : MessageType → String
  pub marshal_text : String → String
  pub marshal_array : List String → Result B
  pub unmarshal_type : String → Result MessageType
  pub unmarshal_text : String → Result String
  pub unmarshal_array : B → Result (List String)

-- `ocpp.Message`
pub record OcppMessage : Type 0 where
  pub message_type_id : MessageType
  pub message_id : String
  pub data_values : List String

-- What reading a frame comes to.
pub data Parsed : Type 0 where
  parsed : GatewayMessage → Parsed
  invalid : String → Parsed
  panics : Parsed

abbrev pub empty_message : MessageType → String → GatewayMessage
empty_message type id = record {
  message_type = type;
  action = "";
  message_id = id;
  request_payload = "";
  response_payload = "";
  error_code = "";
  error_description = "";
  state = "";
}

module _ {B : Type 0} (json : Json B) where
  -- `Message.MarshalJSON`
  unfoldable pub marshal_json : OcppMessage → Result B
  marshal_json m =
      json.marshal_array
        (json.marshal_type m.message_type_id ∷ json.marshal_text m.message_id ∷ m.data_values)

  abbrev pub with_id : MessageType → List String → Result OcppMessage
  with_id type [] = ok (record { message_type_id = type; message_id = ""; data_values = [] })
  with_id type (message_id ∷ rest) = json.unmarshal_text message_id >>= λ id.
      ok (record { message_type_id = type; message_id = id; data_values = rest })

  abbrev pub of_values : List String → Result OcppMessage
  of_values [] = err "no message type"
  of_values (type_value ∷ rest) = json.unmarshal_type type_value >>= λ type. with_id type rest

  -- `Message.UnmarshalJSON`
  unfoldable pub unmarshal_json : B → Result OcppMessage
  unmarshal_json b = json.unmarshal_array b >>= of_values

  -- `switch msg.MessageType`
  abbrev pub data_for : MessageType → GatewayMessage → List String
  data_for call msg = json.marshal_text msg.action ∷ msg.request_payload ∷ []
  data_for call_result msg = msg.response_payload ∷ []
  data_for call_error msg =
      json.marshal_text msg.error_code ∷ json.marshal_text msg.error_description ∷ "{}" ∷ []
  data_for (other n) msg = []

  unfoldable pub marshal_gateway_message_as_ocpp : GatewayMessage → Result B
  unfolding marshal_json
  marshal_gateway_message_as_ocpp msg = marshal_json (record {
    message_type_id = msg.message_type;
    message_id = msg.message_id;
    data_values = data_for msg.message_type msg;
  })

  abbrev pub call_payload : String → String → List String → Parsed
  call_payload id action [] = panics
  call_payload id action (payload ∷ rest) =
      parsed (record (empty_message call id) { action = action; request_payload = payload })

  abbrev pub call_with : String → Result String → List String → Parsed
  call_with id (err e) rest = invalid e
  call_with id (ok action) rest = call_payload id action rest

  abbrev pub error_with : String → String → Result String → Parsed
  error_with id code (err e) = invalid e
  error_with id code (ok description) =
      parsed (record (empty_message call_error id) {
        error_code = code;
        error_description = description;
      })

  abbrev pub error_description_of : String → String → List String → Parsed
  error_description_of id code [] = panics
  error_description_of id code (description ∷ rest) =
      error_with id code (json.unmarshal_text description)

  abbrev pub error_code_of : String → Result String → List String → Parsed
  error_code_of id (err e) rest = invalid e
  error_code_of id (ok code) rest = error_description_of id code rest

  -- The values of the frame behind its id; an index that is out of range panics.
  abbrev pub of_data : MessageType → String → List String → Parsed
  of_data call id [] = panics
  of_data call id (action ∷ rest) = call_with id (json.unmarshal_text action) rest
  of_data call_result id [] = panics
  of_data call_result id (payload ∷ rest) =
      parsed (record (empty_message call_result id) { response_payload = payload })
  of_data call_error id [] = panics
  of_data call_error id (code ∷ rest) = error_code_of id (json.unmarshal_text code) rest
  of_data (other n) id values = parsed (empty_message (other n) id)

  abbrev pub of_ocpp : Result OcppMessage → Parsed
  of_ocpp (err e) = invalid e
  of_ocpp (ok m) = of_data m.message_type_id m.message_id m.data_values

  unfoldable pub unmarshal_ocpp_as_gateway_message : B → Parsed
  unfolding unmarshal_json
  unmarshal_ocpp_as_gateway_message b = of_ocpp (unmarshal_json b)

-- What the reading of a websocket message gives: a message, one that tells the charge station of
-- its error, or a panic.
pub data Received : Type 0 where
  received : GatewayMessage → Received
  client_error : GatewayMessage → Received
  reading_panics : Received

abbrev pub framework_error : String → Received
framework_error description = client_error (record (empty_message call_error "-1") {
  error_code = "RpcFrameworkError";
  error_description = description;
})

abbrev pub received_as : Parsed → Received
received_as (parsed msg) = received msg
received_as (invalid e) = framework_error e
received_as panics = reading_panics

-- `read`, of a message that has come; `is_text` is the type of the websocket message.
unfoldable pub read : {B : Type 0} → Json B → Bool → B → Received
unfolding unmarshal_ocpp_as_gateway_message
read json is_text b =
    if is_text
    then received_as (unmarshal_ocpp_as_gateway_message json b)
    else framework_error "websocket message type is not text"
