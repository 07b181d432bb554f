-- ===== src/Gateway/Frame/RoundTrip.antt =====
-- gateway/server/ws.go: a message that is written as a frame and read back.
use maeve_csms_reservations.Prelude.{◌≡◌, refl, String, Bool, true, false, List, ◌∷◌, All}
use maeve_csms_reservations.Prelude.Result.{ok}
use maeve_csms_reservations.Gateway.Message.{
  MessageType, call, call_result, call_error, other, GatewayMessage,
}
use maeve_csms_reservations.Gateway.Frame.{
  Json, parsed, empty_message, data_for, marshal_json, unmarshal_json, of_data,
  marshal_gateway_message_as_ocpp, unmarshal_ocpp_as_gateway_message,
}

-- The three types of OCPP.
abbrev pub is_known : MessageType → Bool
is_known (other n) = false
is_known _ = true

-- What the documentation of encoding/json says: an array of compact values is read back as it was
-- written, and what is marshalled is compact.
pub record JsonLaws {B : Type 0} (json : Json B) (compact : String → Bool) : Type 0 where
  pub array_round :
      (l : List String)
      → All (λ v. compact v ≡ true) l
      → (b : B) × (json.marshal_array l ≡ ok b) × (json.unmarshal_array b ≡ ok l)
  pub type_round :
      (t : MessageType) → is_known t ≡ true → json.unmarshal_type (json.marshal_type t) ≡ ok t
  pub text_round : (s : String) → json.unmarshal_text (json.marshal_text s) ≡ ok s
  pub type_compact : (t : MessageType) → compact (json.marshal_type t) ≡ true
  pub text_compact : (s : String) → compact (json.marshal_text s) ≡ true
  pub empty_compact : compact "{}" ≡ true

-- The part of a message that its frame holds.
abbrev pub on_wire : MessageType → GatewayMessage → GatewayMessage
on_wire call msg = record (empty_message call msg.message_id) {
  action = msg.action;
  request_payload = msg.request_payload;
}
on_wire call_result msg = record (empty_message call_result msg.message_id) {
  response_payload = msg.response_payload;
}
on_wire call_error msg = record (empty_message call_error msg.message_id) {
  error_code = msg.error_code;
  error_description = msg.error_description;
}
on_wire (other n) msg = empty_message (other n) msg.message_id

-- The payload that the frame of the message holds is compact.
abbrev pub IsCompact : (String → Bool) → MessageType → GatewayMessage → Type 0
IsCompact compact call msg = compact msg.request_payload ≡ true
IsCompact compact call_result msg = compact msg.response_payload ≡ true
IsCompact compact _ msg = Unit

module _ {B : Type 0} (json : Json B) (compact : String → Bool) (laws : JsonLaws json compact) where
  data_for-compact :
      (type : MessageType) (msg : GatewayMessage)
      → IsCompact compact type msg
      → All (λ v. compact v ≡ true) (data_for json type msg)
  data_for-compact call msg h = (laws.text_compact msg.action, (h, tt))
  data_for-compact call_result msg h = (h, tt)
  data_for-compact call_error msg h = (
    laws.text_compact msg.error_code,
    (laws.text_compact msg.error_description, (laws.empty_compact, tt)),
  )
  data_for-compact (other n) msg h = tt

  of_data-data_for :
      (type : MessageType) (msg : GatewayMessage)
      → of_data json type msg.message_id (data_for json type msg) ≡ parsed (on_wire type msg)
  of_data-data_for call msg = rw (laws.text_round msg.action) refl
  of_data-data_for call_result msg = refl
  of_data-data_for call_error msg =
      rw (laws.text_round msg.error_code, laws.text_round msg.error_description) refl
  of_data-data_for (other n) msg = refl

  -- A message of one of OCPP's three types whose payload is compact JSON can be written as a frame, and what is read back from
  -- the frame is the message with the fields of its type; a result loses its action.
  pub frame_round :
      (msg : GatewayMessage)
      → is_known msg.message_type ≡ true
      → IsCompact compact msg.message_type msg
      → (b : B) × (marshal_gateway_message_as_ocpp json msg ≡ ok b)
        × (unmarshal_ocpp_as_gateway_message json b ≡ parsed (on_wire msg.message_type msg))
  unfolding marshal_gateway_message_as_ocpp unmarshal_ocpp_as_gateway_message marshal_json
      unmarshal_json
  frame_round msg known h =
      let (b, written, read) =
        laws.array_round
          (json.marshal_type msg.message_type
            ∷ json.marshal_text msg.message_id
            ∷ data_for json msg.message_type msg)
          (
            laws.type_compact msg.message_type,
            (laws.text_compact msg.message_id, data_for-compact msg.message_type msg h),
          ) in
      (
        b,
        written,
        rw (read, laws.type_round msg.message_type known, laws.text_round msg.message_id)
            (of_data-data_for msg.message_type msg),
      )
