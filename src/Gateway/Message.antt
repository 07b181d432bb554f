-- ===== src/Gateway/Message.antt =====
-- gateway/pipe/message.go and the message types of gateway/ocpp/ocppj.go. The context of a message
-- carries tracing data only and is left out. A raw JSON value is the text of it.
use maeve_csms_reservations.Prelude.{String, Bool, true, false}
use maeve_csms_reservations.Prelude.Int.{ℤ}

-- `ocpp.MessageType`: 2, 3, 4, or any other integer that the JSON held.
pub data MessageType : Type 0 where
  call : MessageType
  call_result : MessageType
  call_error : MessageType
  other : ℤ → MessageType

abbrev pub is_call : MessageType → Bool
is_call call = true
is_call _ = false

pub record GatewayMessage : Type 0 where
  pub message_type : MessageType
  pub action : String
  pub message_id : String
  pub request_payload : String
  pub response_payload : String
  pub error_code : String
  pub error_description : String
  pub state : String
