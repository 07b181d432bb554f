-- ===== src/Transport.antt =====
-- manager/transport: the messages between the manager and the gateway, and Go errors with an OCPP
-- error code among them. A raw JSON value is the text of it.
use Prim.Native.String.{◌++◌}
use maeve_csms_reservations.Prelude.{ℕ, String, Option, none, some}

-- `MessageType`: 2, 3, 4, or any other integer that the JSON held.
pub data MessageType : Type 0 where
  call : MessageType
  call_result : MessageType
  call_error : MessageType
  other : ℕ → MessageType

pub data ErrorCode : Type 0 where
  format_violation generic_error internal_error message_type_not_supported not_implemented :
      ErrorCode
  not_supported occurrence_constraint_violation property_constraint_violation : ErrorCode
  protocol_error rpc_framework_error security_error type_constraint_violation : ErrorCode

unfoldable pub code_text : ErrorCode → String
code_text format_violation = "FormatViolation"
code_text generic_error = "GenericError"
code_text internal_error = "InternalError"
code_text message_type_not_supported = "MessageTypeNotSupported"
code_text not_implemented = "NotImplemented"
code_text not_supported = "NotSupported"
code_text occurrence_constraint_violation = "OccurrenceConstraintViolation"
code_text property_constraint_violation = "PropertyConstraintViolation"
code_text protocol_error = "ProtocolError"
code_text rpc_framework_error = "RpcFrameworkError"
code_text security_error = "SecurityError"
code_text type_constraint_violation = "TypeConstraintViolation"

pub record Message : Type 0 where
  pub message_type : MessageType
  pub action : String
  pub message_id : String
  pub request_payload : String
  pub response_payload : String
  pub error_code : Option ErrorCode
  pub error_description : String
  pub state : String

-- A Go `error`: a text, a `transport.Error`, which is always made with the error that it wraps, or
-- `fmt.Errorf("…: %w", err)`.
pub data GoError : Type 0 where
  plain : String → GoError
  coded : ErrorCode → GoError → GoError
  wrapped : String → GoError → GoError

-- `Error()`
unfoldable pub error_text : GoError → String
unfolding code_text
error_text (plain text) = text
error_text (coded code e) = code_text code ++ (": " ++ error_text e)
error_text (wrapped before e) = before ++ (": " ++ error_text e)

-- `errors.As(err, &transportError)`: the first `transport.Error` of the chain, with what it wraps.
abbrev pub as_error : GoError → Option (ErrorCode × GoError)
as_error (plain text) = none
as_error (coded code e) = some (code, e)
as_error (wrapped before e) = as_error e

unfoldable pub new_error_message : String → String → ErrorCode → GoError → Message
unfolding error_text
new_error_message action message_id code e = record {
  message_type = call_error;
  action = action;
  message_id = message_id;
  request_payload = "";
  response_payload = "";
  error_code = some code;
  error_description = error_text e;
  state = "";
}

-- A value or an error.
pub data Outcome {ℓ} (A : Type ℓ) : Type ℓ where
  returned : A → Outcome A
  failed : GoError → Outcome A

-- Code that may change the world, which is the store and what the emitters have done.
abbrev pub Effect {ℓ} : Type 0 → Type ℓ → Type ℓ
Effect W A = W → Outcome A × W

module _ {ℓ κ} {W : Type 0} {A : Type ℓ} {B : Type κ} where
  abbrev pub bind : Outcome A → (A → Effect W B) → Effect W B
  bind (returned a) f w = f a w
  bind (failed e) f w = (failed e, w)

  infixl 10 ◌>>=◌
  -- `if err != nil { return err }`
  abbrev pub ◌>>=◌ : Effect W A → (A → Effect W B) → Effect W B
  ◌>>=◌ m f w = let (o, v) = m w in bind o f v

module _ {ℓ} {A : Type ℓ} where
  -- The error under a new text.
  abbrev pub wrap : String → Outcome A → Outcome A
  wrap before (returned a) = returned a
  wrap before (failed e) = failed (wrapped before e)

module _ {ℓ} {W : Type 0} {A : Type ℓ} where
  abbrev pub give : A → Effect W A
  give a w = (returned a, w)

  abbrev pub give_up : GoError → Effect W A
  give_up e w = (failed e, w)

  -- A call that does not touch the world, and one that does.
  abbrev pub under : String → Outcome A → Effect W A
  under before o w = (wrap before o, w)

  abbrev pub sent : String → Effect W A → Effect W A
  sent before m w = let (o, v) = m w in (wrap before o, v)
