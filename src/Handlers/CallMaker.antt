-- ===== src/Handlers/CallMaker.antt =====
-- manager/handlers/call_maker.go, and the call maker of manager/handlers/ocpp16/routing.go that puts
-- its calls into DataTransfer messages: the calls that the manager makes. The type of a request, by
-- its name, and the new message id are parameters.
use Prim.Native.String.{◌++◌}
use maeve_csms_reservations.Prelude.{String, Option, none, some}
use maeve_csms_reservations.Prelude.Dict.{Dict, lookup}
use maeve_csms_reservations.Transport.{
  Message, call, GoError, plain, Outcome, Effect, ◌>>=◌, give_up, under,
}
use maeve_csms_reservations.Handlers.Ocpp16.DataTransfer.{DataTransferJson}

abbrev pub call_message : String → String → String → Message
call_message message_id action request_payload = record {
  message_type = call;
  action = action;
  message_id = message_id;
  request_payload = request_payload;
  response_payload = "";
  error_code = none;
  error_description = "";
  state = "";
}

module _ {Request W : Type 0} (type_of : Request → String) (marshal : Request → Outcome String)
    (emit : String → Message → Effect {0} W Unit) (message_id : String) where
  abbrev pub unknown_type : Request → GoError
  unknown_type request = plain ("unknown request type: " ++ type_of request)

  abbrev pub send_as : String → Request → Option String → Effect {0} W Unit
  send_as id request none = give_up (unknown_type request)
  send_as id request (some action) = (λ w. (marshal request, w)) >>= λ request_bytes.
      emit id (call_message message_id action request_bytes)

  -- `OcppCallMaker.Send`
  unfoldable pub send : Dict String → String → Request → Effect {0} W Unit
  send actions id request = send_as id request (lookup (type_of request) actions)

  abbrev pub send_within :
      (DataTransferJson → Outcome String)
      → String
      → Request
      → Option (String × String)
      → Effect {0} W Unit
  send_within marshal_data_transfer id request none = give_up (unknown_type request)
  send_within marshal_data_transfer id request (some (vendor_id, inner_id)) =
      under "marshaling request" (marshal request) >>= λ request_bytes.
      under "marshaling data transfer request" (
        marshal_data_transfer (record {
          vendor_id = vendor_id;
          message_id = some inner_id;
          data_text = some request_bytes;
        }))
      >>= λ data_transfer_bytes.
          emit id (call_message message_id "DataTransfer" data_transfer_bytes)

  -- `DataTransferCallMaker.Send`
  unfoldable pub send_data_transfer :
      (DataTransferJson → Outcome String)
      → Dict (String × String)
      → String
      → Request
      → Effect {0} W Unit
  send_data_transfer marshal_data_transfer actions id request =
      send_within marshal_data_transfer id request (lookup (type_of request) actions)
