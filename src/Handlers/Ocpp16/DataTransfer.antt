-- ===== src/Handlers/Ocpp16/DataTransfer.antt =====
-- manager/handlers/ocpp16/data_transfer.go and data_transfer_result.go: the messages of OCPP 2.0.1
-- and of the has2be extension inside of the DataTransfer messages of OCPP 1.6. A request without
-- data is the nil request, a response without data the nil response.
use Prim.Native.String.{◌++◌}
use maeve_csms_reservations.Prelude.{String, Option, none, some}
use maeve_csms_reservations.Prelude.Dict.{Dict, lookup}
use maeve_csms_reservations.Transport.{plain, Effect, ◌>>=◌, give, give_up, under}
use maeve_csms_reservations.Handlers.Router.{Codec, CallRoute, CallResultRoute, checked}

pub record DataTransferJson : Type 0 where
  pub vendor_id : String
  pub message_id : Option String
  pub data_text : Option String

pub data DataTransferStatus : Type 0 where
  accepted rejected unknown_message_id unknown_vendor_id : DataTransferStatus

pub record DataTransferResponseJson : Type 0 where
  pub status : DataTransferStatus
  pub data_text : Option String

abbrev pub text_of : Option String → String
text_of none = ""
text_of (some text) = text

-- `%s:%s` with the vendor and the message id
abbrev pub what : DataTransferJson → String
what req = req.vendor_id ++ (":" ++ text_of req.message_id)

abbrev pub accepted_with : Option String → DataTransferResponseJson
accepted_with answer = record { status = accepted; data_text = answer }

abbrev pub without_data : DataTransferStatus → DataTransferResponseJson
without_data status = record { status = status; data_text = none }

module _ {Request Response : Type 0} (codec : Codec Request Response) {W : Type 0} where
  -- `if req.Data != nil`, with the two texts of the errors
  abbrev pub request_in :
      Request → Request → String → String → String → Option String → Effect W Request
  request_in nil_request new_request schema invalid malformed none = give nil_request
  request_in nil_request new_request schema invalid malformed (some payload) =
      checked invalid (codec.validate payload schema) >>= λ _.
      under malformed (codec.unmarshal_request payload new_request)

  abbrev pub response_in :
      Response → Response → String → String → String → Option String → Effect W Response
  response_in nil_response new_response schema invalid malformed none = give nil_response
  response_in nil_response new_response schema invalid malformed (some payload) =
      checked invalid (codec.validate payload schema) >>= λ _.
      under malformed (codec.unmarshal_response payload new_response)

  -- An invalid response shows in the trace only.
  abbrev pub data_of : String → Option Response → Effect W (Option String)
  data_of malformed none = give none
  data_of malformed (some resp) =
      under malformed (codec.marshal_response resp) >>= λ b. give (some b)

  abbrev pub transfer :
      Request
      → String
      → DataTransferJson
      → CallRoute Request Response W
      → Effect W DataTransferResponseJson
  transfer nil_request id req route =
      request_in nil_request route.new_request route.request_schema
        ("validating " ++ (what req ++ " data transfer data"))
        ("unmarshalling " ++ (what req ++ " data transfer data")) req.data_text
      >>= λ request. route.handle_call id request >>= λ answer.
          data_of ("marshalling " ++ (what req ++ " data transfer data")) answer >>= λ answer_data.
          give (accepted_with answer_data)

  abbrev pub transfer_to :
      Request
      → String
      → DataTransferJson
      → Option (CallRoute Request Response W)
      → Effect W DataTransferResponseJson
  transfer_to nil_request id req none = give (without_data unknown_message_id)
  transfer_to nil_request id req (some route) = transfer nil_request id req route

  abbrev pub transfer_by :
      Request
      → String
      → DataTransferJson
      → Option (Dict (CallRoute Request Response W))
      → Effect W DataTransferResponseJson
  transfer_by nil_request id req none = give (without_data unknown_vendor_id)
  transfer_by nil_request id req (some vendor_map) =
      transfer_to nil_request id req (lookup (text_of req.message_id) vendor_map)

  -- `DataTransferHandler.HandleCall`
  unfoldable pub data_transfer :
      Request
      → Dict (Dict (CallRoute Request Response W))
      → String
      → DataTransferJson
      → Effect W DataTransferResponseJson
  data_transfer nil_request call_routes id req =
      transfer_by nil_request id req (lookup req.vendor_id call_routes)

  abbrev pub settle :
      Request
      → Response
      → String
      → DataTransferJson
      → DataTransferResponseJson
      → String
      → CallResultRoute Request Response W
      → Effect {0} W Unit
  settle nil_request nil_response id req resp state route =
      request_in nil_request route.new_request route.request_schema
        ("validating " ++ (what req ++ " data transfer result request data"))
        ("unmarshalling " ++ (what req ++ " data transfer request data")) req.data_text
      >>= λ request.
          response_in nil_response route.new_response route.response_schema
            ("validating " ++ (what req ++ " data transfer result response data"))
            ("unmarshalling " ++ (what req ++ " data transfer response data")) resp.data_text
          >>= λ response. route.handle_call_result id request response state

  abbrev pub settle_to :
      Request
      → Response
      → String
      → DataTransferJson
      → DataTransferResponseJson
      → String
      → Option (CallResultRoute Request Response W)
      → Effect {0} W Unit
  settle_to nil_request nil_response id req resp state none =
      give_up (plain ("unknown data transfer result message id: " ++ text_of req.message_id))
  settle_to nil_request nil_response id req resp state (some route) =
      settle nil_request nil_response id req resp state route

  abbrev pub settle_by :
      Request
      → Response
      → String
      → DataTransferJson
      → DataTransferResponseJson
      → String
      → Option (Dict (CallResultRoute Request Response W))
      → Effect {0} W Unit
  settle_by nil_request nil_response id req resp state none =
      give_up (plain ("unknown data transfer result vendor: " ++ req.vendor_id))
  settle_by nil_request nil_response id req resp state (some vendor_map) =
      settle_to nil_request nil_response id req resp state
        (lookup (text_of req.message_id) vendor_map)

  -- `DataTransferResultHandler.HandleCallResult`
  unfoldable pub data_transfer_result :
      Request
      → Response
      → Dict (Dict (CallResultRoute Request Response W))
      → String
      → DataTransferJson
      → DataTransferResponseJson
      → String
      → Effect {0} W Unit
  data_transfer_result nil_request nil_response call_result_routes id req resp state =
      settle_by nil_request nil_response id req resp state (lookup req.vendor_id call_result_routes)
