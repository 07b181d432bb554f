-- ===== src/Handlers/Router.antt =====
-- manager/handlers/router.go, types.go and call_maker.go: how a message of a charge station finds its
-- handler, and what is sent back. The JSON and schema libraries, the emitter and the handlers are
-- parameters; the tracing and the log, where alone an invalid response shows, are left out.
pub mod Parts
pub mod Replies
pub mod Results
pub mod Refusals
mod Examples
use Prim.Native.String.{◌++◌}
use maeve_csms_reservations.Prelude.{String, Option, none, some}
use maeve_csms_reservations.Prelude.Dict.{Dict, lookup}
use maeve_csms_reservations.Transport.{
  MessageType, call, call_result, call_error, other, ErrorCode, format_violation, internal_error,
  not_implemented, Message, GoError, plain, coded, wrapped, as_error, error_text, new_error_message,
  Outcome, returned, failed, Effect, ◌>>=◌, give, give_up, under, sent,
}

-- `json.Unmarshal` into a new value, `json.Marshal`, and `schemas.Validate` of a payload and the
-- name of a schema file, on the files of the router.
pub record Codec (Request Response : Type 0) : Type 0 where
  pub unmarshal_request : String → Request → Outcome Request
  pub unmarshal_response : String → Response → Outcome Response
  pub marshal_request : Request → Outcome String
  pub marshal_response : Response → Outcome String
  pub validate : String → String → Option GoError

-- `Request` and `Response` are the values behind `ocpp.Request` and `ocpp.Response`.
module _ (Request Response W : Type 0) where
  pub record CallRoute : Type 0 where
    pub new_request : Request
    pub request_schema : String
    pub response_schema : String
    -- `none` is a nil response without an error.
    pub handle_call : String → Request → Effect W (Option Response)

  pub record CallResultRoute : Type 0 where
    pub new_request : Request
    pub new_response : Response
    pub request_schema : String
    pub response_schema : String
    -- the charge station, the request, the response and the state of the call
    pub handle_call_result : String → Request → Response → String → Effect {0} W Unit

  pub record Router : Type 0 where
    -- `Emitter.Emit` with the router's OCPP version
    pub emit : String → Message → Effect {0} W Unit
    pub call_routes : Dict CallRoute
    pub call_result_routes : Dict CallResultRoute

module _ {W : Type 0} where
  abbrev pub checked : String → Option GoError → Effect {0} W Unit
  checked before none = give tt
  checked before (some e) = give_up (wrapped before e)

  abbrev pub required : {A : Type 0} → String → Option A → Effect W A
  required action none = give_up (plain ("no response or error for " ++ action))
  required action (some resp) = give resp

-- `errors.As(validationErr, &validationErr)` with the nil pointer that was just declared: it is of
-- the type that is looked for, so every error gets the code.
abbrev pub with_code : Option GoError → Option GoError
with_code none = none
with_code (some e) = some (coded format_violation e)

-- The `%v` of the error, which ends the chain.
abbrev pub in_text : {W A : Type 0} → String → Outcome A → Effect W A
in_text before (returned a) = give a
in_text before (failed e) = give_up (plain (before ++ (": " ++ error_text e)))

abbrev pub result_message : Message → String → Message
result_message message response_json = record {
  message_type = call_result;
  action = message.action;
  message_id = message.message_id;
  request_payload = "";
  response_payload = response_json;
  error_code = none;
  error_description = "";
  state = "";
}

abbrev pub no_route : String → GoError
no_route what =
    wrapped "routing request" (coded not_implemented (plain (what ++ " not implemented")))

abbrev pub error_message : Message → GoError → Option (ErrorCode × GoError) → Message
error_message message e none = new_error_message message.action message.message_id internal_error e
error_message message e (some (code, inner)) =
    new_error_message message.action message.message_id code inner

module _ {Request Response W : Type 0} (codec : Codec Request Response)
    (router : Router Request Response W) where
  -- The steps of a call, the last one first.
  abbrev pub send_result : String → Message → String → Effect {0} W Unit
  send_result id message response_json =
      sent "sending call response" (router.emit id (result_message message response_json))

  abbrev pub marshalled : Message → Response → Effect W String
  marshalled message resp =
      under ("marshalling " ++ (message.action ++ " call response")) (codec.marshal_response resp)

  abbrev pub reply : String → Message → Option Response → Effect {0} W Unit
  reply id message answer =
      required message.action answer >>= λ resp. marshalled message resp >>= send_result id message

  abbrev pub unmarshalled : Message → Request → Effect W Request
  unmarshalled message new_request =
      under ("unmarshalling " ++ (message.action ++ " request payload"))
        (codec.unmarshal_request message.request_payload new_request)

  abbrev pub handle_call : String → Message → CallRoute Request Response W → Effect {0} W Unit
  handle_call id message route = unmarshalled message route.new_request >>= λ req.
      route.handle_call id req >>= reply id message

  abbrev pub route_call :
      String → Message → Option (CallRoute Request Response W) → Effect {0} W Unit
  route_call id message none = give_up (no_route message.action)
  route_call id message (some route) =
      checked ("validating " ++ (message.action ++ " request"))
        (with_code (codec.validate message.request_payload route.request_schema))
      >>= λ _. handle_call id message route

  -- The steps of a call's result, the last one first.
  abbrev pub response_unmarshalled : Message → Response → Effect W Response
  response_unmarshalled message new_response =
      in_text ("unmarshalling " ++ (message.action ++ " response payload"))
        (codec.unmarshal_response message.response_payload new_response)

  abbrev pub handle_call_result :
      String → Message → CallResultRoute Request Response W → Effect {0} W Unit
  handle_call_result id message route = unmarshalled message route.new_request >>= λ req.
      response_unmarshalled message route.new_response >>= λ resp.
      route.handle_call_result id req resp message.state

  abbrev pub response_checked :
      String → Message → CallResultRoute Request Response W → Effect {0} W Unit
  response_checked id message route =
      checked ("validating " ++ (message.action ++ " response"))
        (with_code (codec.validate message.response_payload route.response_schema))
      >>= λ _. handle_call_result id message route

  abbrev pub route_call_result :
      String → Message → Option (CallResultRoute Request Response W) → Effect {0} W Unit
  route_call_result id message none = give_up (no_route (message.action ++ " result"))
  route_call_result id message (some route) =
      checked ("validating " ++ (message.action ++ " request"))
        (codec.validate message.request_payload route.request_schema)
      >>= λ _. response_checked id message route

  abbrev pub route_as : MessageType → String → Message → Effect {0} W Unit
  route_as call id message = route_call id message (lookup message.action router.call_routes)
  route_as call_result id message =
      route_call_result id message (lookup message.action router.call_result_routes)
  route_as call_error id message = give_up (plain "we shouldn't get here at the moment")
  route_as (other n) id message = give tt

  unfoldable pub route : String → Message → Effect {0} W Unit
  route id message = route_as message.message_type id message

  -- Only a call is answered with an error. An error of the emitter is logged.
  abbrev pub report : MessageType → String → Message → GoError → W → W
  report call id message e w = (router.emit id (error_message message e (as_error e)) w).1
  report _ id message e w = w

  abbrev pub after_route : String → Message → Outcome {0} Unit → W → W
  after_route id message (returned done) w = w
  after_route id message (failed e) w = report message.message_type id message e w

  -- `Router.Handle`
  unfoldable pub handle : String → Message → W → W
  unfolding route
  handle id message w = let (o, v) = route id message w in after_route id message o v
