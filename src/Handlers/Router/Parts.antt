-- ===== src/Handlers/Router/Parts.antt =====
-- manager/handlers/ocpp16/routing.go and ocpp201/routing.go: what the tables of routes are made of.
-- The Go types, by their names, and the handlers, by the names of their types, are parameters.
use maeve_csms_reservations.Prelude.{String, Option}
use maeve_csms_reservations.Transport.{Effect}
use maeve_csms_reservations.Handlers.Router.{CallRoute, CallResultRoute}

pub record Parts (Request Response W : Type 0) : Type 0 where
  pub new_request : String → Request
  pub new_response : String → Response
  pub handler : String → String → Request → Effect W (Option Response)
  pub result_handler : String → String → Request → Response → String → Effect {0} W Unit

module _ {Request Response W : Type 0} (parts : Parts Request Response W) where
  -- the request's type, the schemas of the request and the response, the handler
  abbrev pub call_route : String → String → String → String → CallRoute Request Response W
  call_route type request_schema response_schema handler = record {
    new_request = parts.new_request type;
    request_schema = request_schema;
    response_schema = response_schema;
    handle_call = parts.handler handler;
  }

  -- the types of the request and the response, their schemas, the handler
  abbrev pub call_result_route :
      String → String → String → String → String → CallResultRoute Request Response W
  call_result_route type response_type request_schema response_schema handler = record {
    new_request = parts.new_request type;
    new_response = parts.new_response response_type;
    request_schema = request_schema;
    response_schema = response_schema;
    handle_call_result = parts.result_handler handler;
  }
