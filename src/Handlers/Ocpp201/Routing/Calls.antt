-- ===== src/Handlers/Ocpp201/Routing/Calls.antt =====
-- manager/handlers/call_maker.go and ocpp201/routing.go: the calls of OCPP 2.0.1 that the manager
-- makes, and the routes of their results.
use maeve_csms_reservations.Prelude.{◌≡◌, String, some}
use maeve_csms_reservations.Prelude.Dict.{lookup}
use maeve_csms_reservations.Handlers.Router.{CallResultRoute}
use maeve_csms_reservations.Handlers.Router.Parts.{Parts}
use maeve_csms_reservations.Handlers.Ocpp201.Routing.{call_result_routes}

-- A result of the action has a route, which reads the request as one of the type.
abbrev pub HasRoute :
    {Request Response W : Type 0} → Parts Request Response W → String × String → Type 0
HasRoute {Request = Request} {Response = Response} {W = W} parts (type, action) =
    (found : CallResultRoute Request Response W) × (lookup action (call_result_routes parts)
      ≡ some found)
    × (found.new_request ≡ parts.new_request type)

infixr 20 ◌and◌
◌and◌ : {A B : Type 0} → A → B → A × B
a and b = (a, b)
