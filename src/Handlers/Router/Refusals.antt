-- ===== src/Handlers/Router/Refusals.antt =====
-- manager/handlers/router.go: the errors that a call gets before its handler has run.
use maeve_csms_reservations.Prelude.{String, Option, none, some}
use maeve_csms_reservations.Transport.{ErrorCode, Message, GoError}
use maeve_csms_reservations.Handlers.Router.{Codec, CallRoute, Router}
use Prim.Native.String.{◌++◌}
use maeve_csms_reservations.Transport.{not_implemented, format_violation, plain}

-- Why a call gets no further than to its route, as OCPP has it.
abbrev pub refused_by : Option GoError → Option (ErrorCode × GoError)
refused_by none = none
refused_by (some e) = some (format_violation, e)

module _ {Request Response W : Type 0} (codec : Codec Request Response) where
  abbrev pub refusal :
      Message → Option (CallRoute Request Response W) → Option (ErrorCode × GoError)
  refusal message none = some (not_implemented, plain (message.action ++ " not implemented"))
  refusal message (some found) =
      refused_by (codec.validate message.request_payload found.request_schema)
