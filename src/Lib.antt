-- ===== src/Lib.antt =====
-- MaEVe, a charge station management system: a gateway (gateway/) that holds the websocket
-- connections of charge stations, and a manager (manager/) that answers their OCPP messages and
-- keeps what is known of them in a store. This library models the parts of both that carry the
-- program's own logic.
--
-- Gateway.antt, gateway/pipe/ and gateway/ocpp/: a pipe sits between one charge station and the
-- CSMS. Gateway/Message.antt has its messages, Gateway/Ring.antt the rings (`container/ring`) in
-- which it remembers message ids and calls, Gateway/Pipe.antt the loop of `Pipe.Start`: `turn` is one
-- pass through the loop for the case of the `select` that is taken, `Step` what can happen to a pipe
-- (a turn, an arriving message, `Close`), `Run` a sequence of those, with what has been sent. Any
-- case may be taken whenever it is ready, so a theorem on all runs holds for every choice of Go's
-- scheduler, and for every duration of the timeout. A send on the two outgoing channels happens
-- within its turn; that a send blocks while the channel is full is not modelled. Gateway/Pipe/ has
-- the invariants, the message ids and the delivery of messages.
--
-- Gateway/Admission.antt, gateway/server/ws.go, gateway/server/middleware.go and gateway/registry/:
-- which requests for a websocket connection are accepted, also behind a proxy that ends TLS. The
-- password's hash and `strconv.ParseBool` are parameters, and the registry is an interface. Gateway/Admission/Policy.antt
-- says independently of the code who may connect. Gateway/Frame.antt, gateway/ocpp/ocppj.go and
-- gateway/server/ws.go: the OCPP-J frames, over any JSON library; a panic is an outcome of its own.
--
-- Transport.antt, manager/transport/: the messages between the two programs, and the errors that
-- carry an OCPP error code.
--
-- Emaid.antt, manager/ocpp/emaid.go: `normalize_emaid` and `calculate_emaid_check_digit`
-- (Emaid/CheckDigit.antt) on lists of bytes; a panic is an outcome of its own.
--
-- Store.antt, manager/store/: the stored data. Store/Engine.antt is the interface `store.Engine`, as
-- far as the handlers use it; Store/InMemory.antt and below manager/store/inmemory/store.go:
-- stations, transactions, the other records and the listings; Store/InMemory/AsEngine.antt makes it
-- an implementation of the interface. A pointer to a stored value is the value itself; where code
-- outside the store changes such a value in place the theorems say what they leave out. The binary
-- search of golang.org/x/exp/slices is a parameter with what its documentation says
-- (Store/Sorting.antt), the hash of a certificate is a parameter too.
--
-- Services.antt, manager/services/: token_auth.go and tariff.go.
--
-- Handlers.antt, manager/handlers/: the OCPP 1.6 handlers Authorize, StartTransaction,
-- StopTransaction, BootNotification and the one for the result of ChangeConfiguration
-- (Handlers/Ocpp16/) and the OCPP 2.0.1 handlers TransactionEvent, Authorize, BootNotification,
-- SignCertificate and those for the results of CertificateSigned, InstallCertificate, TriggerMessage
-- and SetVariables (Handlers/Ocpp201/), each as an action on the state of any store. The time, the random number, the
-- type float64 with its conversions and the text of a UUID are parameters; tracing and logging are
-- left out.
--
-- Handlers/Router.antt, manager/handlers/router.go: how a message finds its handler and what is sent
-- back, over any handlers, JSON and schema library; the world that the handlers and the emitter
-- change is a type of its own. Handlers/Ocpp16/Routing.antt and Handlers/Ocpp201/Routing.antt are the
-- tables of routes of the two routing.go, Handlers/Schemas.antt the schema files that are embedded,
-- Handlers/CallMaker.antt the calls that the manager makes, and Handlers/Ocpp16/DataTransfer.antt the
-- messages inside of DataTransfer messages. A panic of a handler is not modelled.
--
-- Api.antt, manager/api/server.go: the bodies of requests and responses; Api/Server.antt has the
-- handlers, over any store, Api/Connect.antt what a registration through the API means for the
-- gateway, which asks the API by gateway/registry/remote.go (Gateway/Registry.antt), and
-- Api/Locations.antt the registration of a location.
--
-- Ocpi.antt, manager/ocpi/: the registration of other parties and their tokens. Ocpi/Client.antt has
-- what is asked of the other party, Ocpi/Registration.antt the authentication of a request and the
-- handshake, over any store and HTTP client, Ocpi/Tokens.antt the tokens that other parties put, change
-- and ask for, Ocpi/Server.antt the handlers of the versions and the credentials.
--
-- Sync.antt, manager/sync/: one pass of the loop of triggers.go (Sync/Triggers.antt) and of settings.go
-- (Sync/Settings.antt), over any store.
--
-- Every function here is total and none of the code's runs on fuel. `visited` in
-- Sync/Settings/Coverage.antt, which follows the passes of a loop that never ends, has fuel for a
-- number of passes, one more than there are stations.
--
-- Not modelled: the Firestore store, HTTP and MQTT transport, generated message types and
-- servers, configuration and certificate providers, which call libraries or move data; the
-- loop of certificates.go, which changes stored certificates through their pointers; the start
-- of a session over OCPI; and the remaining handlers, which trace their messages.
pub mod Prelude
pub mod Transport
pub mod Emaid
pub mod Gateway
pub mod Store
pub mod Services
pub mod Handlers
pub mod Api
pub mod Ocpi
pub mod Sync
