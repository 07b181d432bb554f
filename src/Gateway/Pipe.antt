-- ===== src/Gateway/Pipe.antt =====
-- gateway/pipe/pipe.go: one pipe connects one charge station to the CSMS. Its goroutine is a state
-- machine that is stepped by the case of a `select` that it takes; when several cases are ready Go
-- picks any of them, so the case is an argument. A blocking send on the two outgoing channels is
-- done within the turn and is recorded as a value of `Sent`.
pub mod Invariant
pub mod Replay
pub mod Delivery
use maeve_csms_reservations.Prelude.{
  ℕ, zero, suc, String, ◌<◌, ◌≡◌, Bool, true, false, not, ◌&&◌, Option, none, some, List, [], ◌∷◌,
  ◌++◌, ltb, ◌==◌, if◌then◌else◌, length,
}
use maeve_csms_reservations.Gateway.Message.{GatewayMessage, is_call}
use maeve_csms_reservations.Gateway.Ring
use maeve_csms_reservations.Gateway.Ring.{Ring, put_next}

pub data Status : Type 0 where
  waiting charge_station_call csms_call : Status

-- The channels are lists, the head received next. The incoming ones hold `charge_station_rx` one
-- and `csms_rx` `csms_message_queue_len` messages at most. `polled` says that the goroutine is in
-- the second, blocking `select` of the waiting state.
pub record Pipe : Type 0 where
  pub charge_station_rx : List GatewayMessage
  pub csms_rx : List GatewayMessage
  pub csms_rx_call_buf : List GatewayMessage
  pub halt : Bool
  pub csms_message_queue_len : ℕ
  pub csms_call_queue_len : ℕ
  pub polled : Bool
  pub status : Status
  pub processed_message_ids : Ring String
  pub processed_csms_calls : Ring GatewayMessage

-- The settings of a pipe; the timeout is in seconds.
pub record Settings : Type 0 where
  pub response_timeout : ℕ
  pub message_id_buffer_len : ℕ
  pub csms_message_queue_len : ℕ
  pub csms_call_queue_len : ℕ
  pub csms_call_response_buffer_len : ℕ

-- `ensureDefaults`
unfoldable pub ensure_defaults : Settings
ensure_defaults = record {
  response_timeout = 10;
  message_id_buffer_len = 10;
  csms_message_queue_len = 5;
  csms_call_queue_len = 5;
  csms_call_response_buffer_len = 5;
}

-- The options of `NewPipe`.
pub data Opt : Type 0 where
  with_response_timeout : ℕ → Opt
  with_message_id_buffer_len : ℕ → Opt
  with_csms_message_queue_len : ℕ → Opt
  with_csms_call_queue_len : ℕ → Opt
  with_csms_call_response_buffer_len : ℕ → Opt

unfoldable pub apply_opt : Opt → Settings → Settings
apply_opt (with_response_timeout timeout) s = record s { response_timeout = timeout }
apply_opt (with_message_id_buffer_len n) s = record s { message_id_buffer_len = n }
apply_opt (with_csms_message_queue_len n) s = record s { csms_message_queue_len = n }
apply_opt (with_csms_call_queue_len n) s = record s { csms_call_queue_len = n }
apply_opt (with_csms_call_response_buffer_len n) s = record s { csms_call_response_buffer_len = n }

unfoldable pub apply_opts : List Opt → Settings → Settings
unfolding apply_opt
apply_opts [] s = s
apply_opts (opt ∷ opts) s = apply_opts opts (apply_opt opt s)

-- The goroutine as it enters its loop. A ring without cells is a nil pointer.
unfoldable pub start : Settings → Pipe
unfolding Ring.new
start s = record {
  charge_station_rx = [];
  csms_rx = [];
  csms_rx_call_buf = [];
  halt = false;
  csms_message_queue_len = s.csms_message_queue_len;
  csms_call_queue_len = s.csms_call_queue_len;
  polled = false;
  status = waiting;
  processed_message_ids = Ring.new s.message_id_buffer_len;
  processed_csms_calls = Ring.new s.csms_call_response_buffer_len;
}

unfoldable pub new_pipe : List Opt → Pipe
unfolding apply_opts ensure_defaults start
new_pipe opts = start (apply_opts opts ensure_defaults)

-- `findMessageId`
abbrev holds_id : String → Option String → Bool
holds_id message_id none = false
holds_id message_id (some value) = value == message_id

abbrev pub find_id : String → List (Option String) → Bool
find_id message_id [] = false
find_id message_id (x ∷ xs) = if holds_id message_id x then true else find_id message_id xs

unfoldable pub find_message_id : Ring String → String → Bool
find_message_id ring message_id =
    if holds_id message_id ring.value then true else find_id message_id ring.others

-- `findCSMSCall`
abbrev pub holds_call : String → Option GatewayMessage → Bool
holds_call message_id none = false
holds_call message_id (some call) = call.message_id == message_id

abbrev pub find_call : String → List (Option GatewayMessage) → Option GatewayMessage
find_call message_id [] = none
find_call message_id (x ∷ xs) = if holds_call message_id x then x else find_call message_id xs

unfoldable pub find_csms_call : Ring GatewayMessage → String → Option GatewayMessage
find_csms_call ring message_id =
    if holds_call message_id ring.value then ring.value else find_call message_id ring.others

-- A send on an outgoing channel.
pub data Sent : Type 0 where
  charge_station_tx : GatewayMessage → Sent
  csms_tx : GatewayMessage → Sent

-- The case of the `select` that a turn of the loop takes.
pub data Case : Type 0 where
  on_charge_station_rx on_csms_rx on_csms_rx_call_buf on_timeout on_halt on_default : Case

-- What a turn of the loop comes to.
pub data Turn : Type 0 where
  not_ready : Turn
  returns : Turn
  panics : Turn
  goes_on : Pipe → List Sent → Turn

-- The response as the CSMS gets it, with what it has been asked.
unfoldable pub answer : GatewayMessage → GatewayMessage → GatewayMessage
answer msg call = record msg { action = call.action; request_payload = call.request_payload }

-- A call from the charge station, in the states that take one.
unfoldable pub take_charge_station_call : GatewayMessage → Pipe → Turn
unfolding find_message_id put_next
take_charge_station_call msg p =
    if find_message_id p.processed_message_ids msg.message_id
    then goes_on p []
    else goes_on
        (record p {
          processed_message_ids = put_next msg.message_id p.processed_message_ids;
          status = charge_station_call;
        })
        (csms_tx msg ∷ [])

-- A response to an earlier call of the CSMS, if it is one.
unfoldable pub take_late_response : GatewayMessage → Pipe → Turn
unfolding find_csms_call answer
take_late_response msg p = elim (find_csms_call p.processed_csms_calls msg.message_id) [
  | some call ↦ goes_on p (csms_tx (answer msg call) ∷ [])
  | none ↦ goes_on p []
]

-- A response in the waiting state: the current call of the CSMS is looked at first.
unfoldable pub waiting_response : Option GatewayMessage → GatewayMessage → Pipe → Turn
unfolding take_late_response
waiting_response none msg p = take_late_response msg p
waiting_response (some current) msg p =
    if msg.message_id == current.message_id
    then goes_on p (csms_tx (answer msg current) ∷ [])
    else take_late_response msg p

-- A message from the charge station in the waiting state.
unfoldable pub waiting_charge_station : GatewayMessage → Pipe → Turn
unfolding take_charge_station_call waiting_response
waiting_charge_station msg p =
    if is_call msg.message_type
    then take_charge_station_call msg p
    else waiting_response p.processed_csms_calls.value msg p

-- A call from the CSMS goes to the charge station.
unfoldable pub forward_csms_call : GatewayMessage → Pipe → Turn
unfolding put_next
forward_csms_call msg p =
    goes_on
      (record p { processed_csms_calls = put_next msg p.processed_csms_calls; status = csms_call })
      (charge_station_tx msg ∷ [])

-- `processedMessageIds.Value == msg.MessageId`
abbrev pub is_current_id : Pipe → GatewayMessage → Bool
is_current_id p msg = holds_id msg.message_id p.processed_message_ids.value

-- A message from the CSMS in the waiting state.
unfoldable pub waiting_csms : GatewayMessage → Pipe → Turn
unfolding forward_csms_call
waiting_csms msg p =
    if not (is_call msg.message_type)
    then (if is_current_id p msg then goes_on p (charge_station_tx msg ∷ []) else goes_on p [])
    else forward_csms_call msg p

-- A message from the CSMS while the charge station waits for an answer.
unfoldable pub answering_csms : GatewayMessage → Pipe → Turn
answering_csms msg p =
    if is_call msg.message_type
    then (if ltb (length p.csms_rx_call_buf) p.csms_call_queue_len
        then goes_on (record p { csms_rx_call_buf = p.csms_rx_call_buf ++ (msg ∷ []) }) []
        else goes_on p [])
    else (if is_current_id p msg
        then goes_on (record p { status = waiting }) (charge_station_tx msg ∷ [])
        else goes_on p [])

-- A message from the charge station while the CSMS waits for an answer to the call `current`.
-- Without a current call its use is a nil dereference.
unfoldable pub awaited : Option GatewayMessage → GatewayMessage → Pipe → Turn
unfolding take_charge_station_call take_late_response
awaited none msg p = panics
awaited (some current) msg p =
    if is_call msg.message_type
    then take_charge_station_call msg p
    else if msg.message_id == current.message_id
    then goes_on (record p { status = waiting }) (csms_tx (answer msg current) ∷ [])
    else take_late_response msg p

unfoldable pub awaiting_charge_station : GatewayMessage → Pipe → Turn
unfolding awaited
awaiting_charge_station msg p = awaited p.processed_csms_calls.value msg p

-- The time is up. The log line reads the value of a ring, and panics where there is none.
abbrev pub time_out {ℓ} : {A : Type ℓ} → Option A → Pipe → Turn
time_out none p = panics
time_out (some _) p = goes_on (record p { status = waiting }) []

-- A receive: the case is ready if the channel has a message.
abbrev pub receive : List GatewayMessage → (GatewayMessage → List GatewayMessage → Turn) → Turn
receive [] handle = not_ready
receive (msg ∷ rest) handle = handle msg rest

-- A turn that has received a message starts again at the top of the loop.
abbrev from_charge_station_rx : (GatewayMessage → Pipe → Turn) → Pipe → Turn
from_charge_station_rx handle p =
    receive p.charge_station_rx
      λ msg rest. handle msg (record p { charge_station_rx = rest; polled = false })

abbrev from_csms_rx : (GatewayMessage → Pipe → Turn) → Pipe → Turn
from_csms_rx handle p =
    receive p.csms_rx λ msg rest. handle msg (record p { csms_rx = rest; polled = false })

abbrev from_csms_rx_call_buf : (GatewayMessage → Pipe → Turn) → Pipe → Turn
from_csms_rx_call_buf handle p =
    receive p.csms_rx_call_buf
      λ msg rest. handle msg (record p { csms_rx_call_buf = rest; polled = false })

abbrev pub nothing_ready : List GatewayMessage → Bool → Bool
nothing_ready [] false = true
nothing_ready _ _ = false

-- One turn of the loop of `Start`: the status, whether the second `select` of the waiting state
-- has been reached, and the case that is taken.
unfoldable pub dispatch : Status → Bool → Case → Pipe → Turn
unfolding waiting_charge_station waiting_csms forward_csms_call answering_csms
    awaiting_charge_station
dispatch _ _ on_halt p = if p.halt then returns else not_ready
dispatch waiting _ on_charge_station_rx p = from_charge_station_rx waiting_charge_station p
dispatch waiting false on_default p =
    if nothing_ready p.charge_station_rx p.halt
    then goes_on (record p { polled = true }) []
    else not_ready
dispatch waiting true on_csms_rx p = from_csms_rx waiting_csms p
dispatch waiting true on_csms_rx_call_buf p = from_csms_rx_call_buf forward_csms_call p
dispatch charge_station_call _ on_csms_rx p = from_csms_rx answering_csms p
dispatch charge_station_call _ on_timeout p = time_out p.processed_message_ids.value p
dispatch csms_call _ on_charge_station_rx p = from_charge_station_rx awaiting_charge_station p
dispatch csms_call _ on_timeout p = time_out p.processed_csms_calls.value p
dispatch _ _ _ p = not_ready

-- Does the turn read the ring of message ids? A call of the charge station is looked for in it, and
-- a response of the CSMS is compared with its value.
abbrev pub reads_ids : (Bool → Bool) → List GatewayMessage → Bool
reads_ids test [] = false
reads_ids test (msg ∷ rest) = test (is_call msg.message_type)

unfoldable pub reads_message_ids : Status → Bool → Case → Pipe → Bool
reads_message_ids waiting _ on_charge_station_rx p = reads_ids (λ b. b) p.charge_station_rx
reads_message_ids waiting true on_csms_rx p = reads_ids not p.csms_rx
reads_message_ids charge_station_call _ on_csms_rx p = reads_ids not p.csms_rx
reads_message_ids csms_call _ on_charge_station_rx p = reads_ids (λ b. b) p.charge_station_rx
reads_message_ids _ _ _ p = false

-- A nil ring of calls is read at the top of the loop, one of ids only where its value is.
unfoldable pub turn : Case → Pipe → Turn
unfolding dispatch reads_message_ids
turn c p =
    if p.processed_csms_calls.is_nil
    then panics
    else (if p.processed_message_ids.is_nil && reads_message_ids p.status p.polled c p
        then panics
        else dispatch p.status p.polled c p)

-- What can happen to a pipe: a turn of its goroutine, a message on a channel with room, a message
-- of the CSMS that a turn takes as it is sent, since its channel holds none, `Close`.
pub data Step (p : Pipe) : List Sent → Pipe → Type 0 where
  loop : (c : Case) {sent : List Sent} {q : Pipe} → turn c p ≡ goes_on q sent → Step p sent q
  charge_station_sends :
      (msg : GatewayMessage)
      → length p.charge_station_rx < 1
      → Step p [] (record p { charge_station_rx = p.charge_station_rx ++ (msg ∷ []) })
  csms_sends :
      (msg : GatewayMessage)
      → length p.csms_rx < p.csms_message_queue_len
      → Step p [] (record p { csms_rx = p.csms_rx ++ (msg ∷ []) })
  csms_hands_over :
      (msg : GatewayMessage) {sent : List Sent} {q : Pipe}
      → p.csms_message_queue_len ≡ 0
      → turn on_csms_rx (record p { csms_rx = msg ∷ [] }) ≡ goes_on q sent
      → Step p sent q
  close : Step p [] (record p { halt = true })

-- The runs of a pipe, with everything that it has sent, oldest first.
pub data Run (p : Pipe) : List Sent → Pipe → Type 0 where
  here : Run p [] p
  next :
      {before sent : List Sent} {q r : Pipe}
      → Run p before q
      → Step q sent r
      → Run p (before ++ sent) r
