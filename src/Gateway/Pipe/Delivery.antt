-- ===== src/Gateway/Pipe/Delivery.antt =====
-- Which messages a pipe of gateway/pipe/pipe.go sends, and when.
use maeve_csms_reservations.Prelude.{
  and-true, String, ◌≡◌, refl, ltb, Bool, true, false, Option, none, some, List, [], ◌∷◌, arith,
  subst, if◌then◌else◌, length, All, eq_iff, ◌==◌, Bool-cases, Option-cases, inl, inr,
}
use maeve_csms_reservations.Gateway.Ring.{Ring}
use maeve_csms_reservations.Gateway.Message.{GatewayMessage, is_call}
use maeve_csms_reservations.Gateway.Pipe.Invariant.{
  IsSound, all_calls, Run-IsSound, new_pipe-IsSound,
}
use maeve_csms_reservations.Gateway.Pipe.{
  Opt, new_pipe, Run, Status, waiting, charge_station_call, csms_call, Pipe, Case,
  on_charge_station_rx, on_csms_rx, on_csms_rx_call_buf, on_timeout, on_halt, on_default, Turn,
  not_ready, returns, panics, goes_on, turn, Sent, charge_station_tx, csms_tx, find_csms_call,
  find_message_id, answer, dispatch, awaited, waiting_response, is_current_id, receive, time_out,
  nothing_ready, take_charge_station_call, take_late_response, waiting_charge_station, waiting_csms,
  forward_csms_call, answering_csms, awaiting_charge_station,
}

-- What the goroutine knows when it sends: its status, the ids of the charge station's calls and
-- the calls of the CSMS.
module _ (status : Status) (ids : Ring String) (calls : Ring GatewayMessage) where
  -- A call goes to the charge station only while no exchange is under way; a response only if it
  -- is to the call that the charge station made last.
  abbrev pub ToChargeStation : Bool → GatewayMessage → Type 0
  ToChargeStation true msg = status ≡ waiting
  ToChargeStation false msg = ids.value ≡ some msg.message_id

  -- A call goes to the CSMS only if its id is not among the remembered ones; a response only with
  -- the action and the request of a remembered call of the CSMS with its id.
  abbrev pub ToCsms : Bool → GatewayMessage → Type 0
  ToCsms true msg = find_message_id ids msg.message_id ≡ false
  ToCsms false msg =
      (call : GatewayMessage) × (find_csms_call calls msg.message_id ≡ some call)
      × (msg.action ≡ call.action)
      × (msg.request_payload ≡ call.request_payload)

  abbrev pub JustifiedSent : Sent → Type 0
  JustifiedSent (charge_station_tx msg) = ToChargeStation (is_call msg.message_type) msg
  JustifiedSent (csms_tx msg) = ToCsms (is_call msg.message_type) msg

  abbrev JustifiedBy : Turn → Type 0
  JustifiedBy not_ready = Unit
  JustifiedBy returns = Unit
  JustifiedBy panics = Unit
  JustifiedBy (goes_on q sent) = All JustifiedSent sent

abbrev pub Justified : Pipe → Sent → Type 0
Justified p = JustifiedSent p.status p.processed_message_ids p.processed_csms_calls

abbrev JustifiedTurn : Pipe → Turn → Type 0
JustifiedTurn p = JustifiedBy p.status p.processed_message_ids p.processed_csms_calls

module _ (msg : GatewayMessage) (p : Pipe) where
  new_call : is_call msg.message_type ≡ true → JustifiedTurn p (take_charge_station_call msg p)
  unfolding take_charge_station_call
  new_call call = elim (Bool-cases (find_message_id p.processed_message_ids msg.message_id)) [
    | inl seen ↦ rw (seen) tt
    | inr fresh ↦ rw (fresh, call) (fresh, tt)
  ]

  late_response : is_call msg.message_type ≡ false → JustifiedTurn p (take_late_response msg p)
  unfolding take_late_response
  late_response response =
      elim (Option-cases (find_csms_call p.processed_csms_calls msg.message_id)) [
        | inl unknown ↦ rw (unknown, take_late_response) tt
        | inr (call, known) ↦
            rw (known, take_late_response, response) ((call, known, refl, refl), tt)
      ]

  waiting_call :
      p.status ≡ waiting
      → is_call msg.message_type ≡ true
      → JustifiedTurn p (forward_csms_call msg p)
  unfolding forward_csms_call
  waiting_call idle call = rw call (idle, tt)

  matches_current :
      (current : GatewayMessage)
      → p.processed_csms_calls.value ≡ some current
      → (msg.message_id == current.message_id) ≡ true
      → find_csms_call p.processed_csms_calls msg.message_id ≡ some current
  unfolding find_csms_call
  matches_current current e same =
      ground
        (arith, eq_iff msg.message_id current.message_id, eq_iff current.message_id msg.message_id)

  current_response :
      (current : GatewayMessage)
      → is_call msg.message_type ≡ false
      → p.processed_csms_calls.value ≡ some current
      → (msg.message_id == current.message_id) ≡ true
      → Justified p (csms_tx (answer msg current))
  unfolding answer
  current_response current response e same =
      rw response (current, matches_current current e same, refl, refl)

  current_id : is_current_id p msg ≡ true → p.processed_message_ids.value ≡ some msg.message_id
  current_id h = elim (Option-cases p.processed_message_ids.value) [
    | inl e ↦ ground arith
    | inr (v, e) ↦ ground (arith, eq_iff v msg.message_id)
  ]

  waiting_response-Justified :
      (o : Option GatewayMessage)
      → is_call msg.message_type ≡ false
      → p.processed_csms_calls.value ≡ o
      → JustifiedTurn p (waiting_response o msg p)
  unfolding waiting_response
  waiting_response-Justified none response e = late_response response
  waiting_response-Justified (some current) response e =
      elim (Bool-cases (msg.message_id == current.message_id)) [
        | inl same ↦ rw same (current_response current response e same, tt)
        | inr differs ↦ rw differs (late_response response)
      ]

  waiting_message : JustifiedTurn p (waiting_charge_station msg p)
  unfolding waiting_charge_station
  waiting_message = elim (Bool-cases (is_call msg.message_type)) [
    | inl call ↦ rw call (new_call call)
    | inr response ↦
        rw response (waiting_response-Justified p.processed_csms_calls.value response refl)
  ]

  awaited-Justified :
      (o : Option GatewayMessage)
      → p.processed_csms_calls.value ≡ o
      → JustifiedTurn p (awaited o msg p)
  unfolding awaited
  awaited-Justified none e = tt
  awaited-Justified (some current) e = elim (Bool-cases (is_call msg.message_type)) [
    | inl call ↦ rw call (new_call call)
    | inr response ↦ elim (Bool-cases (msg.message_id == current.message_id)) [
      | inl same ↦ rw (response, same) (current_response current response e same, tt)
      | inr differs ↦ rw (response, differs) (late_response response)
    ]
  ]

  awaiting_message : JustifiedTurn p (awaiting_charge_station msg p)
  unfolding awaiting_charge_station
  awaiting_message = awaited-Justified p.processed_csms_calls.value refl

  waiting_csms_message : p.status ≡ waiting → JustifiedTurn p (waiting_csms msg p)
  unfolding waiting_csms
  waiting_csms_message idle = elim (Bool-cases (is_call msg.message_type)) [
    | inl call ↦ rw call (waiting_call idle call)
    | inr response ↦ elim (Bool-cases (is_current_id p msg)) [
      | inl same ↦ rw (response, same) (rw response (current_id same), tt)
      | inr differs ↦ rw (response, differs) tt
    ]
  ]

  answering_message : JustifiedTurn p (answering_csms msg p)
  unfolding answering_csms
  answering_message = elim (Bool-cases (is_call msg.message_type)) [
    | inl call ↦ elim (Bool-cases (ltb (length p.csms_rx_call_buf) p.csms_call_queue_len)) [
      | inl room ↦ rw (call, room) tt
      | inr full ↦ rw (call, full) tt
    ]
    | inr response ↦ elim (Bool-cases (is_current_id p msg)) [
      | inl same ↦ rw (response, same) (rw response (current_id same), tt)
      | inr differs ↦ rw (response, differs) tt
    ]
  ]

receive-Justified :
    (l : List GatewayMessage) (f : GatewayMessage → List GatewayMessage → Turn) (p : Pipe)
    → ((m : GatewayMessage) (r : List GatewayMessage) → JustifiedTurn p (f m r))
    → JustifiedTurn p (receive l f)
receive-Justified [] f p h = tt
receive-Justified (m ∷ r) f p h = h m r

time_out-Justified {ℓ} : {A : Type ℓ} (o : Option A) (p : Pipe) → JustifiedTurn p (time_out o p)
time_out-Justified none p = tt
time_out-Justified (some v) p = tt

if-Justified :
    (b : Bool) (p : Pipe) (t u : Turn)
    → JustifiedTurn p t
    → JustifiedTurn p u
    → JustifiedTurn p (if b then t else u)
if-Justified true p t u h k = h
if-Justified false p t u h k = k

buffered-Justified :
    (l : List GatewayMessage) (p : Pipe)
    → p.status ≡ waiting
    → all_calls l ≡ true
    → JustifiedTurn p
        (receive l (λ m r. forward_csms_call m (record p { csms_rx_call_buf = r; polled = false })))
buffered-Justified [] p e h = tt
buffered-Justified (m ∷ r) p e h =
    waiting_call m (record p { csms_rx_call_buf = r; polled = false }) e (and-true _ _ h).0

-- A received message leaves the status and the rings to its handler.
dispatch-Justified :
    (s : Status) (b : Bool) (c : Case) (p : Pipe)
    → p.status ≡ s
    → all_calls p.csms_rx_call_buf ≡ true
    → JustifiedTurn p (dispatch s b c p)
unfolding dispatch
dispatch-Justified _ _ on_halt p e h = if-Justified p.halt p _ _ tt tt
dispatch-Justified waiting _ on_charge_station_rx p e h =
    receive-Justified p.charge_station_rx _ p
      λ m r. waiting_message m (record p { charge_station_rx = r; polled = false })
dispatch-Justified waiting false on_default p e h =
    if-Justified (nothing_ready p.charge_station_rx p.halt) p _ _ tt tt
dispatch-Justified waiting true on_csms_rx p e h =
    receive-Justified p.csms_rx _ p
      λ m r. waiting_csms_message m (record p { csms_rx = r; polled = false }) e
dispatch-Justified waiting true on_csms_rx_call_buf p e h =
    buffered-Justified p.csms_rx_call_buf p e h
dispatch-Justified charge_station_call _ on_csms_rx p e h =
    receive-Justified p.csms_rx _ p
      λ m r. answering_message m (record p { csms_rx = r; polled = false })
dispatch-Justified charge_station_call _ on_timeout p e h =
    time_out-Justified p.processed_message_ids.value p
dispatch-Justified csms_call _ on_charge_station_rx p e h =
    receive-Justified p.charge_station_rx _ p
      λ m r. awaiting_message m (record p { charge_station_rx = r; polled = false })
dispatch-Justified csms_call _ on_timeout p e h = time_out-Justified p.processed_csms_calls.value p
dispatch-Justified _ _ _ p e h = tt

pub turn-Justified :
    (c : Case) (p : Pipe) {q : Pipe} {sent : List Sent}
    → IsSound p
    → turn c p ≡ goes_on q sent
    → All (Justified p) sent
unfolding turn
turn-Justified c p h e = subst (JustifiedTurn p) e (
    if-Justified p.processed_csms_calls.is_nil p panics _ tt
      (if-Justified _ p panics _ tt (dispatch-Justified p.status p.polled c p refl h.buffered)))

-- However a new pipe is used, every message that a turn of its loop sends is justified: a call of
-- the CSMS is only passed on in the waiting state, a response of the CSMS only if it answers the
-- charge station's last call, a call of the charge station only if its id is not among the
-- remembered ones, and a response of the charge station only with the action and the request of
-- the remembered call of the CSMS that it answers.
pub sent-Justified :
    (opts : List Opt) {q r : Pipe} {before sent : List Sent} (c : Case)
    → Run (new_pipe opts) before q
    → turn c q ≡ goes_on r sent
    → All (Justified q) sent
sent-Justified opts {q} c run t = turn-Justified c q (Run-IsSound run (new_pipe-IsSound opts)) t
