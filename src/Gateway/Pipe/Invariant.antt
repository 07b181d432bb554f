-- ===== src/Gateway/Pipe/Invariant.antt =====
-- What holds of a pipe of gateway/pipe/pipe.go between two turns of its loop.
use maeve_csms_reservations.Prelude.{
  ℕ, zero, suc, ◌<◌, ◌≡◌, ◌≢◌, refl, ◌∙◌, false, Bool, true, ◌&&◌, List, [], ◌∷◌, ◌++◌, arith,
  length-snoc, is_some,
}
use maeve_csms_reservations.Gateway.Ring
use maeve_csms_reservations.Gateway.Ring.{put_next}
use maeve_csms_reservations.Gateway.Message.{GatewayMessage, is_call}
use maeve_csms_reservations.Gateway.Pipe.{
  waiting, charge_station_call, csms_call, Pipe, start, Case, on_charge_station_rx, on_csms_rx,
  on_csms_rx_call_buf, on_timeout, on_halt, on_default, panics, goes_on, turn, Sent, Step, loop,
  charge_station_sends, csms_sends, csms_hands_over, close, Run, here, next, Opt, new_pipe,
  apply_opts, ensure_defaults,
}

abbrev pub all_calls : List GatewayMessage → Bool
all_calls [] = true
all_calls (msg ∷ rest) = is_call msg.message_type && all_calls rest

all_calls-snoc :
    (l : List GatewayMessage) (msg : GatewayMessage)
    → all_calls (l ++ (msg ∷ [])) ≡ (all_calls l && is_call msg.message_type)
all_calls-snoc [] msg = ground arith
all_calls-snoc (x ∷ l) msg = ground (arith, all_calls-snoc l msg)

-- The buffer holds calls only; a ring has a value wherever the code reads one without a test; and
-- the second `select` is only reached in the waiting state.
pub record IsSound (p : Pipe) : Type 0 where
  pub buffered : all_calls p.csms_rx_call_buf ≡ true
  pub has_id : p.status ≡ charge_station_call → is_some p.processed_message_ids.value ≡ true
  pub has_call : p.status ≡ csms_call → is_some p.processed_csms_calls.value ≡ true
  pub polled_waiting : p.polled ≡ true → p.status ≡ waiting

pub turn-IsSound :
    (c : Case) (p : Pipe) {q : Pipe} {sent : List Sent}
    → IsSound p
    → turn c p ≡ goes_on q sent
    → IsSound q
unfolding turn
turn-IsSound on_charge_station_rx p h e = ground arith
turn-IsSound on_csms_rx p h e = grind (arith, length-snoc, all_calls-snoc)
turn-IsSound on_csms_rx_call_buf p h e = ground arith
turn-IsSound on_timeout p h e = ground arith
turn-IsSound on_halt p h e = ground arith
turn-IsSound on_default p h e = ground arith

pub turn-ne-panics :
    (c : Case) (p : Pipe)
    → IsSound p
    → p.processed_message_ids.is_nil ≡ false
    → p.processed_csms_calls.is_nil ≡ false
    → turn c p ≢ panics
unfolding turn
turn-ne-panics on_charge_station_rx p h ids calls = λ e. ground arith
turn-ne-panics _ p h ids calls = λ e. ground arith

-- A new pipe.
pub new_pipe-IsSound : (opts : List Opt) → IsSound (new_pipe opts)
unfolding new_pipe start
new_pipe-IsSound opts = ground arith

Step-IsSound : {p q : Pipe} {sent : List Sent} → Step p sent q → IsSound p → IsSound q
Step-IsSound {p} (loop c e) h = turn-IsSound c p h e
Step-IsSound {p} (charge_station_sends msg room) h = ground arith
Step-IsSound {p} (csms_sends msg room) h = ground arith
Step-IsSound {p} (csms_hands_over msg none_held e) h =
    turn-IsSound on_csms_rx (record p { csms_rx = msg ∷ [] }) (ground arith) e
Step-IsSound close h = ground arith

pub Run-IsSound : {p q : Pipe} {sent : List Sent} → Run p sent q → IsSound p → IsSound q
Run-IsSound here h = h
Run-IsSound (next run step) h = Step-IsSound step (Run-IsSound run h)

-- A ring has cells as long as the pipe runs, or never.
abbrev SameCells : Pipe → Pipe → Type 0
SameCells p q =
    (q.processed_message_ids.is_nil ≡ p.processed_message_ids.is_nil)
    × (q.processed_csms_calls.is_nil ≡ p.processed_csms_calls.is_nil)

turn-SameCells :
    (c : Case) (p : Pipe) {q : Pipe} {sent : List Sent} → turn c p ≡ goes_on q sent → SameCells p q
unfolding turn put_next
turn-SameCells on_charge_station_rx p e = ground arith
turn-SameCells _ p e = ground arith

Step-SameCells : {p q : Pipe} {sent : List Sent} → Step p sent q → SameCells p q
Step-SameCells {p} (loop c e) = turn-SameCells c p e
Step-SameCells (charge_station_sends msg room) = (refl, refl)
Step-SameCells (csms_sends msg room) = (refl, refl)
Step-SameCells {p} (csms_hands_over msg none_held e) =
    turn-SameCells on_csms_rx (record p { csms_rx = msg ∷ [] }) e
Step-SameCells close = (refl, refl)

Run-SameCells : {p q : Pipe} {sent : List Sent} → Run p sent q → SameCells p q
Run-SameCells here = (refl, refl)
Run-SameCells (next run step) =
    let (a, b) = Run-SameCells run in let (c, d) = Step-SameCells step in (c ∙ a, d ∙ b)

ring_cells : (A : Type 0) (n : ℕ) → 0 < n → (Ring.new {A = A} n).is_nil ≡ false
unfolding Ring.new
ring_cells A zero h = absurd (omega arith)
ring_cells A (suc n) h = refl

new_pipe-cells :
    (opts : List Opt)
    → 0 < (apply_opts opts ensure_defaults).message_id_buffer_len
    → 0 < (apply_opts opts ensure_defaults).csms_call_response_buffer_len
    → ((new_pipe opts).processed_message_ids.is_nil ≡ false)
      × ((new_pipe opts).processed_csms_calls.is_nil ≡ false)
unfolding new_pipe start
new_pipe-cells opts ids calls =
    let s = apply_opts opts ensure_defaults in
    (ring_cells _ s.message_id_buffer_len ids, ring_cells _ s.csms_call_response_buffer_len calls)

-- However a pipe is used whose two rings have cells, its goroutine never panics: whenever the code
-- reads the current call or the current message id without a test, there is one.
pub new_pipe-ne-panics :
    (opts : List Opt) {q : Pipe} {sent : List Sent} (c : Case)
    → 0 < (apply_opts opts ensure_defaults).message_id_buffer_len
    → 0 < (apply_opts opts ensure_defaults).csms_call_response_buffer_len
    → Run (new_pipe opts) sent q
    → turn c q ≢ panics
new_pipe-ne-panics opts {q} c ids calls run =
    let (has_ids, has_calls) = new_pipe-cells opts ids calls in
    let (same_ids, same_calls) = Run-SameCells run in
    turn-ne-panics c q (Run-IsSound run (new_pipe-IsSound opts)) (same_ids ∙ has_ids)
      (same_calls ∙ has_calls)
