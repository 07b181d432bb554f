-- ===== src/Handlers/Router/Replies.antt =====
-- manager/handlers/router.go: what is sent back for a message, and what its handler has done then.
use maeve_csms_reservations.Prelude.{◌≡◌, refl, sym, subst, String, Option, none, some}
use maeve_csms_reservations.Prelude.Dict.{lookup}
use maeve_csms_reservations.Transport.{
  MessageType, call, call_result, call_error, ErrorCode, Message, GoError, as_error, wrapped,
  new_error_message, Outcome, returned, failed, Effect, ◌>>=◌, bind, wrap,
}
use maeve_csms_reservations.Handlers.Router.{
  Codec, CallRoute, Router, checked, with_code, required, in_text, result_message, send_result,
  marshalled, reply, unmarshalled, handle_call, route_call, route_as, route, error_message, report,
  after_route, handle,
}

-- What holds of every way in which the two steps may end holds of them one after the other.
module _ {W : Type 0} where
  abbrev pub Ends : {A : Type 0} → (Outcome A → W → Type 0) → Effect W A → W → Type 0
  Ends P m w = P (m w).0 (m w).1

  pub after_Ends :
      {A B : Type 0} (P : Outcome B → W → Type 0) (o : Outcome A) (f : A → Effect W B) (v : W)
      → ((e : GoError) → P (failed e) v)
      → ((a : A) → Ends P (f a) v)
      → P (bind o f v).0 (bind o f v).1
  after_Ends P (returned a) f v bad good = good a
  after_Ends P (failed e) f v bad good = bad e

  pub checked-Ends :
      {B : Type 0} (P : Outcome B → W → Type 0) (before : String) (o : Option GoError)
      (f : Unit {0} → Effect W B) (w : W)
      → ((e : GoError) → P (failed e) w)
      → Ends P (f tt) w
      → Ends P (checked before o >>= f) w
  checked-Ends P before none f w bad good = good
  checked-Ends P before (some e) f w bad good = bad (wrapped before e)

  required-Ends :
      {A B : Type 0} (P : Outcome B → W → Type 0) (action : String) (o : Option A)
      (f : A → Effect W B) (w : W)
      → ((e : GoError) → P (failed e) w)
      → ((a : A) → Ends P (f a) w)
      → Ends P (required action o >>= f) w
  required-Ends P action none f w bad good = bad _
  required-Ends P action (some a) f w bad good = good a

  pub in_text-Ends :
      {A B : Type 0} (P : Outcome B → W → Type 0) (before : String) (o : Outcome A)
      (f : A → Effect W B) (w : W)
      → ((e : GoError) → P (failed e) w)
      → ((a : A) → Ends P (f a) w)
      → Ends P (in_text before o >>= f) w
  in_text-Ends P before (returned a) f w bad good = good a
  in_text-Ends P before (failed e) f w bad good = bad _

-- The message answers the other one, with the type.
abbrev pub IsAnswer : MessageType → Message → Message → Type 0
IsAnswer type message m =
    (m.message_type ≡ type) × (m.action ≡ message.action) × (m.message_id ≡ message.message_id)

module _ {Request Response W : Type 0} (router : Router Request Response W) where
  -- The handler of the call has not run, or once.
  pub data Handled (id : String) (message : Message) (w : W) : W → Type 0 where
    not_run : Handled id message w w
    run :
        (found : CallRoute Request Response W) (req : Request)
        → lookup message.action router.call_routes ≡ some found
        → Handled id message w (found.handle_call id req w).1

  -- Behind the handler one answer is sent, or the sending of a result fails and an error is sent.
  pub data Answered (id : String) (message : Message) (w : W) : W → Type 0 where
    answered :
        {v u : W} (m : Message)
        → Handled id message w v
        → IsAnswer call_result message m
        → router.emit id m v ≡ (returned tt, u)
        → Answered id message w u
    refused :
        {v : W} (m : Message)
        → Handled id message w v
        → IsAnswer call_error message m
        → Answered id message w (router.emit id m v).1
    not_sent :
        {v u : W} (m n : Message) (e : GoError)
        → Handled id message w v
        → IsAnswer call_result message m
        → router.emit id m v ≡ (failed e, u)
        → IsAnswer call_error message n
        → Answered id message w (router.emit id n u).1

error_message-IsAnswer :
    (message : Message) (e : GoError) (found : Option (ErrorCode × GoError))
    → IsAnswer call_error message (error_message message e found)
unfolding new_error_message
error_message-IsAnswer message e none = (refl, refl, refl)
error_message-IsAnswer message e (some (code, inner)) = (refl, refl, refl)

module _ {Request Response W : Type 0} (codec : Codec Request Response)
    (router : Router Request Response W) (id : String) (message : Message) where
  report-Answered :
      {w v : W} (e : GoError)
      → message.message_type ≡ call
      → Handled router id message w v
      → Answered router id message w (report codec router message.message_type id message e v)
  report-Answered {w} {v} e is h =
      subst (λ t. Answered router id message w (report codec router t id message e v)) (sym is)
        (refused (error_message message e (as_error e)) h
          (error_message-IsAnswer message e (as_error e)))

  send_result-Answered :
      {w v : W} (response_json before : String) (o : Outcome {0} Unit) (u : W)
      → message.message_type ≡ call
      → Handled router id message w v
      → router.emit id (result_message message response_json) v ≡ (o, u)
      → Answered router id message w (after_route codec router id message (wrap before o) u)
  send_result-Answered response_json before (returned done) u is h e =
      answered (result_message message response_json) h (refl, refl, refl) e
  send_result-Answered {w} response_json before (failed why) u is h e =
      let n = error_message message (wrapped before why) (as_error why) in
      subst
        (λ t.
          Answered router id message w (report codec router t id message (wrapped before why) u))
        (sym is)
        (not_sent (result_message message response_json) n why h (refl, refl, refl) e
          (error_message-IsAnswer message (wrapped before why) (as_error why)))

  abbrev AnsweredBy : W → Outcome {0} Unit → W → Type 0
  AnsweredBy w o v = Answered router id message w (after_route codec router id message o v)

  reply-Answered :
      (w v : W) (answer : Option Response)
      → message.message_type ≡ call
      → Handled router id message w v
      → Ends (AnsweredBy w) (reply codec router id message answer) v
  reply-Answered w v answer is h =
      required-Ends (AnsweredBy w) message.action answer
        (λ resp. marshalled codec router message resp >>= send_result codec router id message) v
        (λ e. report-Answered e is h)
        (λ resp.
          after_Ends (AnsweredBy w) (marshalled codec router message resp v).0
            (send_result codec router id message) v (λ e. report-Answered e is h)
            (λ response_json.
              send_result-Answered response_json "sending call response" _ _ is h refl))

  handle_call-Answered :
      (found : CallRoute Request Response W) (w : W)
      → lookup message.action router.call_routes ≡ some found
      → message.message_type ≡ call
      → Ends (AnsweredBy w) (handle_call codec router id message found) w
  handle_call-Answered found w is_found is =
      after_Ends (AnsweredBy w) (unmarshalled codec router message found.new_request w).0
        (λ req. found.handle_call id req >>= reply codec router id message) w
        (λ e. report-Answered e is not_run)
        (λ req.
          let handled = run found req is_found in
          after_Ends (AnsweredBy w) (found.handle_call id req w).0 (reply codec router id message)
            (found.handle_call id req w).1 (λ e. report-Answered e is handled)
            (λ answer. reply-Answered w (found.handle_call id req w).1 answer is handled))

  route_call-Answered :
      (found : Option (CallRoute Request Response W)) (w : W)
      → lookup message.action router.call_routes ≡ found
      → message.message_type ≡ call
      → Ends (AnsweredBy w) (route_call codec router id message found) w
  route_call-Answered none w is_found is = report-Answered _ is not_run
  route_call-Answered (some found) w is_found is =
      checked-Ends (AnsweredBy w) _
        (with_code (codec.validate message.request_payload found.request_schema))
        (λ _. handle_call codec router id message found) w (λ e. report-Answered e is not_run)
        (handle_call-Answered found w is_found is)

  -- A call gets one answer with its action and message id, a result or an error, and a second one,
  -- an error, only if the emitter fails to send the result; its handler has run before, once or not
  -- at all.
  pub handle-Answered :
      (w : W)
      → message.message_type ≡ call
      → Answered router id message w (handle codec router id message w)
  unfolding handle route
  handle-Answered w is =
      subst
        (λ t.
          AnsweredBy w (route_as codec router t id message w).0
            (route_as codec router t id message w).1)
        (sym is) (route_call-Answered (lookup message.action router.call_routes) w refl is)
