-- ===== src/Handlers/Router/Results.antt =====
-- manager/handlers/router.go: what a message that is no call leads to.
use maeve_csms_reservations.Prelude.{
  ◌≡◌, refl, ◌∙◌, sym, ap, subst, inl, inr, ◌≢◌, String, Option, none, some, is_some, true,
  Option-cases, arith,
}
use maeve_csms_reservations.Prelude.Dict.{lookup}
use maeve_csms_reservations.Transport.{
  MessageType, call, call_result, call_error, other, Message, GoError, Outcome, returned, failed,
  ◌>>=◌,
}
use maeve_csms_reservations.Handlers.Router.{
  Codec, CallResultRoute, Router, with_code, unmarshalled, response_unmarshalled,
  handle_call_result, response_checked, route_call_result, route_as, route, report, after_route,
  handle,
}
use maeve_csms_reservations.Handlers.Router.Replies.{Ends, after_Ends, checked-Ends, in_text-Ends}

module _ {Request Response W : Type 0} (router : Router Request Response W) where
  -- The handler of the call's result has not run, or once.
  pub data Settled (id : String) (message : Message) (w : W) : W → Type 0 where
    unsettled : Settled id message w w
    settled :
        (found : CallResultRoute Request Response W) (req : Request) (resp : Response)
        → lookup message.action router.call_result_routes ≡ some found
        → Settled id message w (found.handle_call_result id req resp message.state w).1

module _ {Request Response W : Type 0} (codec : Codec Request Response)
    (router : Router Request Response W) (id : String) (message : Message) where
  report-kept :
      (type : MessageType) (e : GoError) (v : W)
      → type ≢ call
      → report codec router type id message e v ≡ v
  report-kept call e v no_call = absurd (no_call refl)
  report-kept call_result e v no_call = refl
  report-kept call_error e v no_call = refl
  report-kept (other n) e v _ = refl

  after_route-kept :
      (o : Outcome {0} Unit) (v : W)
      → message.message_type ≢ call
      → after_route codec router id message o v ≡ v
  after_route-kept (returned done) v no_call = refl
  after_route-kept (failed e) v no_call = report-kept message.message_type e v no_call

  abbrev SettledBy : W → Outcome {0} Unit → W → Type 0
  SettledBy w o v = Settled router id message w v

  handle_call_result-Settled :
      (found : CallResultRoute Request Response W) (w : W)
      → lookup message.action router.call_result_routes ≡ some found
      → Ends (SettledBy w) (handle_call_result codec router id message found) w
  handle_call_result-Settled found w is_found =
      after_Ends (SettledBy w) (unmarshalled codec router message found.new_request w).0
        (λ req. response_unmarshalled codec router message found.new_response >>= λ resp.
          found.handle_call_result id req resp message.state)
        w (λ e. unsettled)
        (λ req.
          in_text-Ends (SettledBy w) _
            (codec.unmarshal_response message.response_payload found.new_response)
            (λ resp. found.handle_call_result id req resp message.state) w (λ e. unsettled)
            (λ resp. settled found req resp is_found))

  route_call_result-Settled :
      (found : Option (CallResultRoute Request Response W)) (w : W)
      → lookup message.action router.call_result_routes ≡ found
      → Ends (SettledBy w) (route_call_result codec router id message found) w
  route_call_result-Settled none w is_found = unsettled
  route_call_result-Settled (some found) w is_found =
      checked-Ends (SettledBy w) _ (codec.validate message.request_payload found.request_schema)
        (λ _. response_checked codec router id message found) w (λ e. unsettled)
        (checked-Ends (SettledBy w) _
          (with_code (codec.validate message.response_payload found.response_schema))
          (λ _. handle_call_result codec router id message found) w (λ e. unsettled)
          (handle_call_result-Settled found w is_found))

  route_as-Settled :
      (type : MessageType) (w : W)
      → type ≢ call
      → Ends (SettledBy w) (route_as codec router type id message) w
  route_as-Settled call w no_call = absurd (no_call refl)
  route_as-Settled call_result w no_call =
      route_call_result-Settled (lookup message.action router.call_result_routes) w refl
  route_as-Settled call_error w no_call = unsettled
  route_as-Settled (other n) w no_call = unsettled

  -- For a message that is no call the router sends nothing: the world is as it was, or as the
  -- handler of the call's result left it, which has run once.
  pub handle-Settled :
      (w : W)
      → message.message_type ≢ call
      → Settled router id message w (handle codec router id message w)
  unfolding handle route
  handle-Settled w no_call =
      let (o, v) = route_as codec router message.message_type id message w in
      subst (Settled router id message w) (sym (after_route-kept o v no_call))
        (route_as-Settled message.message_type w no_call)

  response_checked-invalid :
      (found : CallResultRoute Request Response W) (w : W)
      → is_some (codec.validate message.response_payload found.response_schema) ≡ true
      → (response_checked codec router id message found w).1 ≡ w
  response_checked-invalid found w bad =
      elim (Option-cases (codec.validate message.response_payload found.response_schema)) [
        | inl n ↦ cc (ap is_some n, bad)
        | inr (e, s) ↦ rw s refl
      ]

  route_call_result-invalid :
      (found : CallResultRoute Request Response W) (w : W)
      → is_some (codec.validate message.response_payload found.response_schema) ≡ true
      → (route_call_result codec router id message (some found) w).1 ≡ w
  route_call_result-invalid found w bad =
      checked-Ends (λ o v. v ≡ w) _ (codec.validate message.request_payload found.request_schema)
        (λ _. response_checked codec router id message found) w (λ e. refl)
        (response_checked-invalid found w bad)

  -- A result whose response the schema refuses does not reach its handler.
  pub handle-invalid_response :
      (found : CallResultRoute Request Response W) (w : W)
      → message.message_type ≡ call_result
      → lookup message.action router.call_result_routes ≡ some found
      → is_some (codec.validate message.response_payload found.response_schema) ≡ true
      → handle codec router id message w ≡ w
  unfolding handle route
  handle-invalid_response found w is is_found bad =
      let (o, v) = route_as codec router message.message_type id message w in
      after_route-kept o v (λ e. ground arith)
      ∙ subst (λ t. (route_as codec router t id message w).1 ≡ w) (sym is)
          (subst (λ r. (route_call_result codec router id message r w).1 ≡ w) (sym is_found)
            (route_call_result-invalid found w bad))
