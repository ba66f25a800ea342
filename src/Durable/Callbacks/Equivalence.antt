-- ===== src/Durable/Callbacks/Equivalence.antt =====
-- A run of signed callbacks against the workflow's direct execution (POST of sdk-ts/src/serve.ts).
use triggerlink.Prelude.{
  ℕ, zero, suc, ◌≡◌, ◌∙◌, refl, Option, none, some, List, [], ◌∷◌, Text, txt, lookup, ◌==◌,
}
use triggerlink.Value.{Value, obj, prop}
use triggerlink.Execx.{Host, StepState, Opcode}
use triggerlink.Sign.{sign}
use triggerlink.Sign.Verdicts.{HasHexDigests, verify-sign_iff}
use triggerlink.Function.{HandlerContext, TriggerFunction}
use triggerlink.Registry.{Registry}
use triggerlink.Client.{Client}
use triggerlink.Serve.{
  Body, Response, Request, max_body, step_state, step_states, steps_of, given_value, invoke,
  call_function, post,
}
use triggerlink.Serve
use triggerlink.Serve.Verdicts.{post-IsAccepted}
use triggerlink.Serve.Wire.{HasJson}
use triggerlink.Serve.Wire.RoundTrip.{read-opcode_value}
use triggerlink.Durable.{Platform, drive, react}
use triggerlink.Durable.Callbacks.{
  memo_fields, events_field, ctx_value, callback_value, attempt_of, IsCarried, heed, drive_signed,
  IsGiven, Onward, AreCarried, Clock,
}

step_states_memo : (steps : List (Text × StepState)) → step_states (memo_fields steps) ≡ steps
unfolding step_states step_state prop ◌==◌
step_states_memo [] = refl
step_states_memo ((h, memo) ∷ steps) = rw (step_states_memo steps)

given_field :
    (events : Option Value)
    → IsGiven events
    → given_value (prop (txt "events") (obj (events_field events))) ≡ events
unfolding prop ◌==◌
given_field none given = refl
given_field (some v) given = rw given

given_events :
    (f : Text) (context : HandlerContext) (steps : List (Text × StepState))
    → IsGiven context.events
    → given_value (prop (txt "events") (ctx_value f context steps)) ≡ context.events
unfolding prop ◌==◌
given_events f context steps given = given_field context.events given

module _ {W : Type 0} where
  -- A callback's context is read back as it was written.
  call_function-ctx_value :
      (tf : TriggerFunction W) (f : Text) (context : HandlerContext)
      (steps : List (Text × StepState)) (w : W)
      → IsGiven context.events
      → call_function tf f (ctx_value f context steps) w ≡ (
          let (op, w') = invoke tf f (some steps) context w in
          (record { status = 200; body = Serve.opcode op }, w'))
  unfolding call_function steps_of prop ◌==◌
  call_function-ctx_value tf f context steps w given =
      rw (step_states_memo steps, given_events f context steps given)

  react-Onward :
      (platform : Platform W) (P : List (Text × StepState) → W → Type 0)
      (one other : List (Text × StepState) → W → Option (Value × W))
      → ((steps : List (Text × StepState)) (w : W) → P steps w → one steps w ≡ other steps w)
      → (steps : List (Text × StepState)) (op : Opcode) (w : W) → Onward platform P steps (op, w)
      → react platform one steps (op, w) ≡ react platform other steps (op, w)
  react-Onward platform P one other same steps (Opcode.run_complete output) w on = refl
  react-Onward platform P one other same steps (Opcode.step_complete h id output) w on = same _ w on
  react-Onward platform P one other same steps (Opcode.step_error h id e) w on = same _ w on
  react-Onward platform P one other same steps (Opcode.run_error e) w on = same _ w on
  react-Onward platform P one other same steps (Opcode.sleep h id until) w on = same _ _ on
  react-Onward platform P one other same steps (Opcode.send_event h id events) w on = same _ _ on
  react-Onward platform P one other same steps (Opcode.wait_for_event h id event m t) w on =
      same _ _ on

  heed_opcode :
      (platform : Platform W) (P : List (Text × StepState) → W → Type 0)
      (one other : List (Text × StepState) → W → Option (Value × W))
      → ((steps : List (Text × StepState)) (w : W) → P steps w → one steps w ≡ other steps w)
      → (steps : List (Text × StepState)) (op : Opcode) (w : W) → Onward platform P steps (op, w)
      → HasJson op
      → heed platform one steps (Serve.opcode op) w ≡ react platform other steps (op, w)
  heed_opcode platform P one other same steps op w on json =
      rw ((read-opcode_value op).1 json) (react-Onward platform P one other same steps op w on)

module _ {W : Type 0} (platform : Platform W) (host : Host) (encode : Value → List ℕ)
    (clock : Clock) (client : Client) (reg : Registry W) (f : Text) (tf : TriggerFunction W)
    (digests : HasHexDigests host) (found : lookup f reg ≡ some tf) where
  -- A carried callback is one call of the handler.
  post-IsCarried :
      (context : HandlerContext) (n : ℕ) (steps : List (Text × StepState)) (w : W)
      → IsCarried host encode f context steps
      → IsGiven context.events
      → let body = encode (callback_value f context steps) in
        let signature = some (sign host client.signing_key body (clock.sent n)) in
        let (op, w') = invoke tf f (some steps) context w in
        post host client reg (record { signature = signature; body = body }) (clock.received n) w
        ≡ (record { status = 200; body = Serve.opcode op }, w')
  unfolding prop ◌==◌
  post-IsCarried context n steps w carried given =
      post-IsAccepted host client reg _ _ w (record {
        request = callback_value f context steps;
        id = f;
        fn = tf;
        fits = carried.fits;
        verified = (verify-sign_iff host _ _ _ _ digests).1 (clock.timely n);
        parsed = carried.parsed;
        named = refl;
        found = found;
      })
      ∙ call_function-ctx_value tf f context steps w given

  module _ (context : HandlerContext)
      (same : (n : ℕ) → tf.handler (attempt_of n context) ≡ tf.handler (attempt_of 0 context)) where
    -- The handler does not read the number of the attempt.
    invoke-attempt_of :
        (n : ℕ) (steps : List (Text × StepState)) (w : W)
        → invoke tf f (some steps) (attempt_of 0 context) w
          ≡ invoke tf f (some steps) (attempt_of n context) w
    unfolding invoke
    invoke-attempt_of n steps w = rw (same n)

    pub drive_signed-AreCarried :
        (fuel n : ℕ) (steps : List (Text × StepState)) (w : W)
        → IsGiven context.events
        → AreCarried platform host encode f tf context fuel n steps w
        → drive_signed platform host encode clock.sent clock.received client reg f context fuel n
            steps w
          ≡ drive platform fuel tf f (attempt_of 0 context) steps w
    unfolding drive_signed drive AreCarried
    drive_signed-AreCarried zero n steps w given carried = refl
    drive_signed-AreCarried (suc fuel) n steps w given (here, json, on) =
        rw (post-IsCarried (attempt_of n context) n steps w here given, invoke-attempt_of n steps w)
          (heed_opcode platform _ _ _
            (λ steps' w' c. drive_signed-AreCarried fuel (suc n) steps' w' given c) steps _ _ on
            json)
