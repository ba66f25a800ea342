-- ===== src/Durable/Callbacks.antt =====
-- The callbacks of a run as they travel: signed requests to POST of sdk-ts/src/serve.ts, with the memos in
-- their bodies, by docs/protocol.md (sections 2, 4 and 5).
pub mod Equivalence
use triggerlink.Prelude.{
  ℕ, zero, suc, ◌/◌, ◌≤◌, ◌≡◌, ◌∙◌, refl, Option, none, some, List, [], ◌∷◌, true, Text, txt,
  insert, lookup, length, ◌==◌,
}
use triggerlink.Value.{num, nat, Value, str, obj, Fields, field, end, prop, truthy}
use triggerlink.Execx.{Host, StepState, Opcode}
use triggerlink.Execx.Keys.{CollisionFree}
use triggerlink.Sign.{sign}
use triggerlink.Sign.Verdicts.{HasHexDigests, IsTimely, verify-sign_iff}
use triggerlink.Function.{HandlerContext, TriggerFunction}
use triggerlink.Registry.{Registry}
use triggerlink.Client.{Client}
use triggerlink.Serve.{
  Body, Response, Request, max_body, step_state, step_states, steps_of, given_value, invoke,
  call_function, post,
}
use triggerlink.Serve
use triggerlink.Serve.Verdicts.{post-IsAccepted}
use triggerlink.Serve.Wire.{opcode_value, read_opcode, HasJson}
use triggerlink.Serve.Wire.RoundTrip.{read-opcode_value}
use triggerlink.Durable.{
  Platform, reply, sleeping, sending, waiting, memo, Flow, handler_of, direct, drive, react,
}
use triggerlink.Durable.Refinement.{drive-eq-direct}

-- the memos as the body has them
abbrev memo_fields : List (Text × StepState) → Fields
memo_fields [] = end
memo_fields ((h, memo) ∷ steps) =
    field h
      (obj (
        field (txt "id") (str memo.id)
          (field (txt "status") (str memo.status) (field (txt "output") memo.output end))))
      (memo_fields steps)

abbrev events_field : Option Value → Fields
events_field none = end
events_field (some v) = field (txt "events") v end

-- the `ctx` of a callback
abbrev pub ctx_value : Text → HandlerContext → List (Text × StepState) → Value
ctx_value f context steps = obj (
    field (txt "run_id") context.run_id (
      field (txt "function_id") (str f) (
        field (txt "attempt") context.attempt (
          field (txt "event") context.event
            (field (txt "steps") (obj (memo_fields steps)) (events_field context.events))))))

abbrev pub callback_value : Text → HandlerContext → List (Text × StepState) → Value
callback_value f context steps = obj (field (txt "ctx") (ctx_value f context steps) end)

-- `attempt` counts the callbacks of a run from 1
abbrev pub attempt_of : ℕ → HandlerContext → HandlerContext
attempt_of n context = record context { attempt = num (nat (suc n)) }

-- The callback with these memos fits the limit on bodies, and its bytes parse to its value.
pub record IsCarried (host : Host) (encode : Value → List ℕ) (f : Text) (context : HandlerContext)
    (steps : List (Text × StepState)) : Type 0 where
  pub fits : length (encode (callback_value f context steps)) ≤ max_body
  pub parsed :
      host.parse_json (encode (callback_value f context steps))
      ≡ some (callback_value f context steps)

module _ {W : Type 0} where
  -- What the platform makes of the body of a response: it reads an opcode, and takes anything else for a
  -- callback that failed, which it makes again.
  abbrev heed_read :
      Platform W
      → (List (Text × StepState) → W → Option (Value × W))
      → List (Text × StepState)
      → Option Opcode
      → W
      → Option (Value × W)
  heed_read platform again steps (some op) w = react platform again steps (op, w)
  heed_read platform again steps none w = again steps w

  abbrev heed :
      Platform W
      → (List (Text × StepState) → W → Option (Value × W))
      → List (Text × StepState)
      → Body
      → W
      → Option (Value × W)
  heed platform again steps (Serve.opcode op) w =
      heed_read platform again steps (read_opcode (opcode_value op)) w
  heed platform again steps body w = again steps w

  -- A run of at most `fuel` callbacks. Callback `n` is signed at `sent n` and checked at `received n`;
  -- `encode` writes a value as the bytes of its JSON text.
  unfoldable pub drive_signed :
      (platform : Platform W) (host : Host) (encode : Value → List ℕ) (sent received : ℕ → ℕ)
      (client : Client) (reg : Registry W) (f : Text) (context : HandlerContext)
      → (fuel n : ℕ) → List (Text × StepState)
      → W
      → Option (Value × W)
  drive_signed platform host encode sent received client reg f context zero n steps w = none
  drive_signed platform host encode sent received client reg f context (suc fuel) n steps w =
      let body = encode (callback_value f (attempt_of n context) steps) in
      let signature = some (sign host client.signing_key body (sent n)) in
      let (resp, w') =
        post host client reg (record { signature = signature; body = body }) (received n) w in
      heed platform
        (λ steps' v.
          drive_signed platform host encode sent received client reg f context fuel (suc n) steps'
            v)
        steps resp.body w'

-- `ctx.events` is left out, or it is a value that `if (events)` takes
abbrev pub IsGiven : Option Value → Type 0
IsGiven none = Unit
IsGiven (some v) = truthy v ≡ true

module _ {W : Type 0} where
  -- A predicate of the memos and the world of the next callback, where there is one.
  abbrev pub Onward :
      Platform W
      → (List (Text × StepState) → W → Type 0)
      → List (Text × StepState)
      → Opcode × W
      → Type 0
  Onward platform P steps (Opcode.step_complete h id output, w) =
      P (insert h (record { id = id; status = txt "completed"; output = output }) steps) w
  Onward platform P steps (Opcode.step_error h id e, w) = P steps w
  Onward platform P steps (Opcode.run_error e, w) = P steps w
  Onward platform P steps (Opcode.sleep h id until, w) =
      let (v, w') = reply platform (sleeping until) w in P (insert h (memo id v) steps) w'
  Onward platform P steps (Opcode.send_event h id events, w) =
      let (v, w') = reply platform (sending events) w in P (insert h (memo id v) steps) w'
  Onward platform P steps (Opcode.wait_for_event h id event match timeout, w) =
      let (v, w') = reply platform (waiting event match timeout) w in
      P (insert h (memo id v) steps) w'
  Onward platform P steps (Opcode.run_complete output, w) = Unit

  -- Each of the next callbacks is carried, and the values of its answer are JSON's.
  unfoldable pub AreCarried :
      (platform : Platform W) (host : Host) (encode : Value → List ℕ) (f : Text)
      (tf : TriggerFunction W) (context : HandlerContext)
      → (fuel n : ℕ) → List (Text × StepState)
      → W
      → Type 0
  AreCarried platform host encode f tf context zero n steps w = Unit
  AreCarried platform host encode f tf context (suc fuel) n steps w =
      IsCarried host encode f (attempt_of n context) steps
      × HasJson (invoke tf f (some steps) (attempt_of n context) w).0
      × Onward platform
          (λ steps' w'. AreCarried platform host encode f tf context fuel (suc n) steps' w') steps
          (invoke tf f (some steps) (attempt_of n context) w)

-- When the callbacks of a run are sent and received, within the window of their signatures.
pub record Clock : Type 0 where
  pub sent : ℕ → ℕ
  pub received : ℕ → ℕ
  pub timely : (n : ℕ) → IsTimely (received n) (sent n / 1000)
