-- ===== src/Serve.antt =====
-- sdk-ts/src/serve.ts: the handlers of GET (introspection) and POST (execution callback).
pub mod Verdicts
pub mod Reporting
pub mod Wire
use triggerlink.Prelude.{
  ℕ, ◌*◌, ◌^◌, Option, none, some, List, [], ◌∷◌, Bool, true, false, not, Text, txt, ◌==◌, lookup,
  length, ltb, if◌then◌else◌,
}
use mathlib.Core.Option
use triggerlink.Value.{
  Value, undefined, null, str, obj, Fields, end, field, prop, truthy, is_nullish,
}
use triggerlink.Execx.{Host, StepState, OpError, Opcode, Thrown, interrupt, ExecCtx, new_ctx}
use triggerlink.Effects.{Outcome, returned, threw, State, Exec}
use triggerlink.Step.{err_message}
use triggerlink.Sign.{verify_signature}
use triggerlink.Client.{Client}
use triggerlink.Function.{HandlerContext, TriggerFunction}
use triggerlink.Registry.{Registry}
use triggerlink.Manifest.{Manifest, manifest_of}

-- A request: the value of the header `x-triggerlink-signature`, and the bytes of the body.
pub record Request : Type 0 where
  pub signature : Option Text
  pub body : List ℕ

pub data Body : Type 0 where
  error : Text → Body
  manifest : Manifest → Body
  opcode : Opcode → Body

pub record Response : Type 0 where
  pub status : ℕ
  pub body : Body

abbrev pub max_body : ℕ
max_body = 10 * 2 ^ 20

abbrev pub refuse : ℕ → Text → Response
refuse status why = record { status = status; body = error why }

-- `memo.status` and `memo.output`, as the code reads them of a memo of the request
abbrev text_of : Value → Text
text_of (str s) = s
text_of v = []

unfoldable pub step_state : Value → StepState
step_state memo = record {
  id = text_of (prop (txt "id") memo);
  status = text_of (prop (txt "status") memo);
  output = prop (txt "output") memo;
}

unfoldable pub step_states : Fields → List (Text × StepState)
unfolding step_state
step_states end = []
step_states (field h memo fs) = (h, step_state memo) ∷ step_states fs

-- `ctx.steps ?? {}`, read by memo keys only
unfoldable pub steps_of : Value → Option (List (Text × StepState))
unfolding step_states
steps_of (obj fs) = some (step_states fs)
steps_of v = none

-- `...(events ? { events } : {})`
abbrev pub given_value : Value → Option Value
given_value v = if truthy v then some v else none

-- the `try` and `catch` around the handler
unfoldable pub opcode_of : Outcome Value → Opcode
unfolding err_message
opcode_of (returned output) = Opcode.run_complete output
opcode_of (threw (interrupt op)) = op
opcode_of (threw e) =
    Opcode.run_error (record { message = err_message e; stack = none; retryable = true })

module _ {W : Type 0} where
  -- One call of a handler, in a fresh execution context.
  unfoldable pub invoke :
      TriggerFunction W → Text → Option (List (Text × StepState)) → HandlerContext → W → Opcode × W
  unfolding opcode_of
  invoke fn function_id steps context w =
      let (result, s) =
        fn.handler context (record { ec = new_ctx function_id steps; claims = []; world = w }) in
      (opcode_of result, s.world)

  unfoldable pub call_function : TriggerFunction W → Text → Value → W → Response × W
  unfolding invoke steps_of
  call_function fn function_id ctx w =
      let context : HandlerContext = record {
        event = prop (txt "event") ctx;
        events = given_value (prop (txt "events") ctx);
        run_id = prop (txt "run_id") ctx;
        attempt = prop (txt "attempt") ctx;
      } in
      let (op, w') = invoke fn function_id (steps_of (prop (txt "steps") ctx)) context w in
      (record { status = 200; body = opcode op }, w')

  -- `byID.get(cbReq?.ctx?.function_id)`: the keys are texts
  unfoldable pub find_function : Registry W → Value → Option (Text × TriggerFunction W)
  find_function reg (str id) = Option.map (λ fn. (id, fn)) (lookup id reg)
  find_function reg v = none

  abbrev answer_found : Option (Text × TriggerFunction W) → Value → W → Response × W
  answer_found none ctx w = (refuse 404 (txt "function not found"), w)
  answer_found (some (id, fn)) ctx w = call_function fn id ctx w

  unfoldable pub dispatch : Registry W → Value → W → Response × W
  dispatch reg request w =
      let ctx = prop (txt "ctx") request in
      answer_found (find_function reg (prop (txt "function_id") ctx)) ctx w

  abbrev answer_parsed : Registry W → Option Value → W → Response × W
  answer_parsed reg none w = (refuse 400 (txt "invalid request"), w)
  answer_parsed reg (some request) w = dispatch reg request w

abbrev report : Outcome Manifest → Outcome Response
report (returned m) = returned (record { status = 200; body = manifest m })
report (threw e) = threw e

module _ (host : Host) (client : Client) {W : Type 0} (reg : Registry W) where
  -- `now` is the reading of Date.now()
  unfoldable pub get : Request → (now : ℕ) → Outcome Response
  get req now =
      if not (verify_signature host client.signing_key req.signature [] now)
      then returned (refuse 401 (txt "unauthorized"))
      else report (manifest_of host client.id reg)

  unfoldable pub post : Request → (now : ℕ) → W → Response × W
  post req now w =
      if ltb max_body (length req.body)
      then (refuse 400 (txt "body too large"), w)
      else if not (verify_signature host client.signing_key req.signature req.body now)
      then (refuse 401 (txt "unauthorized"), w)
      else answer_parsed reg (host.parse_json req.body) w
