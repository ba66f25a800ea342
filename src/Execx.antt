-- ===== src/Execx.antt =====
-- sdk-ts/src/execx.ts: the opcodes, the interrupt, and the execution context with its memo keys.
pub mod Keys
pub mod Ordering
use triggerlink.Prelude.{
  ℕ, suc, ◌+◌, Option, List, [], ◌∷◌, ◌++◌, Text, txt, lookup, insert, or_else, Bool,
}
use triggerlink.Prelude.Decimal.{print}
use triggerlink.Value.{Value, Number}

-- What the code calls outside the repository, and what depends on the host: node:crypto's SHA-256
-- and HMAC as lower-case hexadecimal digests, the parsing and the ISO print of a date, `Number` on
-- a text that is not all digits, the decoding and parsing of a JSON body (`none` where it throws),
-- what a template prints of the quotient of an integer from 10^15 on by 1000, which is a rounded double,
-- and the stack that an `Error` of a given message is made with.
pub record Host : Type 0 where
  pub sha256_hex : Text → Text
  pub hmac_hex : (key : Text) → (message : List ℕ) → Text
  pub stack : Text → Text
  pub parse_date : Text → Number
  pub iso : Number → Text
  pub other_number : Text → Number
  pub large_quotient : ℕ → Text
  pub parse_json : List ℕ → Option Value

pub record StepState : Type 0 where
  pub id : Text
  pub status : Text
  pub output : Value

pub record OpError : Type 0 where
  pub message : Text
  pub stack : Option Text
  pub retryable : Bool

pub record OutgoingEvent : Type 0 where
  pub id : Option Text
  pub name : Text
  pub body : Value  -- `data`
  pub ts : Option Text

-- One constructor for each `op`, with the fields that the SDK sets for it.
pub data Opcode : Type 0 where
  step_complete : (id step_id : Text) (output : Value) → Opcode
  step_error : (id step_id : Text) (error : OpError) → Opcode
  run_complete : (output : Value) → Opcode
  run_error : (error : OpError) → Opcode
  sleep : (id step_id until : Text) → Opcode
  send_event : (id step_id : Text) (events : List OutgoingEvent) → Opcode
  wait_for_event : (id step_id event : Text) (match timeout : Option Text) → Opcode

-- What a function of the program may throw: a `StepInterrupt`, another `Error`, or a value that is
-- no `Error`, of which only its `String()` is read.
pub data Thrown : Type 0 where
  interrupt : Opcode → Thrown
  error : (message : Text) (stack : Option Text) → Thrown
  other : (shown : Text) → Thrown

pub record ExecCtx : Type 0 where
  pub function_id : Text
  pub steps : List (Text × StepState)
  pub counters : List (Text × ℕ)

unfoldable pub new_ctx : Text → Option (List (Text × StepState)) → ExecCtx
new_ctx function_id steps = record {
  function_id = function_id;
  steps = or_else steps [];
  counters = [];
}

-- the template of `nextHash`
unfoldable pub hash_input : Text → Text → ℕ → Text
hash_input function_id step_id n = function_id ++ (b':' ∷ (step_id ++ (b':' ∷ print n)))

unfoldable pub count_of : Text → ExecCtx → ℕ
count_of step_id ec = or_else (lookup step_id ec.counters) 0

unfoldable pub next_hash : Host → Text → ExecCtx → Text × ExecCtx
unfolding count_of
next_hash host step_id ec =
    let n = count_of step_id ec in
    (
      host.sha256_hex (hash_input ec.function_id step_id n),
      record ec { counters = insert step_id (n + 1) ec.counters },
    )
