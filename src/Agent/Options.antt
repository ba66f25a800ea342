-- ===== src/Agent/Options.antt =====
-- The options of an agent, and `createAgent` of sdk-ts/src/agent.ts.
pub mod Creation
use triggerlink.Prelude.{
  ℕ, zero, suc, Option, none, some, List, [], ◌∷◌, Bool, true, false, not, ◌||◌, Text, txt,
  is_empty, nat_eq, or_else, if◌then◌else◌,
}
use triggerlink.Value.{Number, nat, Value, Values}
use triggerlink.Execx.{Host}
use triggerlink.Effects.{Outcome, returned, threw, new_error, Exec}

-- `parse` is the zod schema's: the value that the handler gets, or an error.
pub record AgentTool (W : Type 0) : Type 0 where
  pub description : Text
  pub parse : Value → Outcome Value
  pub handler : Value → Exec W Value

pub data StepKind : Type 0 where
  llm tool : StepKind

pub record RedactCtx : Type 0 where
  pub kind : StepKind
  pub iteration : ℕ
  pub tool_name : Option Text

pub record PrepareMessagesCtx : Type 0 where
  pub messages : List Value
  pub iteration : ℕ
  pub previous_usage : Option Value

pub record AgentIterationResult : Type 0 where
  pub text : Value
  pub output : Value
  pub tool_calls : Value
  pub usage : Value

-- What generateText is called with, beside the model and the tools, and what the loop reads of its
-- result; the tool calls are objects with `toolCallId`, `toolName` and `input`.
pub record GenerateArgs : Type 0 where
  pub system : Option Text
  pub messages : List Value
  pub max_output_tokens : Option Number

pub record LlmResponse : Type 0 where
  pub text : Text
  pub tool_calls : List Value
  pub response_messages : Values
  pub input_tokens : Value
  pub output_tokens : Value

-- `generate` is generateText with the model and the tools of the options; `has_model` says whether a
-- model is given. Hooks may throw.
pub record AgentOpts (W : Type 0) : Type 0 where
  pub name : Text
  pub has_model : Bool
  pub generate : GenerateArgs → Exec W LlmResponse
  pub system : Option Text
  pub tools : List (Text × AgentTool W)
  pub max_iterations : Option Number
  pub max_output_tokens : Option Number
  pub prepare_messages : Option (PrepareMessagesCtx → Outcome Value)
  pub redact : Option (Value → RedactCtx → Outcome Value)
  pub on_response : Option (AgentIterationResult → ℕ → Exec W (Unit {0}))

-- An agent that has been created; `identity` tells the objects of one name apart.
pub record Agent (W : Type 0) : Type 0 where
  pub identity : ℕ
  pub opts : AgentOpts W
  pub max_iterations : ℕ

-- s.includes(c)
has_char : ℕ → Text → Bool
has_char c [] = false
has_char c (d ∷ s) = nat_eq d c || has_char c s

-- `Number.isInteger(n) && n >= 1`, with the number
abbrev positive : Number → Option ℕ
positive (nat (suc n)) = some (suc n)
positive n = none

module _ (host : Host) {W : Type 0} where
  -- `has_parameters` and `has_handler` say whether the fields of `def` are there.
  unfoldable create_tool : AgentTool W → (has_parameters has_handler : Bool) → Outcome (AgentTool W)
  create_tool def has_parameters has_handler =
      if is_empty def.description
      then threw (new_error host (txt "createTool: description is required"))
      else if not has_parameters
      then threw (new_error host (txt "createTool: parameters is required"))
      else if not has_handler
      then threw (new_error host (txt "createTool: handler is required"))
      else returned def

  abbrev with_limit : ℕ → AgentOpts W → Option ℕ → Outcome (Agent W)
  with_limit identity opts none =
      threw (new_error host (txt "createAgent: maxIterations must be a positive integer"))
  with_limit identity opts (some n) =
      returned (record { identity = identity; opts = opts; max_iterations = n })

  -- the check of `maxOutputTokens`, before what follows it
  abbrev check_tokens : Option Number → Outcome (Agent W) → Outcome (Agent W)
  check_tokens none made = made
  check_tokens (some n) made = elim (positive n) [
    | none ↦ threw (new_error host (txt "createAgent: maxOutputTokens must be a positive integer"))
    | some tokens ↦ made
  ]

  -- the check of `maxIterations` comes first
  abbrev check_limits : Outcome (Agent W) → Option Number → Outcome (Agent W)
  check_limits (threw e) tokens = threw e
  check_limits (returned agent) tokens = check_tokens tokens (returned agent)

  unfoldable pub create_agent : (identity : ℕ) → AgentOpts W → Outcome (Agent W)
  unfolding has_char
  create_agent identity opts =
      if is_empty opts.name || has_char b'/' opts.name
      then threw (new_error host (txt "createAgent: name is required and must not contain \"/\""))
      else if not opts.has_model
      then threw (new_error host (txt "createAgent: model is required"))
      else check_limits (with_limit identity opts (positive (or_else opts.max_iterations (nat 10))))
          opts.max_output_tokens
