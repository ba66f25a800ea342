-- ===== src/Agent/Memo.antt =====
-- What the loop of an agent in sdk-ts/src/agent.ts keeps: the memo of a model call and its shape, the
-- messages, the records of tool calls, and the usage.
use triggerlink.Prelude.{
  ℕ, Option, some, List, [], ◌∷◌, ◌++◌, Bool, true, false, ◌&&◌, Text, txt, if◌then◌else◌,
}
use triggerlink.Value.{
  nat, Value, undefined, null, num, str, arr, obj, Values, nil, cons, field, end, prop, truthy,
  is_nullish,
}
use triggerlink.Addition.{plus}
use triggerlink.Execx.{Host}
use triggerlink.Effects.{Outcome, returned, threw, new_error}
use triggerlink.Messages.{items}
use triggerlink.Agent.Options.{LlmResponse}

-- A record of one executed tool call.
pub record AgentToolCallRecord : Type 0 where
  pub tool_call_id : Value
  pub tool_name : Value
  pub input : Value
  pub output : Value

pub record AgentResult : Type 0 where
  pub text : Value
  pub iterations : ℕ
  pub input_tokens : Value
  pub output_tokens : Value
  pub tool_calls : List AgentToolCallRecord
  pub output : List Value

abbrev pub to_values : List Value → Values
to_values [] = nil
to_values (v ∷ vs) = cons v (to_values vs)

-- the three fields that are kept of a tool call of the model
abbrev pub call_object : Value → Value
call_object c = obj (
    field (txt "toolCallId") (prop (txt "toolCallId") c) (
      field (txt "toolName") (prop (txt "toolName") c)
        (field (txt "input") (prop (txt "input") c) end)))

abbrev pub call_objects : List Value → List Value
call_objects [] = []
call_objects (c ∷ cs) = call_object c ∷ call_objects cs

-- the `LlmMemo` of a response
abbrev pub memo_object : LlmResponse → Value
memo_object res = obj (
    field (txt "text") (str res.text) (
      field (txt "toolCalls") (arr (to_values (call_objects res.tool_calls))) (
        field (txt "responseMessages") (arr res.response_messages) (
          field (txt "usage")
            (obj (
              field (txt "inputTokens") res.input_tokens
                (field (txt "outputTokens") res.output_tokens end)))
            end))))

abbrev pub is_string : Value → Bool
is_string (str s) = true
is_string v = false

abbrev pub is_array : Value → Bool
is_array (arr vs) = true
is_array v = false

-- `typeof v === "object"`, of a truthy value
abbrev pub is_object : Value → Bool
is_object (arr vs) = true
is_object (obj fs) = true
is_object v = false

unfoldable pub is_llm_memo : Value → Bool
is_llm_memo o =
    truthy o
    && is_string (prop (txt "text") o)
    && is_array (prop (txt "toolCalls") o)
    && is_array (prop (txt "responseMessages") o)
    && is_object (prop (txt "usage") o)

-- `v ?? 0`
abbrev pub tokens : Value → Value
tokens undefined = num (nat 0)
tokens null = num (nat 0)
tokens v = v

abbrev pub list_of : Value → List Value
list_of (arr vs) = items vs
list_of v = []

-- the message that carries the output of a tool call back to the model
abbrev pub tool_message : AgentToolCallRecord → Value
tool_message r = obj (
    field (txt "role") (str (txt "tool")) (
      field (txt "content")
        (arr (
          cons
            (obj (
              field (txt "type") (str (txt "tool-result")) (
                field (txt "toolCallId") r.tool_call_id (
                  field (txt "toolName") r.tool_name (
                    field (txt "output")
                      (obj (
                        field (txt "type") (str (txt "json")) (
                          field (txt "value") (if is_nullish r.output then null else r.output)
                            end)))
                      end)))))
            nil))
        end))

-- the name of a tool call, as a property key; a name that is no text finds no tool
abbrev pub key_of : Value → Text
key_of (str s) = s
key_of v = []

-- What the loop carries from one iteration to the next.
pub record Progress : Type 0 where
  pub messages : List Value
  pub previous_usage : Option Value
  pub input_tokens : Value
  pub output_tokens : Value
  pub tool_calls : List AgentToolCallRecord

abbrev pub add_record : AgentToolCallRecord → Progress → Progress
add_record r p = record p {
  tool_calls = p.tool_calls ++ r ∷ [];
  messages = p.messages ++ tool_message r ∷ [];
}

abbrev pub add_memo : Value → Progress → Progress
add_memo memo p =
    let usage = prop (txt "usage") memo in
    record p {
      messages = p.messages ++ list_of (prop (txt "responseMessages") memo);
      previous_usage = some usage;
      input_tokens = plus p.input_tokens (tokens (prop (txt "inputTokens") usage));
      output_tokens = plus p.output_tokens (tokens (prop (txt "outputTokens") usage));
    }

module _ (host : Host) where
  -- `agent "<name>": <why>`
  unfoldable pub agent_error : Text → Text → Outcome (Unit {0})
  agent_error name why = threw (new_error host (txt "agent \"" ++ (name ++ (txt "\": " ++ why))))

  unfoldable pub assert_llm_memo : Text → Value → Outcome (Unit {0})
  unfolding is_llm_memo agent_error
  assert_llm_memo name o =
      if is_llm_memo o
      then returned tt
      else agent_error name (
          txt
            "llm step memo has a damaged structure (must keep text/toolCalls/responseMessages/usage) — check the redact hook")
