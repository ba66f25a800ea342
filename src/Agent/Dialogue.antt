-- ===== src/Agent/Dialogue.antt =====
-- What a run of an agent comes to, told without the loop: the rounds of a dialogue with the model.
use triggerlink.Prelude.{
  ap, ◌∙◌, append-nil, append_assoc, ◌≡◌, ◌≢◌, some, List, [], ◌∷◌, ◌++◌, map, Text, txt, lookup,
}
use triggerlink.Value.{Value, prop}
use triggerlink.Addition.{plus}
use triggerlink.Agent.Options.{AgentTool}
use triggerlink.Agent.Memo.{
  Progress, add_record, AgentToolCallRecord, list_of, tokens, tool_message, key_of,
}
use triggerlink.Agent.Loop.{record_of}

-- One model call, by its memo, and the tool calls that it led to.
pub record Round : Type 0 where
  pub memo : Value
  pub records : List AgentToolCallRecord

abbrev pub calls_of : Value → List Value
calls_of memo = list_of (prop (txt "toolCalls") memo)

-- The records answer the calls one by one, each with a tool of the agent.
pub data Answers {W : Type 0} (tools : List (Text × AgentTool W))
    : List Value → List AgentToolCallRecord → Type 0 where
  nothing : Answers tools [] []
  answered :
      {call output : Value} {calls : List Value} {records : List AgentToolCallRecord}
      (def : AgentTool W)
      → lookup (key_of (prop (txt "toolName") call)) tools ≡ some def
      → Answers tools calls records
      → Answers tools (call ∷ calls) (record_of call output ∷ records)

-- Each round but the last makes tool calls and has them answered; the last makes none, and its text is
-- the answer.
pub data IsDialogue {W : Type 0} (tools : List (Text × AgentTool W)) (text : Value)
    : List Round → Type 0 where
  final :
      {memo : Value}
      → calls_of memo ≡ []
      → prop (txt "text") memo ≡ text
      → IsDialogue tools text (record { memo = memo; records = [] } ∷ [])
  turn :
      {memo : Value} {records : List AgentToolCallRecord} {rounds : List Round}
      → calls_of memo ≢ []
      → Answers tools (calls_of memo) records
      → IsDialogue tools text rounds
      → IsDialogue tools text (record { memo = memo; records = records } ∷ rounds)

abbrev pub round_messages : Round → List Value
round_messages round =
    list_of (prop (txt "responseMessages") round.memo) ++ map tool_message round.records

-- what the rounds say, after the user's message
abbrev pub transcript : List Round → List Value
transcript [] = []
transcript (round ∷ rounds) = round_messages round ++ transcript rounds

abbrev pub all_records : List Round → List AgentToolCallRecord
all_records [] = []
all_records (round ∷ rounds) = round.records ++ all_records rounds

-- the sum over the rounds of a field of the usage, onto `n`
abbrev pub total : Text → Value → List Round → Value
total which n [] = n
total which n (round ∷ rounds) =
    total which (plus n (tokens (prop which (prop (txt "usage") round.memo)))) rounds

-- what the loop carries after the records of a round
abbrev pub extend : List AgentToolCallRecord → Progress → Progress
extend records p = record p {
  tool_calls = p.tool_calls ++ records;
  messages = p.messages ++ map tool_message records;
}

pub extend-nil : (p : Progress) → extend [] p ≡ p
extend-nil p = rw (append-nil p.tool_calls, append-nil p.messages)

pub extend-cons :
    (r : AgentToolCallRecord) (records : List AgentToolCallRecord) (p : Progress)
    → extend records (add_record r p) ≡ extend (r ∷ records) p
extend-cons r records p = rw (
  append_assoc p.tool_calls (r ∷ []) records,
  append_assoc p.messages (tool_message r ∷ []) (map tool_message records),
)

pub padded : (said replies : List Value) → said ++ replies ≡ said ++ ((replies ++ []) ++ [])
padded said replies = rw (append-nil (replies ++ []), append-nil replies)

pub regroup :
    (said replies answers later : List Value)
    → ((said ++ replies) ++ answers) ++ later ≡ said ++ ((replies ++ answers) ++ later)
regroup said replies answers later =
    ap (λ l. l ++ later) (append_assoc said replies answers)
    ∙ append_assoc said (replies ++ answers) later
