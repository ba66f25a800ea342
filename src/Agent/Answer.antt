-- ===== src/Agent/Answer.antt =====
-- The answer of an agent as an application reads it of the result: lastAssistantTextMessageContent after `run`
-- (sdk-ts/src/agent.ts).
use triggerlink.Prelude.{
  ◌≤◌, ◌≡◌, sym, ◌∙◌, refl, ap, ◌⊎◌, none, some, List, [], ◌∷◌, ◌++◌, length, append-nil,
  append_assoc, Text, txt, lookup, All,
}
use triggerlink.Value.{Value, prop}
use triggerlink.Execx.{Host}
use triggerlink.Effects.{returned, State}
use triggerlink.Messages.{last_assistant_text}
use triggerlink.Messages.Answering.{IsAssistant, IsOther, text_of, last_assistant_text-IsAssistant}
use triggerlink.Agent.Options.{Agent}
use triggerlink.Agent.Memo.{AgentResult, list_of}
use triggerlink.Agent.Loop.{run_agent, user_message}
use triggerlink.Agent.Dialogue.{Round, round_messages, transcript}
use triggerlink.Agent.Replay.{claimed}
use triggerlink.Agent.Completion.{HasRounds, run_agent-HasRounds}

-- a round without tool calls
abbrev pub answer_round : Value → Round
answer_round memo = record { memo = memo; records = [] }

transcript-append :
    (rounds later : List Round)
    → transcript (rounds ++ later) ≡ transcript rounds ++ transcript later
transcript-append [] later = refl
transcript-append (round ∷ rounds) later =
    ap (λ l. round_messages round ++ l) (transcript-append rounds later)
    ∙ sym (append_assoc (round_messages round) (transcript rounds) (transcript later))

-- what is said up to the last message of the assistant
abbrev so_far : Text → List Round → List Value → List Value
so_far input rounds before = user_message input ∷ (transcript rounds ++ before)

spoken :
    (input : Text) (rounds : List Round) (memo : Value) (before : List Value) (m : Value)
    (after : List Value)
    → list_of (prop (txt "responseMessages") memo) ≡ before ++ m ∷ after
    → user_message input ∷ transcript (rounds ++ answer_round memo ∷ [])
      ≡ so_far input rounds before ++ m ∷ after
spoken input rounds memo before m after said =
    ap (λ l. user_message input ∷ l)
      (transcript-append rounds (answer_round memo ∷ [])
        ∙ ap (λ l. transcript rounds ++ l)
            (append-nil (list_of (prop (txt "responseMessages") memo) ++ [])
              ∙ append-nil (list_of (prop (txt "responseMessages") memo))
              ∙ said)
        ∙ sym (append_assoc (transcript rounds) before (m ∷ after)))

-- With the memos of a dialogue, as for its return, `run` of an agent returns a result of which
-- lastAssistantTextMessageContent gives the text of the last message of the assistant in the model's last
-- response, if that has one, and no text of an earlier message.
pub run_agent-last_text :
    (host : Host) {W : Type 0} (agent : Agent W) (input : Text) (rounds : List Round) (memo : Value)
    (before : List Value) (m : Value) (after : List Value) (s s' : State W)
    → agent.opts.prepare_messages ≡ none
    → (lookup agent.opts.name s.claims ≡ none)
      ⊎ (lookup agent.opts.name s.claims ≡ some agent.identity)
    → length (rounds ++ answer_round memo ∷ []) ≤ agent.max_iterations
    → HasRounds host agent.opts (rounds ++ answer_round memo ∷ []) (claimed agent s) s'
    → list_of (prop (txt "responseMessages") memo) ≡ before ++ m ∷ after
    → IsAssistant m
    → All IsOther after
    → (r : AgentResult) × (run_agent host agent input s ≡ (returned r, s'))
      × (last_assistant_text r.output ≡ some (text_of m))
run_agent-last_text host agent input rounds memo before m after s s' plain free bound memos said
      assistant others =
    let (r, ran, iterations, tool_calls, output) =
      run_agent-HasRounds host agent input (rounds ++ answer_round memo ∷ []) s s' plain free bound
        memos in
    (
      r,
      ran,
      ap last_assistant_text (output ∙ spoken input rounds memo before m after said)
          ∙ last_assistant_text-IsAssistant (so_far input rounds before) m after assistant others,
    )
