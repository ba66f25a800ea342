-- ===== src/Agent/Durably/Conversation.antt =====
-- What an agent of sdk-ts/src/agent.ts does, without the SDK: the model is called until it answers, the tools of
-- its answer are called in their order, each until it succeeds, and the model is called again.
use triggerlink.Prelude.{ℕ, suc, ◌+◌, ◌≡◌, some, List, [], ◌∷◌, txt, lookup}
use triggerlink.Value.{Value, prop}
use triggerlink.Execx.{Host, Thrown}
use triggerlink.Effects.{returned, threw, State, Exec}
use triggerlink.Durable.Effect.{outside}
use triggerlink.Agent.Options.{AgentTool, AgentOpts}
use triggerlink.Agent.Memo.{AgentResult, Progress, add_record, add_memo, key_of}
use triggerlink.Agent.Dialogue.{calls_of}
use triggerlink.Agent.Loop.{prepare, llm_call, tool_call, record_of, result_of}

-- From a world, a function succeeds at the last of so many calls, with a value and in a world; the calls before
-- it fail.
pub data Succeeds {W : Type 0} (m : Exec W Value) : W → ℕ → Value → W → Type 0 where
  at_last :
      {w : W} {v : Value} {t : State W} → m (outside w) ≡ (returned v, t) → Succeeds m w 1 v t.world
  again :
      {w w' : W} {e : Thrown} {t : State W} {n : ℕ} {v : Value}
      → m (outside w) ≡ (threw e, t)
      → Succeeds m t.world n v w'
      → Succeeds m w (suc n) v w'

module _ (host : Host) {W : Type 0} (opts : AgentOpts W) (i : ℕ) where
  -- The calls of tools that the model asks for, one after the other.
  pub data Uses : List Value → Progress → W → ℕ → Progress → W → Type 0 where
    nothing : {p : Progress} {w : W} → Uses [] p w 0 p w
    use_tool :
        {call : Value} {calls : List Value} {p q : Progress} {w w' u : W} {n k : ℕ} {output : Value}
        (def : AgentTool W)
        → lookup (key_of (prop (txt "toolName") call)) opts.tools ≡ some def
        → Succeeds (tool_call host opts i def call) w n output w'
        → Uses calls (add_record (record_of call output) p) w' k q u
        → Uses (call ∷ calls) p w (n + k) q u

module _ (host : Host) {W : Type 0} (opts : AgentOpts W) where
  -- At most `left` iterations from iteration `i` on, with the number of calls of the model and the tools.
  pub data Converses : (left i : ℕ) → Progress → W → ℕ → AgentResult → W → Type 0 where
    answers :
        {left i : ℕ} {p : Progress} {w u : W} {n : ℕ} {messages : List Value} {memo : Value}
        → prepare host opts i p ≡ returned messages
        → Succeeds (llm_call host opts i messages) w n memo u
        → calls_of memo ≡ []
        → Converses
            (suc left)
            i
            p
            w
            n
            (result_of memo (i + 1) (add_memo memo (record p { messages = messages })))
            u
    goes_on :
        {left i : ℕ} {p q : Progress} {w w' w'' u : W} {n k j : ℕ} {messages : List Value}
        {memo call : Value} {calls : List Value} {result : AgentResult}
        → prepare host opts i p ≡ returned messages
        → Succeeds (llm_call host opts i messages) w n memo w'
        → calls_of memo ≡ call ∷ calls
        → Uses host opts i
            (call ∷ calls)
            (add_memo memo (record p { messages = messages }))
            w'
            k
            q
            w''
        → Converses left (i + 1) q w'' j result u
        → Converses (suc left) i p w (n + (k + j)) result u
