-- ===== src/Tests/Carrying.antt =====
-- A run whose callbacks travel as signed requests.
use triggerlink.Prelude.{
  ℕ, zero, suc, ◌+◌, ◌*◌, ◌≡◌, ◌↔◌, refl, Option, none, some, List, [], ◌∷◌, Text, txt, insert,
  lookup, ◌==◌, arith, inr,
}
use triggerlink.Prelude.Decimal.{print}
use triggerlink.Value.{Value, null, obj, end, prop, nat, str}
use triggerlink.Execx.{Host, StepState, next_hash, hash_input, new_ctx}
use triggerlink.Sign.Verdicts.{HasHexDigests}
use triggerlink.Step
use triggerlink.Step.{run, enter, memo_of}
use triggerlink.Function.{TriggerFunction}
use triggerlink.Registry.{Registry}
use triggerlink.Client.{Client}
use triggerlink.Stringify.{IsJson}
use triggerlink.Serve.{opcode_of, invoke}
use triggerlink.Durable.{Flow, finish, step, done, handler_of}
use triggerlink.Durable.Callbacks.{callback_value, attempt_of, drive_signed, AreCarried, Clock}
use triggerlink.Agent.Memo.{memo_object, is_llm_memo, assert_llm_memo}
use triggerlink.Agent.Loop.{run_agent, claim, iterate, ask, prepare, llm_call}
use triggerlink.Agent.Durably.Execution.{agent_handler, ConversesWithin}
use triggerlink.Agent.Durably.Callbacks.{drive_signed-Converses_iff}
use triggerlink.Tests.Talking.{agent, show, silent, response, options-AreEffects}
use triggerlink.Tests.Sample.{host, host-CollisionFree, host-HasHexDigests}
use triggerlink.Tests.Stepping.{plain, context}

abbrev flow : Flow ℕ
flow = step (txt "a") (λ n. (done null, suc n)) (λ v. finish v)

-- the memos of the second callback
abbrev memos : List (Text × StepState)
memos = (txt "f:a:0", record { id = txt "a"; status = txt "completed"; output = null }) ∷ []

-- Two bodies: one without memos, one with the step's.
abbrev code_steps : Value → List ℕ
code_steps (obj end) = 0 ∷ []
code_steps v = 1 ∷ []

abbrev encode : Value → List ℕ
encode v = code_steps (prop (txt "steps") (prop (txt "ctx") v))

abbrev parse : List ℕ → Option Value
parse (zero ∷ []) = some (callback_value (txt "f") (attempt_of 0 context) [])
parse (suc zero ∷ []) = some (callback_value (txt "f") (attempt_of 1 context) memos)
parse body = none

abbrev wire : Host
wire = record host { parse_json = parse }

abbrev flow_function : TriggerFunction ℕ
flow_function = record { opts = plain; retries = nat 0; handler = λ c. handler_of wire flow }

abbrev pub client : Client
client = record {
  id = txt "app";
  signing_key = txt "k";
  event_key = none;
  base_url = txt "http://localhost:8288";
}

abbrev registry : Registry ℕ
registry = (txt "f", flow_function) ∷ []

-- a callback a second, each checked 5 ms after it is signed
abbrev pub clock : Clock
clock = record {
  sent = λ n. n * 1000;
  received = λ n. n * 1000 + 5;
  timely = λ n. (omega arith, omega arith);
}

-- The same with an agent, whose model answers at once.
abbrev agent_memos : List (Text × StepState)
agent_memos =
    (
      txt "f:agent/a:0",
      record { id = txt "agent/a"; status = txt "completed"; output = memo_object (response []) },
    )
    ∷ []

abbrev parse_agent : List ℕ → Option Value
parse_agent (zero ∷ []) = some (callback_value (txt "f") (attempt_of 0 context) [])
parse_agent (suc zero ∷ []) = some (callback_value (txt "f") (attempt_of 1 context) agent_memos)
parse_agent body = none

abbrev agent_wire : Host
agent_wire = record host { parse_json = parse_agent }

agent_wire-HasHexDigests : HasHexDigests agent_wire
agent_wire-HasHexDigests = record {
  hex = host-HasHexDigests.hex;
  nonempty = host-HasHexDigests.nonempty;
}

abbrev agent_function : TriggerFunction ℕ
agent_function = record {
  opts = plain;
  retries = nat 0;
  handler = λ c. agent_handler agent_wire agent (txt "hi") (λ result. finish (show result));
}

abbrev agents : Registry ℕ
agents = (txt "f", agent_function) ∷ []

agent_carried : AreCarried silent agent_wire encode (txt "f") agent_function context 2 0 [] 2
unfolding AreCarried IsJson invoke opcode_of handler_of run enter next_hash memo_of new_ctx insert
    lookup hash_input print ◌==◌ Step.finish prop run_agent claim iterate ask prepare llm_call
    is_llm_memo assert_llm_memo
agent_carried = (
  record { fits = omega arith; parsed = refl },
  inr (tt, (tt, (tt, ((tt, (tt, tt)), tt)))),
  (record { fits = omega arith; parsed = refl }, inr tt, tt),
)

agent_registered : lookup (txt "f") agents ≡ some agent_function
unfolding lookup ◌==◌
agent_registered = refl

drive_signed-Converses_iff_example :
    (drive_signed silent agent_wire encode clock.sent clock.received client agents
        (txt "f")
        context
        2
        0
        []
        2
      ≡ some (str (txt "text"), 3))
    ↔ ConversesWithin agent_wire agent (txt "hi") show 2 2 (str (txt "text")) 3
drive_signed-Converses_iff_example =
    drive_signed-Converses_iff silent agent_wire encode clock client agents (txt "f") agent_function
      context agent (txt "hi") show 2 2 (str (txt "text")) 3 agent_registered (λ n. refl)
      options-AreEffects tt agent_wire-HasHexDigests (host-CollisionFree (txt "f")) agent_carried
