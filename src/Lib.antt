-- ===== src/Lib.antt =====
-- A verification library for TriggerLink's TypeScript SDK (sdk-ts/src).
--
-- TriggerLink runs durable functions. The platform (the Go code under cmd/ and internal/) keeps runs and
-- step results; an application embeds the SDK and serves one HTTP route. To make progress with a run the
-- platform posts a signed callback with the outputs of the completed steps; the SDK calls the function's
-- handler from the top, answers known steps from the memos, executes at most one unknown step, and
-- interrupts the handler by throwing an opcode that goes back as the response. The development models
-- the SDK's side, function by function, and proves what makes this protocol right.
--
-- Where each part stands:
-- - Prelude: texts (lists of code units), maps in order of insertion, decimal numerals, tests.
-- - Value: the dynamic values (`unknown`) and numbers of JavaScript. Fractions are left out, and integers
--   are exact, without the rounding of doubles above 2^53.
-- - Execx (sdk-ts/src/execx.ts): opcodes, thrown values, ExecCtx with nextHash. Execx.Keys is about the keys,
--   and Execx.Ordering about the order in which the steps ask for them.
-- - Effects: an asynchronous function as a state and exception monad, `Exec`, over the execution context and
--   a world `W` of the application. Awaited calls run one after the other; concurrent steps
--   (Promise.all) are not modelled.
-- - Duration (msToGoDuration of sdk-ts/src/step.ts, goDuration of sdk-ts/src/serve.ts). A quotient by 1000 is
--   printed exactly below 10^15; above, where the double is rounded, what JavaScript prints is a parameter
--   (large_quotient of Host). Fractions of a millisecond are left out, like all fractions.
-- - Step (sdk-ts/src/step.ts): run, sleep, sleepUntil, sendEvent, waitForEvent.
-- - Sign (sdk-ts/src/sign.ts): sign, verifySignature with the parsing of the header.
-- - Function (sdk-ts/src/function.ts): the options and createFunction.
-- - Client (sdk-ts/src/client.ts): createClient, send, and register with its timers. Bodies are kept before
--   JSON.stringify. register has fuel for the attempts that are looked at; the limit on attempts is
--   enough. Client.BaseUrl, Client.Sending and Client.Registering are about the three.
-- - Registry (the loop at the top of `serve` in sdk-ts/src/serve.ts), Manifest (the body of GET) and Serve
--   (GET and POST). Registry.Fresh and Registry.Apart are about ids that are listed once, Manifest.Failures about what the failure of a
--   run triggers (sections 3 and 3.2 of docs/protocol.md, with the evaluation of match expressions as a
--   parameter), and Manifest.Handling about the handler that is called. Serve.Wire has the opcodes as the JSON of a response, and
--   a reader by docs/protocol.md; Stringify is what JSON.stringify makes of the values in them: NaN and the
--   infinities become null, and what is undefined is left out of an object.
-- - Durable: workflows over the steps (run, sleep, sleepUntil, sendEvent, waitForEvent), executed directly and by
--   callbacks. The platform's side of that loop follows docs/protocol.md: a completed step is kept, a
--   failure is retried without a limit, and a question (to sleep, to send events, to wait for one) is
--   answered once, with an output that is kept; what it answers, and what happens in the world until then,
--   is a parameter, the record `Platform`. The number of callbacks is the fuel, and the theorem holds for
--   every fuel, so that enough attempts for the direct execution are enough callbacks. Durable.Callbacks
--   sends the callbacks as signed requests to POST, with the memos in their bodies, and reads the opcodes
--   from the responses; Durable.Completing is about when a run ends.
--   Durable.Limited is the same under a platform that gives up after a number of callbacks, and that may refuse what
--   it is asked for (section 7 of docs/protocol.md); the message of a failed run is kept, and the steps' stacks are not.
--   Durable.Limited.Ending has the course of such a run without the SDK, with the numbers of its callbacks, which are
--   enough as fuel, and of the failed ones. Times of waiting between callbacks are left out.
--   Durable.Effect and Durable.Simulation are about handlers that are written with the steps' functions and
--   run as a workflow.
-- - Messages (assertPreparedMessagesShape and lastAssistantTextMessageContent of sdk-ts/src/agent.ts).
-- - Agent (createAgent of sdk-ts/src/agent.ts): Agent.Options has the options and their checks, Agent.Memo the
--   memo of a model call and what the loop carries, Agent.Loop the loop. A run is an `Exec` that
--   takes its steps by Step.run. The loop recurses on the iterations left, which is the code's own
--   limit, so no fuel is added. Agent.Dialogue says without the loop what a run comes to, and Agent.Answer what an
--   application reads of it; Agent.Returning
--   is about computations that return, and Agent.Finding about what the steps of a round have found then. Addition
--   is the `+` of the usage, by which texts are joined. Agent.Durably is an agent's run as a workflow of Durable: a step for
--   each call of the model and of a tool. Agent.Durably.Conversation says what such a run does without
--   the SDK, and Agent.Durably.Execution and
--   Agent.Durably.Callbacks compare the callbacks with it. Agent.Durably.Plan is about handlers that run agents
--   among other steps, and Agent.Durably.Limited about them where the platform gives up. The tools
--   are looked up by name among the given ones; names that every JavaScript object has
--   (`constructor`) are not told apart there. The names of tools in memos are texts.
-- - Example (examples/nextjs/app): Example.Tasks the task table of lib/tasks.ts, Example.Workflows the
--   functions of api/triggerlink/route.ts as `Exec` over the table, the console and a clock that
--   only pauses move. The ids that they read from their events are arguments. Example.Routes has the other
--   routes (api/report, api/report/followup, api/send) and the client's options (lib/platform.ts), and
--   Example.Panel the panel of ReportPanel.tsx as a step relation, whose requests are answered in any order.
-- - Dashboard: the hook of web/src/usePolling.js with the page of one run (web/src/pages/RunDetailPage.jsx) as a
--   step relation: ticks begin requests, and their answers arrive in any order. A page that has seen
--   its run end is taken to render again before another tick, and the address of another run makes it poll again.
--   Dashboard.Polling is about what the hook keeps, and Dashboard.Queries about polling by what the user has chosen.
--   Dashboard.Api has the calls of web/src/api.js over a parameter `fetch`; Dashboard.Runs the list of runs
--   (web/src/pages/RunListPage.jsx) with its further pages, each request with its answer as one operation
--   and the answers alone as others; Dashboard.Actions the buttons of the page of a run as a step relation over
--   the one for its polling; Dashboard.Functions the list of functions (web/src/pages/FunctionListPage.jsx);
--   Dashboard.Events the stream of events (web/src/pages/EventStreamPage.jsx) and the badge of a status
--   (web/src/components/StatusBadge.jsx); Dashboard.Json the tree of a JSON value
--   (web/src/components/JsonTree.jsx); Dashboard.Timeline the bars of a run's steps (StepGantt, StepBar and
--   InFlightBar of RunDetailPage.jsx), in whole milliseconds and exact fractions, and its child Untimed the same of
--   rows whose time is missing. Dashboard.Screen has the
--   items of a page: texts, links and controls in their order, without tags and classes. The child modules
--   called Screen are what the pages show, by the state of each; Dashboard.App is the frame around them
--   (web/src/App.jsx), whose matching of addresses is the router's.
-- - Tests: a sample host, tests and the theorems at concrete inputs.
--
-- What the SDK calls and does not contain is a parameter, the record `Host` of Execx: SHA-256 and HMAC of
-- node:crypto, the clock (an argument `now`), dates, `Number` on texts that are not all digits, JSON.parse,
-- and the stacks of errors. Theorems that need it assume that SHA-256 has no collision among the keys of
-- one function (CollisionFree), or that digests are printed in hexadecimal (HasHexDigests).
--
-- Not modelled: the platform in Go and its built dashboard, the Go SDK, the tags and styles of the dashboard's and
-- the example's pages, the dates and numbers as the user's locale prints them, and the providers that sdk-ts/src/agent.ts passes on.
mod Prelude
pub mod Value
pub mod Stringify
pub mod Execx
pub mod Effects
pub mod Duration
pub mod Addition
pub mod Step
pub mod Sign
pub mod Client
pub mod Function
pub mod Registry
pub mod Manifest
pub mod Serve
pub mod Durable
pub mod Messages
pub mod Agent
pub mod Example
pub mod Dashboard
mod Tests
