-- ===== src/Agent.antt =====
-- sdk-ts/src/agent.ts: createAgent, and the loop of an agent over durable steps. generateText of the
-- package `ai` and the zod schemas are parameters, fields of the options.
pub mod Options
pub mod Memo
pub mod Loop
pub mod Returning
pub mod Replay
pub mod Names
pub mod Dialogue
pub mod Finding
pub mod Outcomes
pub mod Completion
pub mod Answer
pub mod Durably
