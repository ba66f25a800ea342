-- ===== src/Example.antt =====
-- The example application of examples/nextjs: its task table and its two functions, over the SDK.
pub mod Tasks
pub mod Workflows
pub mod Runs
pub mod Panel
pub mod Routes
