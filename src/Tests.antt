-- ===== src/Tests.antt =====
-- A host and an application to run the model on, the tests, and the theorems at concrete inputs.
pub mod Sample
mod Signing
mod Stepping
mod Carrying
mod Serving
mod Conversing
mod Talking
mod Planning
mod Failing
mod Choosing
mod Showing
mod Publishing
mod Demonstrating
mod Watching
mod Replaying
mod Toggling
mod Listing
mod Timing
mod Reporting
